-- ===== src/Auth/Lifetime.antt =====
-- `OnClose`, the destructor and the handlers of Mononoke/src/Server, at pointers and entries whose object is
-- gone.
use rzemulator.Base.{ℕ, ◌≡◌, refl, true, false, none, some, ◌∷◌, arith}
use rzemulator.Base.Int.{pos}
use rzemulator.Base.Assoc.{nat_eq, string_eq, lookup-erase}
use rzemulator.Auth.{
  ResultCode, Packet, Server, ClientSession, GameSession, write, to_u32, player_of, send,
  get_player, get_game, remove_game,
}
use rzemulator.Auth.Client.{AccountRow, handle_login, handle_select_server}
use rzemulator.Auth.Client
use rzemulator.Auth.Game
use rzemulator.Auth.Listed.{IsListed}
use rzemulator.Auth.Login.{handle_login_lem}
use Prim.Native.String.{String}

deleted_faults :
    (s : Server) (session : ClientSession) (o idx key : ℕ)
    → session.player ≡ some o
    → s.alive o ≡ false
    → (Client.on_close s session ≡ none) × (handle_select_server s session idx key ≡ none)
unfolding Client.on_close handle_select_server player_of
deleted_faults s session o idx key mine dead = (ground arith, ground arith)

-- A second login to an account, with a row that is not blocked, deletes the player that the first
-- session still points to: when that session's socket closes, or it selects a server, it reads the
-- deleted player.
pub second_login_dangles :
    (to_lower : String → String) (s : Server) (first second : ClientSession) (request : ℕ)
    (row : AccountRow) (o idx key : ℕ)
    → IsListed s
    → first.player ≡ some o
    → get_player (to_lower row.login_name) s ≡ some o
    → row.is_blocked ≡ false
    → (s' : Server) × (session' : ClientSession) × (handle_login to_lower s second request
          (some row)
        ≡ some (s', session'))
      × (Client.on_close s' first ≡ none)
      × (handle_select_server s' first idx key ≡ none)
second_login_dangles to_lower s first second request row o idx key w mine listed fine =
    let r = handle_login_lem to_lower s second request row w fine in
    let dead : r.0.alive o ≡ false = r.6 o listed in
    let faults = deleted_faults r.0 first o idx key mine dead in
    (r.0, record second { player = some s.next_player; is_authed = true }, r.1, faults.0, faults.1)

-- A player who selects a server that is not registered is told so, and is marked as in game all the
-- same: when the socket closes, the entry stays in the list.
pub missing_server_stays :
    (s : Server) (session : ClientSession) (p idx key : ℕ)
    → IsListed s
    → session.player ≡ some p
    → get_player (s.player_at p).login_name s ≡ some p
    → get_game (to_u32 (pos idx)) s ≡ none
    → (s' : Server) × (handle_select_server s session idx key ≡ some s')
      × (s'.sent ≡ Packet.ac_select_server session.id ResultCode.not_exist 0 ∷ s.sent)
      × (Client.on_close s' session ≡ some s')
      × (get_player (s.player_at p).login_name s' ≡ some p)
unfolding handle_select_server Client.on_close player_of send get_player get_game
missing_server_stays s session p idx key w mine listed missing =
    let name = (s.player_at p).login_name in
    (
      record s {
        player_at =
            write s.player_at p (record (s.player_at p) {
              game_idx = pos idx;
              one_time_key = key;
              is_in_game = true;
            });
        sent = Packet.ac_select_server session.id ResultCode.not_exist 0 ∷ s.sent;
      },
      ground (arith, w.entry name p),
      refl,
      ground (arith, w.entry name p),
      listed,
    )

-- The destructor of a game session drops the entry under its index even where another session has
-- registered that index since.
pub destroy_drops_successor :
    (s : Server) (session : GameSession) (own g : ℕ)
    → session.game ≡ some own
    → session.is_authed ≡ true
    → get_game (s.game_at own).server_idx s ≡ some g
    → (s.game_at g).server_idx ≡ (s.game_at own).server_idx
    → get_game (s.game_at own).server_idx (Game.destroy s session).0 ≡ none
unfolding Game.destroy get_game remove_game
destroy_drops_successor s session own g mine authed other same =
    ground (arith, lookup-erase (s.game_at g).server_idx (s.game_at own).server_idx s.games)
