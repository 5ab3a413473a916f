-- ===== src/Auth/Kept.antt =====
-- The handlers of the login server (Mononoke/src/Server) on its list of players.
use rzemulator.Base.{
  ℕ, ◌≡◌, subst, true, Option, none, some, arith, Bool-cases, Option-cases, inl, inr,
}
use rzemulator.Base.Assoc.{string_eq, lookup, lookup-erase}
use rzemulator.Auth.{
  Server, ClientSession, GameSession, player_of, send, delete_player, remove_player, get_player,
  get_game, remove_game,
}
use rzemulator.Auth.Client.{
  AccountRow, new_player, alloc_player, kick_if_in_game, drop_old_player, log_in, handle_login,
  handle_select_server,
}
use rzemulator.Auth.Client
use rzemulator.Auth.Game
use rzemulator.Auth.Game.{
  GameLogin, handle_game_login, handle_client_login, handle_client_logout,
  handle_client_kick_failed,
}
use rzemulator.Auth.Listed.{IsListed, drop-IsListed}
use rzemulator.Auth.Login.{handle_login_lem}
use text.Mathlib.TextEquality.{eq_iff}
use Prim.Native.String.{String}

pub login_refused-IsListed :
    (to_lower : String → String) (s : Server) (session : ClientSession) (request : ℕ)
    (row : AccountRow) {s' : Server} {session' : ClientSession}
    → IsListed s
    → row.is_blocked ≡ true
    → handle_login to_lower s session request (some row) ≡ some (s', session')
    → IsListed s'
unfolding handle_login log_in player_of alloc_player new_player send get_player
login_refused-IsListed to_lower s session request row w blocked e = record {
  entry = λ n q eq. ground (arith, w.entry n q);
}

pub no_account-IsListed :
    (to_lower : String → String) (s : Server) (session : ClientSession) (request : ℕ) {s' : Server}
    {session' : ClientSession}
    → IsListed s
    → handle_login to_lower s session request none ≡ some (s', session')
    → IsListed s'
unfolding handle_login send get_player
no_account-IsListed to_lower s session request w e = record {
  entry = λ n q eq. ground (arith, w.entry n q);
}

pub handle_login-IsListed :
    (to_lower : String → String) (s : Server) (session : ClientSession) (request : ℕ)
    (row : Option AccountRow) {s' : Server} {session' : ClientSession}
    → IsListed s
    → handle_login to_lower s session request row ≡ some (s', session')
    → IsListed s'
handle_login-IsListed to_lower s session request none w e =
    no_account-IsListed to_lower s session request w e
handle_login-IsListed to_lower s session request (some row) w e = elim (Bool-cases row.is_blocked) [
  | inl blocked ↦ login_refused-IsListed to_lower s session request row w blocked e
  | inr fine ↦
      let r = handle_login_lem to_lower s session request row w fine in
      subst IsListed (cc (r.1)) r.2
]

pub handle_select_server-IsListed :
    (s : Server) (session : ClientSession) (idx key : ℕ) {s' : Server}
    → IsListed s
    → handle_select_server s session idx key ≡ some s'
    → IsListed s'
unfolding handle_select_server player_of send get_player get_game
handle_select_server-IsListed s session idx key w e = record {
  entry = λ name q eq. ground (arith, w.entry name q);
}

pub client_close-IsListed :
    (s : Server) (session : ClientSession) {s' : Server}
    → IsListed s
    → Client.on_close s session ≡ some s'
    → IsListed s'
unfolding Client.on_close player_of delete_player remove_player get_player
client_close-IsListed s session w e = elim (Option-cases session.player) [
  | inl nobody ↦ record { entry = λ n q eq. ground (arith, w.entry n q) }
  | inr (p, mine) ↦
      let name = (s.player_at p).login_name in
      elim (Option-cases (lookup name s.players)) [
        | inl unlisted ↦ record { entry = λ n q eq. ground (arith, w.entry n q) }
        | inr (g, listed) ↦ record {
          entry = λ n q eq. ground (
            arith,
            w.entry n q,
            w.entry name g listed,
            lookup-erase (s.player_at g).login_name n s.players,
            eq_iff (s.player_at g).login_name n,
          );
        }
      ]
]

pub handle_client_login-IsListed :
    (s : Server) (session : GameSession) (name : String) (key : ℕ) {s' : Server}
    → IsListed s
    → handle_client_login s session name key ≡ some s'
    → IsListed s'
unfolding handle_client_login player_of send get_player
handle_client_login-IsListed s session name key w e = record {
  entry = λ n q eq. ground (arith, w.entry n q);
}

pub handle_client_logout-IsListed :
    (s : Server) (name : String) → IsListed s → IsListed (handle_client_logout s name)
unfolding handle_client_logout
handle_client_logout-IsListed s name w = elim (Option-cases (get_player name s)) [
  | inl e ↦ rw (e, handle_client_logout) w
  | inr (p, e) ↦ rw (e, handle_client_logout) (drop-IsListed s name p w e)
]

pub destroy-IsListed :
    (s : Server) (session : GameSession) → IsListed s → IsListed (Game.destroy s session).0
unfolding Game.destroy remove_game get_player
destroy-IsListed s session w = record { entry = λ n q eq. ground (arith, w.entry n q) }

pub handle_client_kick_failed-IsListed :
    (s : Server) (name : String) → IsListed s → IsListed (handle_client_kick_failed s name)
unfolding handle_client_kick_failed
handle_client_kick_failed-IsListed s name w = elim (Option-cases (get_player name s)) [
  | inl e ↦ rw (e, handle_client_kick_failed) w
  | inr (p, e) ↦ rw (e, handle_client_kick_failed) (drop-IsListed s name p w e)
]
