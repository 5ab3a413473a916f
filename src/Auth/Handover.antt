-- ===== src/Auth/Handover.antt =====
-- From the login server to a game server: `HandleSelectServer` of AuthClientSession.cpp and
-- `HandleClientLogin` of AuthGameSession.cpp, with the one-time key between them.
use rzemulator.Base.{ℕ, ◌≡◌, refl, Bool, true, some, ◌∷◌, ◌==◌, if◌then◌else◌, arith}
use rzemulator.Base.Int.{pos}
use rzemulator.Base.Assoc.{nat_eq, string_eq}
use rzemulator.Auth.{
  Player, ResultCode, Packet, Server, ClientSession, GameSession, write, to_u32, player_of, send,
  get_player, get_game,
}
use rzemulator.Auth.Client.{handle_select_server}
use rzemulator.Auth.Game.{handle_client_login}
use rzemulator.Auth.Listed.{IsListed}

-- The answer of `HandleClientLogin` for a listed player.
abbrev answer : GameSession → Player → Bool → Packet
answer session me fits =
    Packet.ag_client_login session.id me.login_name me.account_id
      (if fits then ResultCode.success else ResultCode.access_denied) me.permission

abbrev selected : Player → ℕ → ℕ → Player
selected me idx key = record me { game_idx = pos idx; one_time_key = key; is_in_game = true }

-- Where each listed name leads to a live player of that name, a session with a listed player selects a registered server: it is sent the key, and the game server
-- that then reports the player's name gets `success` with the account's number and permission exactly
-- for that key, and `access_denied` for every other.
pub select-login :
    (s : Server) (session : ClientSession) (game : GameSession) (p g idx key offered : ℕ)
    → IsListed s
    → session.player ≡ some p
    → get_player (s.player_at p).login_name s ≡ some p
    → get_game (to_u32 (pos idx)) s ≡ some g
    → (s1 s2 : Server) × (handle_select_server s session idx key ≡ some s1)
      × (s1.sent ≡ Packet.ac_select_server session.id ResultCode.success key ∷ s.sent)
      × (handle_client_login s1 game (s.player_at p).login_name offered ≡ some s2)
      × (s2.sent ≡ answer game (s.player_at p) (offered == key) ∷ s1.sent)
unfolding handle_select_server handle_client_login player_of send get_player get_game
select-login s session game p g idx key offered w mine listed registered =
    let name = (s.player_at p).login_name in
    let me' = selected (s.player_at p) idx key in
    let s1 = record s {
      player_at = write s.player_at p me';
      sent = Packet.ac_select_server session.id ResultCode.success key ∷ s.sent;
    } in
    let s2 = record s1 {
      player_at = if offered == key then write s1.player_at p me' else s1.player_at;
      sent = answer game (s.player_at p) (offered == key) ∷ s1.sent;
    } in
    (s1, s2, ground (arith, w.entry name p), refl, ground (arith, w.entry name p), refl)
