-- ===== src/Auth/Game.antt =====
-- Mononoke/src/Server/AuthGame/AuthGameSession.cpp.
use rzemulator.Base.{
  ◌>>=◌, ℕ, Bool, true, false, Option, none, some, List, [], ◌∷◌, ◌==◌, if◌then◌else◌,
}
use rzemulator.Base.Int.{ℤ, pos, eqb_ℤ}
use rzemulator.Auth.{
  GameInfo, success, access_denied, Packet, ag_login_result, ag_client_login, close_socket, Server,
  GameSession, write, player_of, send, delete_player, remove_player, get_player, get_game, add_game,
  remove_game,
}
use Prim.Native.String.{String}
use text.Mathlib.Text.{◌==◌ as str_eq}

-- The fields of `TS_GA_LOGIN`.
pub record GameLogin : Type 0 where
  pub server_idx : ℕ
  pub server_name : String
  pub server_screenshot_url : String
  pub is_adult_server : ℕ
  pub server_ip : String
  pub server_port : ℤ

unfoldable pub fill_game : ℕ → GameLogin → GameInfo
fill_game sid m = record {
  server_idx = m.server_idx;
  server_name = m.server_name;
  server_screenshot_url = m.server_screenshot_url;
  is_adult_server = m.is_adult_server;
  server_ip = m.server_ip;
  server_port = m.server_port;
  session = some sid;
}

-- The loop of `OnClose` over the entries of the map. It erases the name that the player has: if that is the entry
-- on which the iterator stands, `delete` then reads the erased entry; an entry that an earlier round has erased
-- is not met.
unfoldable pub close_loop : ℕ → List (String × ℕ) → Server → Option Server
close_loop idx [] s = some s
close_loop idx ((name, _) ∷ rest) s = elim (get_player name s) [
  | none ↦ close_loop idx rest s
  | some p ↦ elim (player_of s p) [
    | none ↦ none
    | some me ↦ elim (eqb_ℤ me.game_idx (pos idx)) [
      | false ↦ close_loop idx rest s
      | true ↦ elim (str_eq me.login_name name) [
        | true ↦ none
        | false ↦ close_loop idx rest (delete_player p (remove_player me.login_name s))
      ]
    ]
  ]
]

-- `OnClose`.
unfoldable pub on_close : Server → GameSession → Option Server
on_close s session = elim session.game [
  | none ↦ some s
  | some own ↦ elim (get_game (s.game_at own).server_idx s) [
    | none ↦ some s
    | some g ↦
        if str_eq (s.game_at g).server_name (s.game_at own).server_name
        then (do
          s' ← close_loop (s.game_at g).server_idx s.players s
          some (remove_game (s.game_at g).server_idx s'))
        else some s
  ]
]

-- `HandleGameLogin`, with `m_pGame` filled. Its call of `CloseSocket` runs `OnClose` at once.
abbrev pub filled : Server → ℕ → GameSession → GameLogin → Server
filled s g session m = record s { game_at = write s.game_at g (fill_game session.id m) }

abbrev pub refused : Server → GameSession → Server
refused s session =
    send (close_socket session.id) (send (ag_login_result session.id access_denied) s)

abbrev pub unauthed : GameSession → GameSession
unauthed session = record session { is_authed = false }

unfoldable pub register_game : Server → GameSession → ℕ → ℕ → Option (Server × GameSession)
register_game s session g idx = elim (get_game idx s) [
  | none ↦ some (
    send (ag_login_result session.id success) (add_game g s),
    record session { is_authed = true },
  )
  | some other ↦ (do
    closed ← on_close (refused s session) (unauthed session)
    some (closed, unauthed session))
]

abbrev pub register_own :
    Server → GameSession → GameLogin → Option ℕ → Option (Server × GameSession)
register_own s session m none = none
register_own s session m (some g) = register_game (filled s g session m) session g m.server_idx

unfoldable pub handle_game_login : Server → GameSession → GameLogin → Option (Server × GameSession)
handle_game_login s session m = register_own s session m session.game

-- `HandleClientLogin`.
unfoldable pub handle_client_login : Server → GameSession → String → ℕ → Option Server
handle_client_login s session name key = elim (get_player name s) [
  | none ↦ some (send (ag_client_login session.id "" 0 access_denied (pos 0)) s)
  | some p ↦ do
    me ← player_of s p
    let fits = key == me.one_time_key
    let s' =
        if fits
        then record s { player_at = write s.player_at p (record me { is_in_game = true }) }
        else s
    some (
        send
          (ag_client_login session.id me.login_name me.account_id
            (if fits then success else access_denied) me.permission)
          s')
]

-- `HandleClientLogout` and `HandleClientKickFailed` have one body.
unfoldable pub handle_client_logout : Server → String → Server
handle_client_logout s name = elim (get_player name s) [
  | none ↦ s
  | some p ↦ delete_player p (remove_player name s)
]

unfoldable pub handle_client_kick_failed : Server → String → Server
handle_client_kick_failed s name = elim (get_player name s) [
  | none ↦ s
  | some p ↦ delete_player p (remove_player name s)
]

-- `~AuthGameSession`.
unfoldable pub destroy : Server → GameSession → Server × GameSession
destroy s session = elim session.game [
  | none ↦ (s, session)
  | some own ↦ (
    if session.is_authed
        then elim (get_game (s.game_at own).server_idx s) [
          | none ↦ s
          | some g ↦ remove_game (s.game_at g).server_idx s
        ]
        else s,
    record session { game = none },
  )
]

-- The packets that `ProcessIncoming` knows, and a command that it does not.
pub data Incoming : Type 0 where
  game_login : GameLogin → Incoming
  client_login : String → ℕ → Incoming
  client_logout client_kick_failed : String → Incoming
  ping other : Incoming

-- Whether the handler table has the command, at the status that the session has.
unfoldable pub allowed : GameSession → Incoming → Bool
allowed session (game_login m) = true
allowed session (client_login name key) = session.is_authed
allowed session (client_logout name) = session.is_authed
allowed session (client_kick_failed name) = session.is_authed
allowed session ping = true
allowed session other = false

unfoldable pub run_handler : Server → GameSession → Incoming → Option (Server × GameSession)
run_handler s session (game_login m) = handle_game_login s session m
run_handler s session (client_login name key) = do
  s' ← handle_client_login s session name key
  some (s', session)
run_handler s session (client_logout name) = some (handle_client_logout s name, session)
run_handler s session (client_kick_failed name) = some (handle_client_kick_failed s name, session)
run_handler s session ping = some (send (Packet.ping session.id) s, session)
run_handler s session other = some (s, session)

-- `ProcessIncoming`; the flag is whether it returns `ReadDataHandlerResult::Ok`.
unfoldable pub process_incoming :
    Server → GameSession → Incoming → Option (Server × GameSession × Bool)
unfolding run_handler allowed
process_incoming s session m =
    if allowed session m
    then (do r ← run_handler s session m; some (r.0, r.1, true))
    else some (s, session, false)
