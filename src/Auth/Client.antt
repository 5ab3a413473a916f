-- ===== src/Auth/Client.antt =====
-- Mononoke/src/Server/AuthClient/AuthClientSession.cpp. The password is decrypted, hashed and sent to
-- the database before: `row` is the account that it returns, if any.
use rzemulator.Base.{
  ◌>>=◌, ℕ, ◌+◌, Bool, true, false, not, ◌&&◌, Option, none, some, ◌==◌, if◌then◌else◌,
}
use rzemulator.Base.Int.{ℤ, pos, negsuc}
use rzemulator.Auth.{
  Player, success, not_exist, access_denied, already_exist, ac_result, ac_select_server,
  ag_kick_client, Server, ClientSession, write, to_u32, player_of, send, delete_player, add_player,
  remove_player, get_player, get_game,
}
use Prim.Native.String.{String}

pub record AccountRow : Type 0 where
  pub account_id : ℕ
  pub login_name : String
  pub last_server_idx : ℕ
  pub is_blocked : Bool
  pub permission : ℤ

-- `new Player{}` with the columns of the row, its name in lower case.
unfoldable pub new_player : (String → String) → AccountRow → Player
new_player to_lower row = record {
  account_id = row.account_id;
  login_name = to_lower row.login_name;
  is_blocked = row.is_blocked;
  last_server_idx = row.last_server_idx;
  is_in_game = false;
  kick_next_login = false;
  one_time_key = 0;
  game_idx = negsuc 0;
  permission = row.permission;
}

unfoldable pub alloc_player : Player → Server → Server
alloc_player p s = record s {
  player_at = write s.player_at s.next_player p;
  alive = write s.alive s.next_player true;
  next_player = s.next_player + 1;
}

-- `KickPlayer` through the session of the game that the player is in, if it has one.
unfoldable pub kick_if_in_game : Player → Server → Server
kick_if_in_game old s =
    if old.is_in_game
    then elim (get_game (to_u32 old.game_idx) s) [
      | none ↦ s
      | some g ↦ elim (s.game_at g).session [
        | none ↦ s
        | some gs ↦ send (ag_kick_client gs old.login_name) s
      ]
    ]
    else s

-- The branch on the player who is listed under the same name.
unfoldable pub drop_old_player : ℕ → ℕ → Option ℕ → Server → Option Server
unfolding kick_if_in_game
drop_old_player sid request none s = some s
drop_old_player sid request (some o) s = do
  old ← player_of s o
  let told = send (ac_result sid request already_exist 0) (kick_if_in_game old s)
  some (delete_player o (remove_player old.login_name told))

unfoldable pub log_in : Server → ClientSession → ℕ → ℕ → Option (Server × ClientSession)
unfolding drop_old_player
log_in s session p request = do
  me ← player_of s p
  let session' = record session { player = some p }
  let blocked = send (ac_result session.id request access_denied 0) s
  if me.is_blocked then some (blocked, session') else (do
    s' ← drop_old_player session.id request (get_player me.login_name s) s
    some (
      send (ac_result session.id request success 1) (add_player p s'),
      record session' { is_authed = true },
    ))

-- `HandleLoginPacket` from the answer of the database on.
unfoldable pub handle_login :
    (String → String)
    → Server
    → ClientSession
    → ℕ
    → Option AccountRow
    → Option (Server × ClientSession)
unfolding log_in alloc_player new_player
handle_login to_lower s session request none =
    some (send (ac_result session.id request not_exist 0) s, session)
handle_login to_lower s session request (some row) =
    log_in (alloc_player (new_player to_lower row) s) session s.next_player request

-- `HandleSelectServer`; `key` is the product of the four random numbers.
unfoldable pub handle_select_server : Server → ClientSession → ℕ → ℕ → Option Server
handle_select_server s session server_idx key = do
  p ← session.player
  me ← player_of s p
  let s' = record s {
    player_at =
        write s.player_at p
          (record me { game_idx = pos server_idx; one_time_key = key; is_in_game = true });
  }
  some (elim (get_game (to_u32 (pos server_idx)) s') [
    | none ↦ send (ac_select_server session.id not_exist 0) s'
    | some g ↦ send (ac_select_server session.id success key) s'
  ])

-- `OnClose`.
unfoldable pub on_close : Server → ClientSession → Option Server
on_close s session = elim session.player [
  | none ↦ some s
  | some p ↦ do
    me ← player_of s p
    elim (get_player me.login_name s) [
      | none ↦ some s
      | some g ↦ do
        listed ← player_of s g
        if (listed.account_id == me.account_id) && not listed.is_in_game
            then some (delete_player p (remove_player listed.login_name s))
            else some s
    ]
]

-- The packets that `ProcessIncoming` knows, and a command that it does not.
pub data Incoming : Type 0 where
  version : Incoming
  account : ℕ → Option AccountRow → Incoming
  select_server : ℕ → ℕ → Incoming
  ping other : Incoming

-- `STATUS_CONNECTED` and `STATUS_AUTHED` of the handler table.
unfoldable pub allowed : ClientSession → Incoming → Bool
allowed session version = true
allowed session (account request row) = true
allowed session (select_server idx key) = session.is_authed
allowed session ping = false
allowed session other = false

pub data ReadResult : Type 0 where
  read_ok read_error : ReadResult

is_ping : Incoming → Bool
is_ping ping = true
is_ping _ = false

unfoldable pub run_handler :
    (String → String) → Server → ClientSession → Incoming → Option (Server × ClientSession)
run_handler to_lower s session (account request row) = handle_login to_lower s session request row
run_handler to_lower s session (select_server idx key) = do
  s' ← handle_select_server s session idx key
  some (s', session)
run_handler to_lower s session version = some (s, session)
run_handler to_lower s session ping = some (s, session)
run_handler to_lower s session other = some (s, session)

-- `ProcessIncoming`: the server list, which only reads, is left out.
unfoldable pub process_incoming :
    (String → String)
    → Server
    → ClientSession
    → Incoming
    → Option (Server × ClientSession × ReadResult)
unfolding run_handler allowed is_ping
process_incoming to_lower s session m =
    if allowed session m
    then (do r ← run_handler to_lower s session m; some (r.0, r.1, read_ok))
    else some (s, session, (if is_ping m then read_ok else read_error))
