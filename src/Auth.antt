-- ===== src/Auth.antt =====
-- The login server, Mononoke/src: Lists/PlayerList.h, Lists/GameList.h, Server/AuthClient and
-- Server/AuthGame. Objects lie at addresses; `alive` says which `Player` objects are not deleted, and a
-- handler that reads a deleted or null one has the result `none`. The handlers of one process run one
-- after the other. A row of the account query, the random numbers and `tolower` are arguments. The
-- packets sent are a list, newest first. Handlers and packet fields that only log are left out.
pub mod Client
pub mod Game
pub mod Listed
pub mod Login
pub mod Kept
pub mod Closing
pub mod Steps
pub mod Handover
pub mod Lifetime
pub mod Tests
use rzemulator.Base.{
  ◌>>=◌, ℕ, ◌+◌, ◌%◌, ◌^◌, ◌-◌, Bool, true, false, Option, none, some, List, [], ◌∷◌, ◌==◌,
  if◌then◌else◌,
}
use rzemulator.Base.Int.{ℤ, pos, negsuc}
use rzemulator.Base.Assoc.{Eq, nat_eq, string_eq, lookup, insert, erase}
use Prim.Native.String.{String}

-- `Player` of PlayerList.h.
pub record Player : Type 0 where
  pub account_id : ℕ
  pub login_name : String
  pub is_blocked : Bool
  pub last_server_idx : ℕ
  pub is_in_game : Bool
  pub kick_next_login : Bool
  pub one_time_key : ℕ
  pub game_idx : ℤ
  pub permission : ℤ

-- `Game`: a `TS_SERVER_INFO` with the session of the game server.
pub record GameInfo : Type 0 where
  pub server_idx : ℕ
  pub server_name : String
  pub server_screenshot_url : String
  pub is_adult_server : ℕ
  pub server_ip : String
  pub server_port : ℤ
  pub session : Option ℕ

-- The `TS_ResultCode`s in use.
pub data ResultCode : Type 0 where
  success not_exist access_denied already_exist : ResultCode

-- What is sent, with the session that it goes to.
pub data Packet : Type 0 where
  ac_result : ℕ → ℕ → ResultCode → ℕ → Packet
  ac_select_server : ℕ → ResultCode → ℕ → Packet
  ag_login_result : ℕ → ResultCode → Packet
  ag_client_login : ℕ → String → ℕ → ResultCode → ℤ → Packet
  ag_kick_client : ℕ → String → Packet
  ping : ℕ → Packet
  close_socket : ℕ → Packet

pub record Server : Type 0 where
  pub player_at : ℕ → Player
  pub alive : ℕ → Bool
  pub next_player : ℕ
  pub game_at : ℕ → GameInfo
  pub players : List (String × ℕ)
  pub games : List (ℕ × ℕ)
  pub sent : List Packet

-- `AuthClientSession`: `m_pPlayer` and `_isAuthed`.
pub record ClientSession : Type 0 where
  pub id : ℕ
  pub player : Option ℕ
  pub is_authed : Bool

-- `AuthGameSession`: `m_pGame`, null after the destructor, and `m_bIsAuthed`.
pub record GameSession : Type 0 where
  pub id : ℕ
  pub game : Option ℕ
  pub is_authed : Bool

abbrev pub write {ℓ} : {A : Type ℓ} → (ℕ → A) → ℕ → A → ℕ → A
write m p a q = if p == q then a else m q

-- `int` to `uint32_t`.
abbrev pub to_u32 : ℤ → ℕ
to_u32 (pos n) = n % 2 ^ 32
to_u32 (negsuc n) = 2 ^ 32 - 1 - n % 2 ^ 32

-- A read of `*p`.
pub player_of : Server → ℕ → Option Player
player_of s p = if s.alive p then some (s.player_at p) else none

pub send : Packet → Server → Server
send m s = record s { sent = m ∷ s.sent }

-- `delete` of a `Player`.
pub delete_player : ℕ → Server → Server
delete_player p s = record s { alive = write s.alive p false }

pub add_player : ℕ → Server → Server
add_player p s = record s { players = insert (s.player_at p).login_name p s.players }

pub remove_player : String → Server → Server
remove_player name s = record s { players = erase name s.players }

pub get_player : String → Server → Option ℕ
get_player name s = lookup name s.players

pub add_game : ℕ → Server → Server
add_game g s = record s { games = insert (s.game_at g).server_idx g s.games }

pub remove_game : ℕ → Server → Server
remove_game idx s = record s { games = erase idx s.games }

pub get_game : ℕ → Server → Option ℕ
get_game idx s = lookup idx s.games
