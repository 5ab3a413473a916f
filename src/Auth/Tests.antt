-- ===== src/Auth/Tests.antt =====
-- One player, listed and in no game, with one registered game server.
use rzemulator.Base.{ℕ, ◌≡◌, ◌≢◌, refl, true, false, none, some, [], ◌∷◌, ◌==◌, ◌⊎◌, arith}
use rzemulator.Base.Int.{pos, negsuc}
use rzemulator.Base.Assoc.{string_eq, nat_eq, lookup}
use rzemulator.Auth.{
  Player, GameInfo, ResultCode, Packet, Server, ClientSession, GameSession, get_player, get_game,
  write, remove_game, player_of,
}
use rzemulator.Auth.Client.{AccountRow, handle_login, handle_select_server, new_player}
use rzemulator.Auth.Client
use rzemulator.Auth.Game
use rzemulator.Auth.Game.{GameLogin, handle_client_login, handle_game_login, unauthed}
use rzemulator.Auth.Listed.{IsListed}
use rzemulator.Auth.Login.{handle_login_lem}
use rzemulator.Auth.Steps.{System, Step, Reach, Reach-IsListed}
use rzemulator.Auth.Handover.{select-login}
use rzemulator.Auth.Closing.{IsPlayed, game_close_lem, second_game_removes}
use rzemulator.Auth.Lifetime.{second_login_dangles, missing_server_stays, destroy_drops_successor}
use Prim.Native.String.{String}
use text.Mathlib.TextEquality.{eq_iff}

abbrev anna : Player
anna = record {
  account_id = 5;
  login_name = "anna";
  is_blocked = false;
  last_server_idx = 1;
  is_in_game = false;
  kick_next_login = false;
  one_time_key = 0;
  game_idx = negsuc 0;
  permission = pos 0;
}

abbrev world : GameInfo
world = record {
  server_idx = 1;
  server_name = "World";
  server_screenshot_url = "about:blank";
  is_adult_server = 0;
  server_ip = "127.0.0.1";
  server_port = pos 4514;
  session = some 9;
}

abbrev server : Server
server = record {
  player_at = λ p. anna;
  alive = λ p. p == 3;
  next_player = 4;
  game_at = λ g. world;
  players = ("anna", 3) ∷ [];
  games = (1, 8) ∷ [];
  sent = [];
}

abbrev session : ClientSession
session = record { id = 20; player = some 3; is_authed = true }

abbrev second : ClientSession
second = record { id = 21; player = none; is_authed = false }

abbrev game_session : GameSession
game_session = record { id = 9; game = some 8; is_authed = true }

abbrev row : AccountRow
row = record {
  account_id = 5;
  login_name = "anna";
  last_server_idx = 1;
  is_blocked = false;
  permission = pos 0;
}

abbrev same_case : String → String
same_case name = name

server-IsListed : IsListed server
unfolding get_player lookup
server-IsListed = record { entry = λ name p e. ground (arith, eq_iff "anna" name) }

handle_login_lem_example :
    (s' : Server) × (handle_login same_case server second 7 (some row)
      ≡ some (s', record second { player = some 4; is_authed = true }))
    × IsListed s'
    × (get_player "anna" s' ≡ some 4)
    × ((s'.player_at 4) ≡ new_player same_case row)
    × ((other : String) → other ≢ "anna" → get_player other s' ≡ get_player other server)
    × ((o : ℕ) → get_player "anna" server ≡ some o → s'.alive o ≡ false)
handle_login_lem_example = handle_login_lem same_case server second 7 row server-IsListed refl

abbrev system : System
system = record { server = server; client = λ i. session; game = λ i. game_session }

abbrev logged_out : System
logged_out = record system {
  server = Game.handle_client_logout server "anna";
  game = write system.game 0 game_session;
}

logout_step : Step same_case system logged_out
unfolding Game.process_incoming
logout_step =
    Step.game_packet 0 (Game.client_logout "anna") (Game.handle_client_logout server "anna")
      game_session true refl

Reach-IsListed_example : IsListed (Game.handle_client_logout server "anna")
Reach-IsListed_example =
    Reach-IsListed same_case {t = system} {u = logged_out} (Reach.next Reach.here logout_step)
      server-IsListed

select-login_example :
    (s1 s2 : Server) × (handle_select_server server session 1 77 ≡ some s1)
    × (s1.sent ≡ Packet.ac_select_server 20 ResultCode.success 77 ∷ [])
    × (handle_client_login s1 game_session "anna" 77 ≡ some s2)
    × (s2.sent ≡ Packet.ag_client_login 9 "anna" 5 ResultCode.success (pos 0) ∷ s1.sent)
unfolding get_player get_game lookup
select-login_example =
    select-login server session game_session 3 8 1 77 77 server-IsListed refl refl refl

second_login_dangles_example :
    (s' : Server) × (session' : ClientSession) × (handle_login same_case server second 7 (some row)
      ≡ some (s', session'))
    × (Client.on_close s' session ≡ none)
    × (handle_select_server s' session 1 77 ≡ none)
unfolding get_player lookup
second_login_dangles_example =
    second_login_dangles same_case server session second 7 row 3 1 77 server-IsListed refl refl refl

-- The same server with the player on game 1.
abbrev playing : Server
playing = record server { player_at = λ p. record anna { is_in_game = true; game_idx = pos 1 } }

playing-IsListed : IsListed playing
unfolding get_player lookup
playing-IsListed = record { entry = λ name p e. ground (arith, eq_iff "anna" name) }

game_close_lem_example :
    ((Game.on_close playing game_session ≡ none) × IsPlayed 1 playing)
    ⊎ ((Game.on_close playing game_session ≡ some (remove_game 1 playing))
        × ((name : String) (p : ℕ)
            → get_player name playing ≡ some p
            → (playing.player_at p).game_idx ≢ pos 1))
unfolding get_game lookup
game_close_lem_example = game_close_lem playing game_session 8 8 playing-IsListed refl refl refl

close_run : Game.on_close playing game_session ≡ none
unfolding Game.on_close Game.close_loop get_player get_game lookup player_of
close_run = refl

-- A second server under the index and name of the first.
abbrev twin_session : GameSession
twin_session = record { id = 11; game = some 12; is_authed = false }

abbrev twin : GameLogin
twin = record {
  server_idx = 1;
  server_name = "World";
  server_screenshot_url = "about:blank";
  is_adult_server = 0;
  server_ip = "127.0.0.1";
  server_port = pos 4515;
}

second_game_removes_example :
    (s' : Server) × (handle_game_login server twin_session twin ≡ some (s', unauthed twin_session))
    × (get_game 1 s' ≡ none)
unfolding get_game lookup
second_game_removes_example =
    second_game_removes server twin_session twin 12 8 server-IsListed refl (λ e. omega arith) refl
      refl refl (λ name p listed e. cc)

missing_server_stays_run :
    (s' : Server) × (handle_select_server server session 2 77 ≡ some s')
    × (s'.sent ≡ Packet.ac_select_server 20 ResultCode.not_exist 0 ∷ [])
    × (Client.on_close s' session ≡ some s')
    × (get_player "anna" s' ≡ some 3)
unfolding get_player get_game lookup
missing_server_stays_run = missing_server_stays server session 3 2 77 server-IsListed refl refl refl

-- Session 9 is closed and its index taken by the game at address 18.
abbrev replaced : Server
replaced = record server { games = (1, 18) ∷ [] }

destroy_drops_successor_run : get_game 1 (Game.destroy replaced game_session).0 ≡ none
unfolding get_game lookup
destroy_drops_successor_run = destroy_drops_successor replaced game_session 8 18 refl refl refl refl
