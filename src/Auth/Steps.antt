-- ===== src/Auth/Steps.antt =====
-- The login server (Mononoke/src) with all its sessions, as steps: packets, closed sockets, destructors.
use rzemulator.Base.{ℕ, ◌≡◌, subst, Bool, some, arith, Bool-cases, Option-cases, inl, inr}
use rzemulator.Base.Assoc.{string_eq}
use rzemulator.Auth.{Packet, Server, ClientSession, GameSession, write}
use rzemulator.Auth.Client.{
  AccountRow, new_player, alloc_player, kick_if_in_game, drop_old_player, log_in, handle_login,
  handle_select_server,
}
use rzemulator.Auth.Client
use rzemulator.Auth.Game
use rzemulator.Auth.Game.{
  GameLogin, handle_game_login, handle_client_login, handle_client_logout,
  handle_client_kick_failed,
}
use rzemulator.Auth.Listed.{IsListed, send-IsListed}
use Prim.Native.String.{String}
use rzemulator.Auth.Kept.{
  handle_login-IsListed, handle_select_server-IsListed, client_close-IsListed,
  handle_client_login-IsListed, handle_client_logout-IsListed, destroy-IsListed,
  handle_client_kick_failed-IsListed,
}
use rzemulator.Auth.Closing.{game_close-IsListed, handle_game_login-IsListed}

-- The process with all its sessions.
pub record System : Type 0 where
  pub server : Server
  pub client : ℕ → ClientSession
  pub game : ℕ → GameSession

-- One packet of one session, one socket that closes, or one destructor.
pub data Step (to_lower : String → String) (t : System) : System → Type 0 where
  client_packet :
      (i : ℕ) (m : Client.Incoming) (s' : Server) (session' : ClientSession) (r : Client.ReadResult)
      → Client.process_incoming to_lower t.server (t.client i) m ≡ some (s', session', r)
      → Step to_lower t (record t { server = s'; client = write t.client i session' })
  client_close :
      (i : ℕ) (s' : Server)
      → Client.on_close t.server (t.client i) ≡ some s'
      → Step to_lower t (record t { server = s' })
  game_packet :
      (i : ℕ) (m : Game.Incoming) (s' : Server) (session' : GameSession) (r : Bool)
      → Game.process_incoming t.server (t.game i) m ≡ some (s', session', r)
      → Step to_lower t (record t { server = s'; game = write t.game i session' })
  game_close :
      (i : ℕ) (s' : Server)
      → Game.on_close t.server (t.game i) ≡ some s'
      → Step to_lower t (record t { server = s' })
  game_destroyed :
      (i : ℕ)
      → Step to_lower t (record t {
        server = (Game.destroy t.server (t.game i)).0;
        game = write t.game i (Game.destroy t.server (t.game i)).1;
      })

pub data Reach (to_lower : String → String) (t : System) : System → Type 0 where
  here : Reach to_lower t t
  next : {u v : System} → Reach to_lower t u → Step to_lower u v → Reach to_lower t v

client_handler-IsListed :
    (to_lower : String → String) (s : Server) (session : ClientSession) (m : Client.Incoming)
    {s' : Server} {session' : ClientSession}
    → IsListed s
    → Client.run_handler to_lower s session m ≡ some (s', session')
    → IsListed s'
unfolding Client.run_handler
client_handler-IsListed to_lower s session (Client.account request row) w e =
    handle_login-IsListed to_lower s session request row w e
client_handler-IsListed to_lower s session (Client.select_server idx key) w e =
    elim (Option-cases (handle_select_server s session idx key)) [
      | inl fault ↦ absurd (ground arith)
      | inr (s1, run) ↦
          subst IsListed (ground arith) (handle_select_server-IsListed s session idx key w run)
    ]
client_handler-IsListed to_lower s session Client.version w e = subst IsListed (ground arith) w
client_handler-IsListed to_lower s session Client.ping w e = subst IsListed (ground arith) w
client_handler-IsListed to_lower s session Client.other w e = subst IsListed (ground arith) w

client_packet-IsListed :
    (to_lower : String → String) (s : Server) (session : ClientSession) (m : Client.Incoming)
    {s' : Server} {session' : ClientSession} {r : Client.ReadResult}
    → IsListed s
    → Client.process_incoming to_lower s session m ≡ some (s', session', r)
    → IsListed s'
unfolding Client.process_incoming
client_packet-IsListed to_lower s session m w e =
    elim (Option-cases (Client.run_handler to_lower s session m)) [
      | inl fault ↦ subst IsListed (ground arith) w
      | inr ((s1, session1), run) ↦ elim (Bool-cases (Client.allowed session m)) [
        | inl known ↦
            subst IsListed (ground arith) (client_handler-IsListed to_lower s session m w run)
        | inr unknown ↦ subst IsListed (ground arith) w
      ]
    ]

game_handler-IsListed :
    (s : Server) (session : GameSession) (m : Game.Incoming) {s' : Server} {session' : GameSession}
    → IsListed s
    → Game.run_handler s session m ≡ some (s', session')
    → IsListed s'
unfolding Game.run_handler
game_handler-IsListed s session (Game.game_login m) w e = handle_game_login-IsListed s session m w e
game_handler-IsListed s session (Game.client_login name key) w e =
    elim (Option-cases (handle_client_login s session name key)) [
      | inl fault ↦ absurd (ground arith)
      | inr (s1, run) ↦
          subst IsListed (ground arith) (handle_client_login-IsListed s session name key w run)
    ]
game_handler-IsListed s session (Game.client_logout name) w e =
    subst IsListed (ground arith) (handle_client_logout-IsListed s name w)
game_handler-IsListed s session (Game.client_kick_failed name) w e =
    subst IsListed (ground arith) (handle_client_kick_failed-IsListed s name w)
game_handler-IsListed s session Game.ping w e =
    subst IsListed (ground arith) (send-IsListed (Packet.ping session.id) s w)
game_handler-IsListed s session Game.other w e = subst IsListed (ground arith) w

game_packet-IsListed :
    (s : Server) (session : GameSession) (m : Game.Incoming) {s' : Server} {session' : GameSession}
    {r : Bool}
    → IsListed s
    → Game.process_incoming s session m ≡ some (s', session', r)
    → IsListed s'
unfolding Game.process_incoming
game_packet-IsListed s session m w e = elim (Option-cases (Game.run_handler s session m)) [
  | inl fault ↦ subst IsListed (ground arith) w
  | inr ((s1, session1), run) ↦ elim (Bool-cases (Game.allowed session m)) [
    | inl known ↦ subst IsListed (ground arith) (game_handler-IsListed s session m w run)
    | inr unknown ↦ subst IsListed (ground arith) w
  ]
]

Step-IsListed :
    (to_lower : String → String) {t u : System}
    → Step to_lower t u
    → IsListed t.server
    → IsListed u.server
Step-IsListed to_lower {t = t} (client_packet i m s' session' r e) w =
    client_packet-IsListed to_lower t.server (t.client i) m w e
Step-IsListed to_lower {t = t} (client_close i s' e) w =
    client_close-IsListed t.server (t.client i) w e
Step-IsListed to_lower {t = t} (game_packet i m s' session' r e) w =
    game_packet-IsListed t.server (t.game i) m w e
Step-IsListed to_lower {t = t} (game_close i s' e) w = game_close-IsListed t.server (t.game i) w e
Step-IsListed to_lower {t = t} (game_destroyed i) w = destroy-IsListed t.server (t.game i) w

-- From a server where each listed name leads to a player that is not deleted and has that name, every
-- sequence of packets, closed sockets and destructors of any sessions, in which no handler reads a deleted
-- object, leads to such a server again.
pub Reach-IsListed :
    (to_lower : String → String) {t u : System}
    → Reach to_lower t u
    → IsListed t.server
    → IsListed u.server
Reach-IsListed to_lower here w = w
Reach-IsListed to_lower (next r st) w = Step-IsListed to_lower st (Reach-IsListed to_lower r w)
