-- ===== src/Auth/Closing.antt =====
-- `OnClose` of Mononoke/src/Server/AuthGame/AuthGameSession.cpp: its loop over the players, and the refused
-- registration that runs it.
use rzemulator.Base.{
  ℕ, ◌≡◌, ◌≢◌, refl, subst, sym, ap, ◌∙◌, true, false, none, some, List, [], ◌∷◌, arith, Bool-cases,
  Option-cases, ◌⊎◌, inl, inr,
}
use rzemulator.Base.Int.{pos, eqb_ℤ}
use rzemulator.Base.Assoc.{nat_eq, string_eq, lookup, lookup-erase}
use rzemulator.Auth.{
  Packet, ResultCode, Server, GameSession, player_of, send, get_player, get_game, add_game,
  remove_game,
}
use rzemulator.Auth.Game
use rzemulator.Auth.Game.{
  GameLogin, fill_game, close_loop, filled, refused, unauthed, register_game, register_own,
  handle_game_login,
}
use rzemulator.Auth.Listed.{IsListed, send-IsListed}
use text.Mathlib.Text.{◌==◌ as str_eq}
use text.Mathlib.TextEquality.{eq_iff}
use Prim.Native.String.{String}

-- A player of the list is on the game.
abbrev pub IsPlayed : ℕ → Server → Type 0
IsPlayed idx s =
    (name : String) × (p : ℕ) × (get_player name s ≡ some p) × ((s.player_at p).game_idx ≡ pos idx)

abbrev NoneOf : ℕ → List (String × ℕ) → Server → Type 0
NoneOf idx entries s =
    (name : String) (p q : ℕ)
    → lookup name entries ≡ some q
    → get_player name s ≡ some p
    → (s.player_at p).game_idx ≢ pos idx

abbrev Ends : ℕ → List (String × ℕ) → Server → Type 0
Ends idx entries s =
    ((close_loop idx entries s ≡ none) × IsPlayed idx s)
    ⊎ ((close_loop idx entries s ≡ some s) × NoneOf idx entries s)

-- One turn, at an entry whose player is on another game or on this one.
close_loop_past :
    (idx : ℕ) (name : String) (q p : ℕ) (rest : List (String × ℕ)) (s : Server)
    → IsListed s
    → get_player name s ≡ some p
    → eqb_ℤ (s.player_at p).game_idx (pos idx) ≡ false
    → close_loop idx ((name, q) ∷ rest) s ≡ close_loop idx rest s
unfolding close_loop player_of
close_loop_past idx name q p rest s w listed other =
    let (lives, named, below) = w.entry name p listed in rw (close_loop, listed, lives, other) refl

close_loop_hit :
    (idx : ℕ) (name : String) (q p : ℕ) (rest : List (String × ℕ)) (s : Server)
    → IsListed s
    → get_player name s ≡ some p
    → eqb_ℤ (s.player_at p).game_idx (pos idx) ≡ true
    → close_loop idx ((name, q) ∷ rest) s ≡ none
unfolding close_loop player_of
close_loop_hit idx name q p rest s w listed this =
    let (lives, named, below) = w.entry name p listed in
    let same : str_eq (s.player_at p).login_name name ≡ true =
      ground (arith, eq_iff (s.player_at p).login_name name, named) in
    rw (close_loop, listed, lives, this, same) refl

same_player :
    (name other : String) (s : Server) (p p' : ℕ)
    → name ≡ other
    → get_player name s ≡ some p
    → get_player other s ≡ some p'
    → p ≡ p'
same_player name other s p p' e f g = cc (e, f, g)

same_game :
    (idx : ℕ) (s : Server) (p : ℕ)
    → eqb_ℤ (s.player_at p).game_idx (pos idx) ≡ true
    → (s.player_at p).game_idx ≡ pos idx
same_game idx s p e = ground arith

close_loop_erased :
    (idx : ℕ) (name : String) (q : ℕ) (rest : List (String × ℕ)) (s : Server)
    → get_player name s ≡ none
    → close_loop idx ((name, q) ∷ rest) s ≡ close_loop idx rest s
unfolding close_loop
close_loop_erased idx name q rest s erased = rw (close_loop, erased) refl

NoneOf-cons :
    (idx : ℕ) (name : String) (q : ℕ) (rest : List (String × ℕ)) (s : Server)
    → NoneOf idx rest s
    → ((p : ℕ) → get_player name s ≡ some p → (s.player_at p).game_idx ≢ pos idx)
    → NoneOf idx ((name, q) ∷ rest) s
unfolding lookup
NoneOf-cons idx name q rest s later here n p q' among listed = elim (Bool-cases (str_eq name n)) [
  | inl same ↦ here p (subst (λ m. get_player m s ≡ some p) (sym ((eq_iff name n).0 same)) listed)
  | inr other ↦ later n p q' (ground (arith, among, other)) listed
]

eqb_refl : (idx : ℕ) → eqb_ℤ (pos idx) (pos idx) ≡ true
eqb_refl idx = ground arith

other_game :
    (idx : ℕ) (s : Server) (p p' : ℕ)
    → eqb_ℤ (s.player_at p).game_idx (pos idx) ≡ false
    → p ≡ p'
    → (s.player_at p').game_idx ≢ pos idx
other_game idx s p p' other e on = absurd (cc (other, ap s.player_at e, on, eqb_refl idx))

close_loop-Ends :
    (idx : ℕ) (entries : List (String × ℕ)) (s : Server) → IsListed s → Ends idx entries s
unfolding lookup
close_loop-Ends idx [] s w = inr (unfold close_loop in refl, λ name p q e. cc)
close_loop-Ends idx ((name, q) ∷ rest) s w = elim (Option-cases (get_player name s)) [
  | inl erased ↦ elim (close_loop-Ends idx rest s w) [
    | inl (fault, played) ↦ inl (close_loop_erased idx name q rest s erased ∙ fault, played)
    | inr (ends, later) ↦ inr (
      close_loop_erased idx name q rest s erased ∙ ends,
      NoneOf-cons idx name q rest s later (λ p listed. absurd (cc (erased, listed))),
    )
  ]
  | inr (p, listed) ↦ elim (Bool-cases (eqb_ℤ (s.player_at p).game_idx (pos idx))) [
    | inl this ↦ inl (
      close_loop_hit idx name q p rest s w listed this,
      (name, p, listed, same_game idx s p this),
    )
    | inr other ↦ elim (close_loop-Ends idx rest s w) [
      | inl (fault, played) ↦
          inl (close_loop_past idx name q p rest s w listed other ∙ fault, played)
      | inr (ends, later) ↦ inr (
        close_loop_past idx name q p rest s w listed other ∙ ends,
        NoneOf-cons idx name q rest s later
            (λ p' found on. other_game idx s p p' other (cc (listed, found)) on),
      )
    ]
  ]
]

-- Where each listed name leads to a player that is not deleted and has that name, and the index of a session's game
-- leads to a game of the same name, the socket of the session closes in one of two ways: the loop reads an entry that
-- it has erased, and a listed player is on that game; or the game alone is taken from the list of games, and no
-- listed player is on it.
pub game_close_lem :
    (s : Server) (session : GameSession) (own g : ℕ)
    → IsListed s
    → session.game ≡ some own
    → get_game (s.game_at own).server_idx s ≡ some g
    → (s.game_at g).server_name ≡ (s.game_at own).server_name
    → ((Game.on_close s session ≡ none) × IsPlayed (s.game_at g).server_idx s)
      ⊎ ((Game.on_close s session ≡ some (remove_game (s.game_at g).server_idx s))
          × ((name : String) (p : ℕ)
              → get_player name s ≡ some p
              → (s.player_at p).game_idx ≢ pos (s.game_at g).server_idx))
unfolding Game.on_close
game_close_lem s session own g w mine registered same =
    let equal : str_eq (s.game_at g).server_name (s.game_at own).server_name ≡ true =
      (eq_iff (s.game_at g).server_name (s.game_at own).server_name).1 same in
    elim (close_loop-Ends (s.game_at g).server_idx s.players s w) [
      | inl (fault, played) ↦ inl (rw (Game.on_close, mine, registered, equal, fault) refl, played)
      | inr (ends, nobody) ↦ inr (
        rw (Game.on_close, mine, registered, equal, ends) refl,
        λ name p listed. nobody name p p (unfold get_player in listed) listed,
      )
    ]

remove_game-IsListed : (idx : ℕ) (s : Server) → IsListed s → IsListed (remove_game idx s)
unfolding remove_game get_player
remove_game-IsListed idx s w = record { entry = λ n q e. w.entry n q e }

-- `OnClose` faults, or keeps the list of players.
on_close_cases :
    (s : Server) (session : GameSession)
    → IsListed s
    → (Game.on_close s session ≡ none)
      ⊎ ((s' : Server) × (Game.on_close s session ≡ some s') × IsListed s')
unfolding Game.on_close
on_close_cases s session w = elim (Option-cases session.game) [
  | inl nothing ↦ inr (s, rw (Game.on_close, nothing) refl, w)
  | inr (own, mine) ↦ elim (Option-cases (get_game (s.game_at own).server_idx s)) [
    | inl unknown ↦ inr (s, rw (Game.on_close, mine, unknown) refl, w)
    | inr (g, found) ↦
        elim (Bool-cases (str_eq (s.game_at g).server_name (s.game_at own).server_name)) [
          | inr other ↦ inr (s, rw (Game.on_close, mine, found, other) refl, w)
          | inl equal ↦
              elim (game_close_lem s session own g w mine found
                ((eq_iff (s.game_at g).server_name (s.game_at own).server_name).0 equal)) [
                  | inl (fault, played) ↦ inl fault
                  | inr (ends, nobody) ↦
                      let idx = (s.game_at g).server_idx in
                      inr (remove_game idx s, ends, remove_game-IsListed idx s w)
                ]
        ]
  ]
]

pub game_close-IsListed :
    (s : Server) (session : GameSession) {s' : Server}
    → IsListed s
    → Game.on_close s session ≡ some s'
    → IsListed s'
game_close-IsListed s session w e = elim (on_close_cases s session w) [
  | inl fault ↦ absurd (cc (fault, e))
  | inr (s1, run, w1) ↦ subst IsListed (cc (run, e)) w1
]

filled-IsListed :
    (s : Server) (g : ℕ) (session : GameSession) (m : GameLogin)
    → IsListed s
    → IsListed (filled s g session m)
unfolding get_player
filled-IsListed s g session m w = record { entry = λ n q e. w.entry n q e }

refused-IsListed : (s : Server) (session : GameSession) → IsListed s → IsListed (refused s session)
refused-IsListed s session w =
    send-IsListed (Packet.close_socket session.id)
      (send (Packet.ag_login_result session.id ResultCode.access_denied) s)
      (send-IsListed (Packet.ag_login_result session.id ResultCode.access_denied) s w)

add_game-IsListed : (g : ℕ) (s : Server) → IsListed s → IsListed (add_game g s)
unfolding add_game get_player
add_game-IsListed g s w = record { entry = λ n q e. w.entry n q e }

-- The registration of an index that is free, or taken.
register_free :
    (s : Server) (session : GameSession) (g idx : ℕ)
    → get_game idx s ≡ none
    → register_game s session g idx
      ≡ some (
        send (Packet.ag_login_result session.id ResultCode.success) (add_game g s),
        record session { is_authed = true },
      )
unfolding register_game
register_free s session g idx free = rw (register_game, free) refl

register_taken :
    (s s' : Server) (session : GameSession) (g idx other : ℕ)
    → get_game idx s ≡ some other
    → Game.on_close (refused s session) (unauthed session) ≡ some s'
    → register_game s session g idx ≡ some (s', unauthed session)
unfolding register_game
register_taken s s' session g idx other taken closed = rw (register_game, taken, closed) refl

register_faults :
    (s : Server) (session : GameSession) (g idx other : ℕ)
    → get_game idx s ≡ some other
    → Game.on_close (refused s session) (unauthed session) ≡ none
    → register_game s session g idx ≡ none
unfolding register_game
register_faults s session g idx other taken closed = rw (register_game, taken, closed) refl

register_game-IsListed :
    (s : Server) (session : GameSession) (g idx : ℕ) {s' : Server} {session' : GameSession}
    → IsListed s
    → register_game s session g idx ≡ some (s', session')
    → IsListed s'
register_game-IsListed s session g idx w e = elim (Option-cases (get_game idx s)) [
  | inl free ↦ subst IsListed (cc (register_free s session g idx free, e)) (
      send-IsListed (Packet.ag_login_result session.id ResultCode.success) (add_game g s)
        (add_game-IsListed g s w))
  | inr (other, taken) ↦
      elim (on_close_cases (refused s session) (unauthed session) (refused-IsListed s session w)) [
        | inl fault ↦ absurd (cc (register_faults s session g idx other taken fault, e))
        | inr (s1, run, w1) ↦
            subst IsListed (cc (register_taken s s1 session g idx other taken run, e)) w1
      ]
]

handle_game_login_runs :
    (s : Server) (session : GameSession) (m : GameLogin) (g : ℕ)
    → session.game ≡ some g
    → handle_game_login s session m ≡ register_game (filled s g session m) session g m.server_idx
unfolding handle_game_login
handle_game_login_runs s session m g mine = ap (register_own s session m) mine

no_game :
    (s : Server) (session : GameSession) (m : GameLogin)
    → session.game ≡ none
    → handle_game_login s session m ≡ none
unfolding handle_game_login
no_game s session m e = ap (register_own s session m) e

pub handle_game_login-IsListed :
    (s : Server) (session : GameSession) (m : GameLogin) {s' : Server} {session' : GameSession}
    → IsListed s
    → handle_game_login s session m ≡ some (s', session')
    → IsListed s'
handle_game_login-IsListed s session m w e = elim (Option-cases session.game) [
  | inl nothing ↦ absurd (cc (no_game s session m nothing, e))
  | inr (g, mine) ↦
      register_game-IsListed (filled s g session m) session g m.server_idx
        (filled-IsListed s g session m w) (sym (handle_game_login_runs s session m g mine) ∙ e)
]

-- A refusal keeps the lists, and all games but the refused one.
refused_keeps :
    (s : Server) (session : GameSession) (m : GameLogin) (g other : ℕ)
    → other ≢ g
    → let s1 = refused (filled s g session m) session in
      ((idx : ℕ) → get_game idx s1 ≡ get_game idx s)
      × (s1.game_at g ≡ fill_game session.id m)
      × (s1.game_at other ≡ s.game_at other)
      × ((name : String) → get_player name s1 ≡ get_player name s)
      × (s1.player_at ≡ s.player_at)
unfolding send get_game get_player
refused_keeps s session m g other apart =
    (λ idx. refl, ground arith, ground arith, λ name. refl, refl)

filled_games :
    (s : Server) (g : ℕ) (session : GameSession) (m : GameLogin) (idx : ℕ)
    → get_game idx (filled s g session m) ≡ get_game idx s
unfolding get_game
filled_games s g session m idx = refl

get_game-remove : (idx : ℕ) (s : Server) → get_game idx (remove_game idx s) ≡ none
unfolding get_game remove_game
get_game-remove idx s = ground (arith, lookup-erase idx idx s.games)

-- If each listed name leads to a player that is not deleted and has that name, and a game server registers under the
-- index and the name of another game, which is in the list and on which no listed player is, then the registration is
-- refused, and the other game is taken from the list.
pub second_game_removes :
    (s : Server) (session : GameSession) (m : GameLogin) (g other : ℕ)
    → IsListed s
    → session.game ≡ some g
    → other ≢ g
    → get_game m.server_idx s ≡ some other
    → (s.game_at other).server_idx ≡ m.server_idx
    → (s.game_at other).server_name ≡ m.server_name
    → ((name : String) (p : ℕ)
        → get_player name s ≡ some p
        → (s.player_at p).game_idx ≢ pos m.server_idx)
    → (s' : Server) × (handle_game_login s session m ≡ some (s', unauthed session))
      × (get_game m.server_idx s' ≡ none)
unfolding fill_game
second_game_removes s session m g other w mine apart taken idx name nobody =
    let s1 = refused (filled s g session m) session in
    let (games, own_at, other_at, players, player_at) = refused_keeps s session m g other apart in
    let own_idx : (s1.game_at g).server_idx ≡ m.server_idx = ap (λ i. i.server_idx) own_at in
    let other_idx : (s1.game_at other).server_idx ≡ m.server_idx =
      ap (λ i. i.server_idx) other_at ∙ idx in
    let w1 = refused-IsListed (filled s g session m) session (filled-IsListed s g session m w) in
    let found : get_game (s1.game_at g).server_idx s1 ≡ some other =
      rw own_idx (games m.server_idx ∙ taken) in
    let same : (s1.game_at other).server_name ≡ (s1.game_at g).server_name =
      ap (λ i. i.server_name) other_at ∙ name ∙ sym (ap (λ i. i.server_name) own_at) in
    elim (game_close_lem s1 (unauthed session) g other w1 mine found same) [
      | inl (fault, (n, p, listed, on)) ↦ absurd (
          nobody n p (sym (players n) ∙ listed)
            (sym (ap (λ f. (f p).game_idx) player_at) ∙ on ∙ ap pos other_idx))
      | inr (ends, rest) ↦ (
        remove_game m.server_idx s1,
        handle_game_login_runs s session m g mine
            ∙ register_taken (filled s g session m) (remove_game m.server_idx s1) session g
                m.server_idx other (filled_games s g session m m.server_idx ∙ taken)
                (ends ∙ ap (λ i. some (remove_game i s1)) other_idx),
        get_game-remove m.server_idx s1,
      )
    ]
