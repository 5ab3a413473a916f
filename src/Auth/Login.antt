-- ===== src/Auth/Login.antt =====
-- A login: what `HandleLoginPacket` does to the list of players.
use rzemulator.Base.{
  ℕ, ◌<◌, ◌≡◌, ◌≢◌, refl, ap, ◌∙◌, true, false, none, some, arith, Option-cases, inl, inr,
}
use rzemulator.Base.Assoc.{string_eq, lookup-insert, lookup-erase}
use rzemulator.Auth.{
  Player, ResultCode, Packet, Server, ClientSession, player_of, send, delete_player, add_player,
  remove_player, get_player,
}
use rzemulator.Auth.Client.{
  AccountRow, new_player, alloc_player, kick_if_in_game, drop_old_player, log_in, handle_login,
}
use text.Mathlib.TextEquality.{eq_iff}
use Prim.Native.String.{String}
use rzemulator.Auth.Listed.{IsListed, alloc-IsListed, add-IsListed, send-IsListed}

-- What the branch on an old player leaves: the list without that name, and every other player alive.
pub record IsDropped (name : String) (keep : ℕ) (s s' : Server) : Type 0 where
  pub listed : IsListed s'
  pub gone : get_player name s' ≡ none
  pub others : (other : String) → other ≢ name → get_player other s' ≡ get_player other s
  pub same_players : s'.player_at ≡ s.player_at
  pub same_next : s'.next_player ≡ s.next_player
  pub kept : s'.alive keep ≡ s.alive keep
  pub dead : (o : ℕ) → get_player name s ≡ some o → s'.alive o ≡ false

kick_frame :
    (old : Player) (s : Server)
    → ((kick_if_in_game old s).players ≡ s.players)
      × ((kick_if_in_game old s).player_at ≡ s.player_at)
      × ((kick_if_in_game old s).alive ≡ s.alive)
      × ((kick_if_in_game old s).next_player ≡ s.next_player)
unfolding kick_if_in_game send
kick_frame old s = ground arith

module _ (sid request : ℕ) (name : String) (keep : ℕ) (s : Server) (w : IsListed s) where
  abbrev dropped : ℕ → Server
  dropped o = delete_player o (
      remove_player (s.player_at o).login_name (
        send (Packet.ac_result sid request ResultCode.already_exist 0)
          (kick_if_in_game (s.player_at o) s)))

  dropped-IsDropped :
      (o : ℕ) → get_player name s ≡ some o → o ≢ keep → IsDropped name keep s (dropped o)
  unfolding delete_player remove_player get_player send
  dropped-IsDropped o e ne =
      let frame = kick_frame (s.player_at o) s in
      let named : (s.player_at o).login_name ≡ name = (w.entry name o e).1 in
      let after = λ (n : String). lookup-erase (s.player_at o).login_name n s.players in
      record {
        listed = record {
          entry = λ n q eq.
              ground (arith, frame, named, after n, w.entry n q, w.entry name o e, eq_iff name n);
        };
        gone = ground (arith, frame, named, after name, eq_iff name name);
        others = λ n q. ground (arith, frame, named, after n, eq_iff name n);
        same_players = frame.1;
        same_next = frame.3;
        kept = ground (arith, frame);
        dead = λ o' q. ground (arith, frame, q, e);
      }

  drop_old_player_lem :
      get_player name s ≢ some keep
      → (s' : Server) × (drop_old_player sid request (get_player name s) s ≡ some s')
        × IsDropped name keep s s'
  unfolding drop_old_player
  drop_old_player_lem fresh = elim (Option-cases (get_player name s)) [
    | inl e ↦ (
      s,
      rw e,
      record {
        listed = w;
        gone = e;
        others = λ other ne. refl;
        same_players = refl;
        same_next = refl;
        kept = refl;
        dead = λ o q. absurd (ground arith);
      },
    )
    | inr (o, e) ↦
        let live : player_of s o ≡ some (s.player_at o) =
          unfold player_of in rw ((w.entry name o e).0) in
        (dropped o, rw (e, live), dropped-IsDropped o e (λ same. fresh (rw e (rw same))))
  ]

log_in_lem :
    (s : Server) (session : ClientSession) (p request : ℕ)
    → IsListed s
    → s.alive p ≡ true
    → p < s.next_player
    → (s.player_at p).is_blocked ≡ false
    → get_player (s.player_at p).login_name s ≢ some p
    → let name = (s.player_at p).login_name in
      (s' : Server) × (log_in s session p request
        ≡ some (s', record session { player = some p; is_authed = true }))
      × IsListed s'
      × (get_player name s' ≡ some p)
      × (s'.player_at ≡ s.player_at)
      × ((other : String) → other ≢ name → get_player other s' ≡ get_player other s)
      × ((o : ℕ) → get_player name s ≡ some o → s'.alive o ≡ false)
unfolding log_in
log_in_lem s session p request w live below open_account fresh =
    let name = (s.player_at p).login_name in
    let (s1, e1, d) = drop_old_player_lem session.id request name p s w fresh in
    let s2 = add_player p s1 in
    let me : player_of s p ≡ some (s.player_at p) = unfold player_of in rw live in
    let listed : IsListed s2 = add-IsListed p s1 d.listed (d.kept ∙ live) (rw d.same_next below) in
    (
      send (Packet.ac_result session.id request ResultCode.success 1) s2,
      rw (me, open_account, e1),
      send-IsListed _ s2 listed,
      unfold send in
          (unfold get_player add_player in
            ground (
              arith,
              lookup-insert (s1.player_at p).login_name name p s1.players,
              d.same_players,
              eq_iff name name,
            )),
      unfold send add_player in d.same_players,
      λ other ne.
          unfold send in
          (unfold get_player add_player in
            ground (
              arith,
              lookup-insert (s1.player_at p).login_name other p s1.players,
              d.same_players,
              eq_iff name other,
              d.others other ne,
            )),
      λ o e. unfold send add_player in d.dead o e,
    )

-- Where each listed name leads to a live player of that name, a login with a row that is not blocked
-- reads no deleted player. It keeps the list so, lists a new player made from the row under the row's
-- name, leaves every other name as it was, deletes the player who was listed under the name, and
-- authenticates the session.
pub handle_login_lem :
    (to_lower : String → String) (s : Server) (session : ClientSession) (request : ℕ)
    (row : AccountRow)
    → IsListed s
    → row.is_blocked ≡ false
    → let name = to_lower row.login_name in
      (s' : Server) × (handle_login to_lower s session request (some row)
        ≡ some (s', record session { player = some s.next_player; is_authed = true }))
      × IsListed s'
      × (get_player name s' ≡ some s.next_player)
      × ((s'.player_at s.next_player) ≡ new_player to_lower row)
      × ((other : String) → other ≢ name → get_player other s' ≡ get_player other s)
      × ((o : ℕ) → get_player name s ≡ some o → s'.alive o ≡ false)
unfolding handle_login
handle_login_lem to_lower s session request row w open_account =
    let name = to_lower row.login_name in
    let s0 = alloc_player (new_player to_lower row) s in
    let me : s0.player_at s.next_player ≡ new_player to_lower row =
      unfold alloc_player in ground arith in
    let named : (s0.player_at s.next_player).login_name ≡ name = unfold new_player in rw me refl in
    let fresh : get_player (s0.player_at s.next_player).login_name s0 ≢ some s.next_player =
      unfold alloc_player get_player in
      λ e. absurd (ground (arith, w.entry (s0.player_at s.next_player).login_name s.next_player)) in
    let (s', run, listed, mine, players, others, dead) =
      log_in_lem s0 session s.next_player request (alloc-IsListed (new_player to_lower row) s w)
        (unfold alloc_player in ground arith) (unfold alloc_player in omega arith)
        (unfold new_player in rw me open_account) fresh in
    (
      s',
      run,
      listed,
      rw named at mine,
      ap (λ f. f s.next_player) players ∙ me,
      λ other ne. others other (λ e. ne (e ∙ named)) ∙ (unfold alloc_player get_player in refl),
      λ o e. dead o (rw named (unfold alloc_player get_player in (unfold get_player in e))),
    )
