-- ===== src/Processor/Due.antt =====
-- Which events `EventProcessor::Update` (shared/Utilities/EventProcessor.cpp) takes, and that it ends.
use rzemulator.Base.{
  ℕ, zero, suc, ◌+◌, ◌%◌, ◌^◌, ◌≤◌, ◌<◌, ◌≡◌, refl, ap, sym, subst, ◌∙◌, true, Option, some, List,
  [], ◌∷◌, leb, if◌then◌else◌, length, arith, Bool-cases, inl, inr,
}
use rzemulator.Processor.{
  Processor, Behaviour, insert_event, add_event, add_all, mark, mark_all, run_event, update_loop,
  update_events,
}

-- The events at the front of a queue whose time has come.
abbrev pub due : ℕ → List (ℕ × ℕ) → List ℕ
due time [] = []
due time ((t, e) ∷ events) = let rest = due time events in if leb t time then e ∷ rest else []

abbrev pub AllFrom : ℕ → List (ℕ × ℕ) → Type 0
AllFrom t [] = Unit {0}
AllFrom t ((t', e') ∷ events) = (t ≤ t') × AllFrom t events

abbrev pub IsSorted : List (ℕ × ℕ) → Type 0
IsSorted [] = Unit {0}
IsSorted ((t, e) ∷ events) = AllFrom t events × IsSorted events

-- An event for later does not come before those that are due.
due-insert_later :
    (time t e : ℕ) (events : List (ℕ × ℕ))
    → time < t
    → due time (insert_event t e events) ≡ due time events
unfolding insert_event
due-insert_later time t e [] h = ground arith
due-insert_later time t e ((t', e') ∷ events) h = ground (arith, due-insert_later time t e events)

AllFrom-insert :
    (s t e : ℕ) (events : List (ℕ × ℕ))
    → s ≤ t
    → AllFrom s events
    → AllFrom s (insert_event t e events)
unfolding insert_event
AllFrom-insert s t e [] h a = (h, tt)
AllFrom-insert s t e ((t', e') ∷ events) h (p, a) = elim (Bool-cases (leb t' t)) [
  | inl early ↦ rw early (p, AllFrom-insert s t e events h a)
  | inr late ↦ rw late (h, (p, a))
]

AllFrom-le : (s t : ℕ) (events : List (ℕ × ℕ)) → s ≤ t → AllFrom t events → AllFrom s events
AllFrom-le s t [] h a = tt
AllFrom-le s t ((t', e') ∷ events) h (p, a) = (omega arith, AllFrom-le s t events h a)

pub insert-IsSorted :
    (t e : ℕ) (events : List (ℕ × ℕ)) → IsSorted events → IsSorted (insert_event t e events)
unfolding insert_event
insert-IsSorted t e [] s = (tt, tt)
insert-IsSorted t e ((t', e') ∷ events) (a, s) = elim (Bool-cases (leb t' t)) [
  | inl early ↦
      rw early (AllFrom-insert t' t e events (ground arith) a, insert-IsSorted t e events s)
  | inr late ↦
      let before : t ≤ t' = ground arith in
      rw late ((before, AllFrom-le t t' events before a), (a, s))
]

-- The times of the events that an execution adds are later.
abbrev pub AllLater : ℕ → List (ℕ × ℕ) → Type 0
AllLater time [] = Unit {0}
AllLater time ((t, e) ∷ events) = (time < t) × AllLater time events

later_of_sorted :
    (time t e : ℕ) (events : List (ℕ × ℕ))
    → time < t
    → IsSorted ((t, e) ∷ events)
    → AllLater time ((t, e) ∷ events)
later_of_sorted time t e [] h s = (h, tt)
later_of_sorted time t e ((t', e') ∷ events) h (a, s) =
    (h, later_of_sorted time t' e' events (let p = a.0 in omega arith) s)

module _ {W : Type 0} where
  -- The state after some insertions keeps its clock, its due events and its order.
  record Kept (p q : Processor W) : Type 0 where
    same_time : q.time ≡ p.time
    same_due : due p.time q.events ≡ due p.time p.events
    sorted : IsSorted p.events → IsSorted q.events

  add_event-Kept : (p : Processor W) (e t : ℕ) → p.time < t → Kept p (add_event p e t true)
  unfolding add_event
  add_event-Kept p e t h = record {
    same_time = refl;
    same_due = due-insert_later p.time t e p.events h;
    sorted = insert-IsSorted t e p.events;
  }

  add_all-Kept :
      (p : Processor W) (added : List (ℕ × ℕ)) → AllLater p.time added → Kept p (add_all p added)
  unfolding add_all add_event
  add_all-Kept p [] l = record { same_time = refl; same_due = refl; sorted = λ s. s }
  add_all-Kept p ((t, e) ∷ added) (h, l) =
      let k = add_event-Kept p e t h in
      let r = add_all-Kept (add_event p e t true) added l in
      record {
        same_time = r.same_time;
        same_due = r.same_due ∙ k.same_due;
        sorted = λ s. r.sorted (k.sorted s);
      }

  mark_all-Kept : (p : Processor W) (marked : List ℕ) → Kept p (mark_all p marked)
  unfolding mark_all mark
  mark_all-Kept p [] = record { same_time = refl; same_due = refl; sorted = λ s. s }
  mark_all-Kept p (e ∷ marked) =
      let r = mark_all-Kept (mark p e) marked in
      record { same_time = r.same_time; same_due = r.same_due; sorted = r.sorted }

module _ {W : Type 0} (b : Behaviour W)
    (later : (e time p_time : ℕ) (w : W) → AllLater time (b.execute e time p_time w).added) where
  run-Kept : (p_time : ℕ) (p : Processor W) (e : ℕ) → Kept p (run_event b p_time p e)
  unfolding run_event
  run-Kept p_time p e =
      let effect = b.execute e p.time p_time p.world in
      let p1 = record p { world = effect.world } in
      let m = mark_all-Kept p1 effect.marked in
      let same = m.same_time in
      let a =
        add_all-Kept (mark_all p1 effect.marked) effect.added
          (subst (λ t. AllLater t effect.added) (sym same) (later e p.time p_time p.world)) in
      let due_same =
        subst
          (λ t.
            due t (add_all (mark_all p1 effect.marked) effect.added).events
            ≡ due t (mark_all p1 effect.marked).events)
          same a.same_due in
      elim (Bool-cases (p.objects e).to_abort) [
        | inl stop ↦ rw stop (record { same_time = refl; same_due = refl; sorted = λ s. s })
        | inr go ↦ elim (Bool-cases effect.deletable) [
          | inl gone ↦
              rw (go, gone)
                (record {
                  same_time = a.same_time ∙ same;
                  same_due = due_same ∙ m.same_due;
                  sorted = λ s. a.sorted (m.sorted s);
                })
          | inr stays ↦
              rw (go, stays)
                (record {
                  same_time = a.same_time ∙ same;
                  same_due = due_same ∙ m.same_due;
                  sorted = λ s. a.sorted (m.sorted s);
                })
        ]
      ]

  -- What the loop leaves.
  abbrev Done : ℕ → Option (Processor W × List ℕ) → Processor W → Type 0
  Done time call p =
      (p' : Processor W) × (call ≡ some (p', due time p.events))
      × (p'.time ≡ time)
      × AllLater time p'.events
      × IsSorted p'.events

  loop_lem :
      (fuel p_time : ℕ) (p : Processor W) (events : List (ℕ × ℕ))
      → p.events ≡ events
      → IsSorted events
      → length (due p.time events) < fuel
      → Done p.time (update_loop b fuel p_time p) p
  unfolding update_loop
  loop_lem zero p_time p events e s h = absurd (omega arith)
  loop_lem (suc fuel) p_time p [] e s h = (p, rw (update_loop, e, e) refl, refl, rw e tt, rw e tt)
  loop_lem (suc fuel) p_time p ((t, x) ∷ events) e (a, s) h = elim (Bool-cases (leb t p.time)) [
    | inl now ↦
        let n = run_event b p_time (record p { events = events }) x in
        let k = run-Kept p_time (record p { events = events }) x in
        let same = ap (λ u. due u n.events) k.same_time ∙ k.same_due in
        let fewer : length (due n.time n.events) < fuel =
          let l = ap (length {A = ℕ}) same in ground arith in
        let (p', runs, clock, left, order) =
          loop_lem fuel p_time n n.events refl (k.sorted s) fewer in
        (
          p',
          rw (update_loop, e, now, runs, same) refl,
          clock ∙ k.same_time,
          subst (λ u. AllLater u p'.events) k.same_time left,
          order,
        )
    | inr wait ↦
        let above : p.time < t = ground arith in
        (
          p,
          rw (update_loop, e, wait) (ap (λ es. some (record p { events = es }, [])) e),
          refl,
          rw e (later_of_sorted p.time t x events above (a, s)),
          rw e (a, s),
        )
  ]

  -- If every execution adds events for later than the current time only, and the queue is in the order of its
  -- times, `Update` ends: one round for each event at the front whose time has come, and one more, are enough.
  -- It takes exactly these events, in order, each once; what is left in the queue is for later than the new
  -- time and in order.
  pub update_events_lem :
      (fuel p_time : ℕ) (p : Processor W)
      → IsSorted p.events
      → length (due ((p.time + p_time) % 2 ^ 64) p.events) < fuel
      → (p' : Processor W) × (update_events b fuel p_time p
          ≡ some (p', due ((p.time + p_time) % 2 ^ 64) p.events))
        × (p'.time ≡ (p.time + p_time) % 2 ^ 64)
        × AllLater ((p.time + p_time) % 2 ^ 64) p'.events
        × IsSorted p'.events
  unfolding update_events
  update_events_lem fuel p_time p s h =
      loop_lem fuel p_time (record p { time = (p.time + p_time) % 2 ^ 64 }) p.events refl s h
