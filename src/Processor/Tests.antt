-- ===== src/Processor/Tests.antt =====
-- A queue of three events, one of which adds itself again.
use rzemulator.Base.{
  ℕ, ◌+◌, ◌%◌, ◌^◌, ◌≡◌, Bool, true, false, some, List, [], ◌∷◌, ◌==◌, if◌then◌else◌, arith, inl,
  inr, Bool-cases,
}
use rzemulator.Processor.{Processor, Behaviour, update_events}
use rzemulator.Processor.Due.{update_events_lem, AllLater, IsSorted, due}

-- BasicEvent 7 comes again ten milliseconds later; the world counts the executions.
abbrev once_more : ℕ → ℕ → List (ℕ × ℕ)
once_more e time = if e == 7 then (time + 10, 7) ∷ [] else []

abbrev not_again : ℕ → Bool
not_again e = if e == 7 then false else true

abbrev repeating : Behaviour ℕ
repeating = record {
  execute = λ e time p_time w. record {
    world = w + 1;
    marked = [];
    added = once_more e time;
    deletable = not_again e;
  };
  abort = λ e time w. w;
  is_deletable = λ e w. true;
  free_event = λ e w. w;
}

later : (e time p_time w : ℕ) → AllLater time (repeating.execute e time p_time w).added
later e time p_time w = elim (Bool-cases (e == 7)) [
  | inl again ↦ rw again (omega arith, tt)
  | inr other ↦ rw other tt
]

abbrev waiting : Processor ℕ
waiting = record {
  time = 100;
  events = (103, 7) ∷ (103, 8) ∷ (120, 9) ∷ [];
  aborting = false;
  objects = λ e. record { to_abort = false; add_time = 0; exec_time = 0 };
  world = 0;
}

update_events_lem_example :
    (p' : Processor ℕ) × (update_events repeating 5 10 waiting
      ≡ some (p', due ((100 + 10) % 2 ^ 64) waiting.events))
    × (p'.time ≡ (100 + 10) % 2 ^ 64)
    × AllLater ((100 + 10) % 2 ^ 64) p'.events
    × IsSorted p'.events
update_events_lem_example =
    update_events_lem repeating later 5 10 waiting
      ((omega arith, (omega arith, tt)), ((omega arith, tt), (tt, tt))) (omega arith)
