-- ===== src/Processor.antt =====
-- shared/Utilities/EventProcessor.cpp and EventProcessor.h. An event is a number, what lies behind its pointer is
-- `objects`, and the multimap is a list in the order of its keys. What the events do is an argument: they may
-- change the world, set `to_Abort` of events and call AddEvent, in the order of the lists that they hand back.
-- An uint64_t sum wraps; the time that AddEvent is called with is an uint64_t already. `none` is a loop that is out of fuel.
pub mod Due
pub mod Tests
use rzemulator.Base.{
  ◌>>=◌, ℕ, zero, suc, ◌+◌, ◌%◌, ◌^◌, Bool, true, false, not, ◌||◌, Option, none, some, List, [],
  ◌∷◌, ◌==◌, leb, if◌then◌else◌,
}

-- `BasicEvent`.
pub record BasicEvent : Type 0 where
  pub to_abort : Bool
  pub add_time : ℕ
  pub exec_time : ℕ

-- `EventProcessor`, with the objects and the world around it.
pub record Processor (W : Type 0) : Type 0 where
  pub time : ℕ
  pub events : List (ℕ × ℕ)
  pub aborting : Bool
  pub objects : ℕ → BasicEvent
  pub world : W

-- What an execution has done: the events that it marked and those that it added, with their times, and what it
-- returns.
pub record Effect (W : Type 0) : Type 0 where
  pub world : W
  pub marked : List ℕ
  pub added : List (ℕ × ℕ)
  pub deletable : Bool

-- `Execute`, `Abort`, `IsDeletable` and the destructor of the events.
pub record Behaviour (W : Type 0) : Type 0 where
  pub execute : ℕ → ℕ → ℕ → W → Effect W
  pub abort : ℕ → ℕ → W → W
  pub is_deletable : ℕ → W → Bool
  pub free_event : ℕ → W → W

-- `std::multimap::insert`: behind the entries with the same key.
pub insert_event : ℕ → ℕ → List (ℕ × ℕ) → List (ℕ × ℕ)
insert_event t e [] = (t, e) ∷ []
insert_event t e ((t', e') ∷ events) =
    if leb t' t then (t', e') ∷ insert_event t e events else (t, e) ∷ (t', e') ∷ events

pub set_object : (ℕ → BasicEvent) → ℕ → BasicEvent → ℕ → BasicEvent
set_object objects e o e' = if e' == e then o else objects e'

module _ {W : Type 0} where
  pub add_event : Processor W → ℕ → ℕ → Bool → Processor W
  add_event p e e_time set_addtime =
      let o = p.objects e in
      let added = if set_addtime then p.time else o.add_time in
      record p {
        objects = set_object p.objects e (record o { add_time = added; exec_time = e_time });
        events = insert_event e_time e p.events;
      }

  pub add_all : Processor W → List (ℕ × ℕ) → Processor W
  add_all p [] = p
  add_all p ((t, e) ∷ added) = add_all (add_event p e t true) added

  pub mark : Processor W → ℕ → Processor W
  mark p e = record p {
    objects = set_object p.objects e (record (p.objects e) { to_abort = true });
  }

  pub mark_all : Processor W → List ℕ → Processor W
  mark_all p [] = p
  mark_all p (e ∷ marked) = mark_all (mark p e) marked

  unfoldable calculate_time : Processor W → ℕ → ℕ
  calculate_time p t_offset = (p.time + t_offset) % 2 ^ 64

module _ {W : Type 0} (b : Behaviour W) where
  -- The body of the loop, for an event that has been taken from the queue.
  pub run_event : ℕ → Processor W → ℕ → Processor W
  run_event p_time p e =
      let effect = b.execute e p.time p_time p.world in
      let after =
        add_all (mark_all (record p { world = effect.world }) effect.marked) effect.added in
      if not (p.objects e).to_abort
      then (if effect.deletable then record after { world = b.free_event e after.world } else after)
      else record p { world = b.free_event e (b.abort e p.time p.world) }

  -- The loop of `Update`, with the events that it has taken from the queue, in order.
  pub update_loop : ℕ → ℕ → Processor W → Option (Processor W × List ℕ)
  update_loop zero p_time p = none
  update_loop (suc fuel) p_time p = elim p.events [
    | [] ↦ some (p, [])
    | x ∷ events ↦ elim (leb x.0 p.time) [
      | true ↦ (do
        (p', taken) ← update_loop fuel p_time (run_event p_time (record p { events = events }) x.1)
        some (p', x.1 ∷ taken))
      | false ↦ some (p, [])
    ]
  ]

  pub update_events : ℕ → ℕ → Processor W → Option (Processor W × List ℕ)
  update_events fuel p_time p =
      update_loop fuel p_time (record p { time = (p.time + p_time) % 2 ^ 64 })

  -- The loop of `KillAllEvents`, over the entries of the queue: the events that stay.
  kill_loop : Bool → List (ℕ × ℕ) → Processor W → Processor W × List (ℕ × ℕ)
  kill_loop force [] p = (p, [])
  kill_loop force ((t, e) ∷ events) p =
      let marked = mark p e in
      let told = record marked { world = b.abort e p.time p.world } in
      let gone = force || b.is_deletable e told.world in
      let next = if gone then record told { world = b.free_event e told.world } else told in
      let (p', kept) = kill_loop force events next in (p', if gone then kept else (t, e) ∷ kept)

  unfoldable kill_all_events : Bool → Processor W → Processor W
  unfolding kill_loop
  kill_all_events force p =
      let (p', kept) = kill_loop force p.events (record p { aborting = true }) in
      record p' { events = if force then [] else kept }
