-- ===== src/UnitState/Times.antt =====
-- The times of a state (Chihiro/src/Skills/State.cpp): holding and releasing, adding, expiry.
use rzemulator.Base.{
  ℕ, ◌-◌, ◌^◌, ◌≤◌, ◌<◌, ◌≡◌, ◌≢◌, ◌⊎◌, refl, ap, sym, ◌∙◌, true, false, ◌&&◌, ◌||◌, ltb, ◌==◌,
  if◌then◌else◌, arith, inl, inr,
}
use rzemulator.UnitState.{
  UnitState, all_of, each, plus, minus, minus_one, is_holded, get_remain_duration,
  hold_remain_duration, release_remain_duration, clear_expired_state, is_valid,
}

shift : (e t1 t2 : ℕ) → t1 < 2 ^ 32 → t1 ≤ t2 → plus t2 (minus e t1) ≡ plus e (t2 - t1)
shift e t1 t2 p q = omega arith

some_left : (e t1 : ℕ) → t1 < 2 ^ 32 → e < 2 ^ 32 → e ≢ t1 → 0 < minus e t1
some_left e t1 p r d = ground arith

abbrev held : UnitState → ℕ → UnitState
held s t1 = record s {
  remain_duration = each (λ e. minus e t1) s.end_time;
  end_time = all_of minus_one;
  aura = true;
}

held-is_holded :
    (s : UnitState) (t1 : ℕ)
    → (0 < minus s.end_time.first t1) ⊎ (0 < minus s.end_time.second t1)
    → is_holded (held s t1) ≡ true
unfolding is_holded get_remain_duration
held-is_holded s t1 d = ground arith

different :
    (s : UnitState) (t1 : ℕ)
    → t1 < 2 ^ 32
    → s.end_time.first < 2 ^ 32
    → s.end_time.second < 2 ^ 32
    → (s.end_time.first ≢ t1) ⊎ (s.end_time.second ≢ t1)
    → (0 < minus s.end_time.first t1) ⊎ (0 < minus s.end_time.second t1)
different s t1 p u v (inl d) = inl (some_left s.end_time.first t1 p u d)
different s t1 p u v (inr d) = inr (some_left s.end_time.second t1 p v d)

-- Holding a state and releasing it later moves its end times by the time in between, as numbers of 32 bits, and
-- changes nothing else. The state is not held and no aura, all remaining times are 0, and of the first two
-- end times one is not the time of the hold.
pub hold-release :
    (s : UnitState) (t1 t2 : ℕ)
    → is_holded s ≡ false
    → s.aura ≡ false
    → s.remain_duration ≡ all_of 0
    → (s.end_time.first ≢ t1) ⊎ (s.end_time.second ≢ t1)
    → s.end_time.first < 2 ^ 32
    → s.end_time.second < 2 ^ 32
    → t1 < 2 ^ 32
    → t1 ≤ t2
    → release_remain_duration t2 (hold_remain_duration t1 s)
      ≡ record s { end_time = each (λ e. plus e (t2 - t1)) s.end_time }
unfolding hold_remain_duration release_remain_duration
hold-release s t1 t2 h a z d u v p q =
    let now : hold_remain_duration t1 s ≡ held s t1 = rw (hold_remain_duration, h, a) refl in
    let still = held-is_holded s t1 (different s t1 p u v d) in
    let first = shift s.end_time.first t1 t2 p q in
    let second = shift s.end_time.second t1 t2 p q in
    let third = shift s.end_time.third t1 t2 p q in
    let no_rest = sym z in
    let no_aura = sym a in
    ap (release_remain_duration t2) now
    ∙ rw still (λ i. record s {
      end_time = record { first = first i; second = second i; third = third i };
      remain_duration = no_rest i;
      aura = no_aura i;
    })

-- Clearing the expired kinds at a time sets the levels of those of the first two kinds to 0 that end before it, and the
-- level of the third if that one ends before it or the first two are 0 afterwards; other levels stay, and
-- whether the state is valid at that time does not change.
pub clear_lem :
    (s : UnitState) (t : ℕ)
    → (is_valid t (clear_expired_state t s).0 ≡ is_valid t s)
      × ((clear_expired_state t s).0.level.first
          ≡ (if ltb s.end_time.first t then 0 else s.level.first))
      × ((clear_expired_state t s).0.level.second
          ≡ (if ltb s.end_time.second t then 0 else s.level.second))
      × ((clear_expired_state t s).0.level.third ≡ (
          if ltb s.end_time.third t
            || ((clear_expired_state t s).0.level.first == 0
                && (clear_expired_state t s).0.level.second == 0)
          then 0
          else s.level.third))
unfolding clear_expired_state is_valid
clear_lem s t = (ground arith, ground arith, ground arith, ground arith)
