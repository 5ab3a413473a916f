-- ===== src/Timer/Laws.antt =====
-- The clock difference and the timers of shared/Utilities/Timer.h.
use rzemulator.Base.{
  ℕ, suc, ◌+◌, ◌-◌, ◌*◌, ◌%◌, ◌^◌, ◌<◌, ◌≡◌, ap, ◌/◌, ◌↔◌, inl, inr, refl, true, false, some, ltb,
  if◌then◌else◌, arith, Bool-cases,
}
use native.Mathlib.Omega.{div_fact, mod_fact}
use native.Mathlib.Nat.{mul_comm}
use rzemulator.Base.Int.{pos, ◌-ℤ◌, ◌≤ℤ◌, leb_ℤ, +ℤ_parts, -ℤ_parts}
use rzemulator.Timer.{
  get_ms_time_diff, IntervalTimer, PeriodicTimer, update_periodic, reset_interval, rem,
}

-- Between two readings of the 32 bit clock the difference is the time that went by, but one millisecond less
-- when the clock has wrapped in between.
pub get_ms_time_diff_lem :
    (old elapsed : ℕ)
    → old < 2 ^ 32
    → elapsed < 2 ^ 32
    → get_ms_time_diff old ((old + elapsed) % 2 ^ 32)
      ≡ (if ltb (old + elapsed) (2 ^ 32) then elapsed else elapsed - 1)
unfolding get_ms_time_diff
get_ms_time_diff_lem old elapsed p q = ground arith

-- A periodic timer that has not expired fires exactly when the step takes it to its end, and has not
-- expired afterwards either.
pub periodic_lem :
    (t : PeriodicTimer) (diff : ℕ)
    → pos 1 ≤ℤ t.expire_time
    → (((update_periodic t diff).1 ≡ true) ↔ (t.expire_time ≤ℤ pos diff))
      × (pos 1 ≤ℤ (update_periodic t diff).0.expire_time)
unfolding update_periodic
periodic_lem t diff h = (
  ground (arith, -ℤ_parts t.expire_time (pos diff)),
  ground (
    arith,
    -ℤ_parts t.expire_time (pos diff),
    +ℤ_parts (t.expire_time -ℤ pos diff) t.period,
    +ℤ_parts (t.expire_time -ℤ pos diff) (pos diff),
  ),
)

same : {t : IntervalTimer} {c : ℕ} → t.current ≡ pos c → t ≡ record t { current = pos c }
same {t = t} e = ap (λ x. record t { current = x }) e

-- With a positive interval and a time that is not negative, a reset stays in the interval and keeps the
-- time but for whole intervals.
pub interval_lem :
    (t : IntervalTimer) (n c : ℕ)
    → t.interval ≡ pos (suc n)
    → t.current ≡ pos c
    → (k : ℕ) × (c' : ℕ) × (reset_interval t ≡ some (record t { current = pos c' }))
      × (c ≡ c' + k * suc n)
      × (c' < suc n)
unfolding reset_interval
interval_lem t n c ei ec = elim (Bool-cases (ltb c (suc n))) [
  | inl early ↦
      let wait : leb_ℤ t.interval t.current ≡ false = ground arith in
      (0, c, rw (reset_interval, wait) (ap some (same ec)), omega arith, ground arith)
  | inr late ↦
      let due : leb_ℤ t.interval t.current ≡ true = ground arith in
      let left : rem t.current t.interval ≡ some (pos (c % suc n)) = rw (ei, ec) refl in
      (
        c / suc n,
        c % suc n,
        rw (reset_interval, due, left) refl,
        omega (arith, div_fact c n, mul_comm (c / suc n) (suc n)),
        mod_fact c n,
      )
]
