-- ===== src/Timer.antt =====
-- shared/Utilities/Timer.h. `uint32_t` values are numbers below 2 ^ 32, `time_t` and `int32_t` values whole
-- numbers that do not wrap. `none` is a remainder by zero.
pub mod Laws
pub mod Tests
use rzemulator.Base.{
  ℕ, zero, suc, ◌+◌, ◌-◌, ◌%◌, ◌^◌, Bool, true, false, not, Option, none, some, ltb, if◌then◌else◌,
}
use rzemulator.Base.Int.{ℤ, pos, negsuc, ◌+ℤ◌, ◌-ℤ◌, ltb_ℤ, leb_ℤ}

pub get_ms_time_diff : ℕ → ℕ → ℕ
get_ms_time_diff old_ms_time new_ms_time =
    if ltb new_ms_time old_ms_time
    then (2 ^ 32 - 1 - old_ms_time) + new_ms_time
    else new_ms_time - old_ms_time

pub record IntervalTimer : Type 0 where
  pub interval : ℤ
  pub current : ℤ

unfoldable update_interval : IntervalTimer → ℤ → IntervalTimer
update_interval t diff =
    let c = t.current +ℤ diff in record t { current = if ltb_ℤ c (pos 0) then pos 0 else c }

unfoldable passed_interval : IntervalTimer → Bool
passed_interval t = leb_ℤ t.interval t.current

-- `%=` of C++; `Update` keeps the dividend from being negative, and no interval is.
abbrev pub rem : ℤ → ℤ → Option ℤ
rem (pos c) (pos (suc n)) = some (pos (c % suc n))
rem c n = none

pub reset_interval : IntervalTimer → Option IntervalTimer
reset_interval t =
    if leb_ℤ t.interval t.current
    then elim (rem t.current t.interval) [ none ↦ none | some c ↦ some (record t { current = c }) ]
    else some t

pub record PeriodicTimer : Type 0 where
  pub period : ℤ
  pub expire_time : ℤ

pub update_periodic : PeriodicTimer → ℕ → PeriodicTimer × Bool
update_periodic t diff =
    let e = t.expire_time -ℤ pos diff in
    let step = if ltb_ℤ (pos diff) t.period then t.period else pos diff in
    if ltb_ℤ (pos 0) e
    then (record t { expire_time = e }, false)
    else (record t { expire_time = e +ℤ step }, true)
