-- ===== src/Timer/Tests.antt =====
-- A clock that wraps, and two timers.
use rzemulator.Base.{
  ℕ, suc, ◌+◌, ◌*◌, ◌-◌, ◌%◌, ◌^◌, ◌<◌, ◌≡◌, ◌↔◌, refl, true, some, ltb, if◌then◌else◌, arith,
}
use rzemulator.Base.Int.{pos, ◌≤ℤ◌}
use rzemulator.Timer.{
  get_ms_time_diff, IntervalTimer, PeriodicTimer, update_periodic, reset_interval,
}
use rzemulator.Timer.Laws.{get_ms_time_diff_lem, periodic_lem, interval_lem}

-- Ten milliseconds around the wrap are counted as nine.
get_ms_time_diff_lem_run :
    get_ms_time_diff 4294967290 ((4294967290 + 10) % 2 ^ 32)
    ≡ (if ltb (4294967290 + 10) (2 ^ 32) then 10 else 10 - 1)
get_ms_time_diff_lem_run = get_ms_time_diff_lem 4294967290 10 (omega arith) (omega arith)

abbrev each_second : PeriodicTimer
each_second = record { period = pos 1000; expire_time = pos 300 }

periodic_lem_run :
    (((update_periodic each_second 400).1 ≡ true) ↔ (pos 300 ≤ℤ pos 400))
    × (pos 1 ≤ℤ (update_periodic each_second 400).0.expire_time)
periodic_lem_run = periodic_lem each_second 400 (omega arith)

abbrev passed_twice : IntervalTimer
passed_twice = record { interval = pos 50; current = pos 120 }

interval_lem_run :
    (k : ℕ) × (c' : ℕ) × (reset_interval passed_twice
      ≡ some (record passed_twice { current = pos c' }))
    × (120 ≡ c' + k * suc 49)
    × (c' < suc 49)
interval_lem_run = interval_lem passed_twice 49 120 refl refl
