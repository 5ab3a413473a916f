-- ===== src/UnitState/Tests.antt =====
-- A state with two levels.
use rzemulator.Base.{◌-◌, ◌≡◌, refl, false, none, ◌==◌, ◌&&◌, ◌||◌, inl, arith, ltb, if◌then◌else◌}
use rzemulator.Base.Int.{pos}
use rzemulator.UnitState.{
  UnitState, all_of, each, plus, is_holded, get_remain_duration, hold_remain_duration,
  release_remain_duration, clear_expired_state, is_valid,
}
use rzemulator.UnitState.Times.{hold-release, clear_lem}

abbrev poisoned : UnitState
poisoned = record {
  uid = 1;
  code = pos 5001;
  level = record { first = 3; second = 1; third = 0 };
  base_damage = all_of (pos 0);
  caster = all_of 7;
  start_time = all_of 100;
  end_time = record { first = 500; second = 300; third = 0 };
  remain_duration = all_of 0;
  last_processed_time = 100;
  template = none;
  total_damage = pos 0;
  aura = false;
  state_value = pos 0;
}

not_held : is_holded poisoned ≡ false
unfolding is_holded get_remain_duration
not_held = refl

hold-release_example :
    release_remain_duration 900 (hold_remain_duration 400 poisoned)
    ≡ record poisoned { end_time = each (λ e. plus e (900 - 400)) poisoned.end_time }
hold-release_example =
    hold-release poisoned 400 900 not_held refl refl (inl (λ e. absurd (omega arith))) (omega arith)
      (omega arith) (omega arith) (omega arith)

clear_lem_run :
    (is_valid 400 (clear_expired_state 400 poisoned).0 ≡ is_valid 400 poisoned)
    × ((clear_expired_state 400 poisoned).0.level.first ≡ (if ltb 500 400 then 0 else 3))
    × ((clear_expired_state 400 poisoned).0.level.second ≡ (if ltb 300 400 then 0 else 1))
    × ((clear_expired_state 400 poisoned).0.level.third ≡ (
        if ltb 0 400
          || ((clear_expired_state 400 poisoned).0.level.first == 0
              && (clear_expired_state 400 poisoned).0.level.second == 0)
        then 0
        else 0))
clear_lem_run = clear_lem poisoned 400
