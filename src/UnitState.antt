-- ===== src/UnitState.antt =====
-- Chihiro/src/Skills/State.cpp and State.h: a state of a unit, in up to three kinds. `uint32_t` values are numbers below
-- 2 ^ 32, and -1 is the largest. Of the template the model keeps what is read of it here; the time of the world
-- (`sWorld.GetArTime()`) and the
-- template of a code (`GetStateInfo`) are arguments.
pub mod Times
pub mod Tests
use rzemulator.Base.{
  ℕ, suc, zero, ◌+◌, ◌-◌, ◌%◌, ◌^◌, Bool, true, false, not, ◌&&◌, ◌||◌, Option, none, some, ltb,
  ◌==◌, if◌then◌else◌,
}
use rzemulator.Base.Int.{ℤ, pos, eqb_ℤ}

-- `StateType`, the index of the arrays.
pub data StateType : Type 0 where
  normal : StateType
  duplicate : StateType
  dependence : StateType

-- An array of three.
pub record Three {ℓ} (A : Type ℓ) : Type ℓ where
  pub first : A
  pub second : A
  pub third : A

abbrev pub put {ℓ} : {A : Type ℓ} → Three A → StateType → A → Three A
put a normal x = record a { first = x }
put a duplicate x = record a { second = x }
put a dependence x = record a { third = x }

abbrev pub get {ℓ} : {A : Type ℓ} → Three A → StateType → A
get a normal = a.first
get a duplicate = a.second
get a dependence = a.third

abbrev pub all_of {ℓ} : {A : Type ℓ} → A → Three A
all_of x = record { first = x; second = x; third = x }

abbrev pub each {ℓ κ} : {A : Type ℓ} {B : Type κ} → (A → B) → Three A → Three B
each f a = record { first = f a.first; second = f a.second; third = f a.third }

-- Sums and differences of `uint32_t`.
abbrev pub plus : ℕ → ℕ → ℕ
plus a b = (a + b) % 2 ^ 32

abbrev pub minus : ℕ → ℕ → ℕ
minus a b = (a + 2 ^ 32 - b) % 2 ^ 32

abbrev pub minus_one : ℕ
minus_one = 2 ^ 32 - 1

-- `StateTemplate`, as far as it is read.
pub record StateTemplate : Type 0 where
  pub effect_type : ℤ
  pub is_harmful : ℤ
  pub duplicate_group : Three ℤ
  pub state_time_type : ℤ

pub record UnitState : Type 0 where
  pub uid : ℕ
  pub code : ℤ
  pub level : Three ℕ
  pub base_damage : Three ℤ
  pub caster : Three ℕ
  pub start_time : Three ℕ
  pub end_time : Three ℕ
  pub remain_duration : Three ℕ
  pub last_processed_time : ℕ
  pub template : Option StateTemplate
  pub total_damage : ℤ
  pub aura : Bool
  pub state_value : ℤ

unfoldable new_state :
    Option StateTemplate → ℕ → StateType → ℕ → ℤ → ℕ → ℕ → ℕ → ℕ → ℤ → Bool → ℤ → UnitState
new_state template now type uid code caster level start end damage is_aura value = record {
  uid = uid % 2 ^ 16;
  code = code;
  level = put (all_of 0) type level;
  base_damage = put (all_of (pos 0)) type damage;
  caster = put (all_of 0) type caster;
  start_time = put (all_of 0) type start;
  end_time = put (all_of 0) type end;
  remain_duration = all_of 0;
  last_processed_time = now;
  template = template;
  total_damage = pos 0;
  aura = is_aura;
  state_value = value;
}

-- `GetLevel()`, a sum of `uint16_t`.
pub get_level : UnitState → ℕ
get_level s =
    if not (s.level.first == 0) || not (s.level.second == 0)
    then (s.level.first + s.level.second + s.level.third) % 2 ^ 16
    else 0

unfoldable get_start_time : UnitState → ℕ
get_start_time s =
    if ltb s.start_time.second s.start_time.first then s.start_time.first else s.start_time.second

unfoldable get_end_time : UnitState → ℕ
get_end_time s =
    if ltb s.end_time.second s.end_time.first then s.end_time.first else s.end_time.second

pub get_remain_duration : UnitState → ℕ
get_remain_duration s =
    if ltb s.remain_duration.second s.remain_duration.first
    then s.remain_duration.first
    else s.remain_duration.second

pub is_holded : UnitState → Bool
unfolding get_remain_duration
is_holded s = not (get_remain_duration s == 0)

pub release_remain_duration : ℕ → UnitState → UnitState
release_remain_duration t s = if not (is_holded s) then s else record s {
  end_time = each (λ d. plus t d) s.remain_duration;
  remain_duration = all_of 0;
  aura = false;
}

pub hold_remain_duration : ℕ → UnitState → UnitState
hold_remain_duration t s = if is_holded s || s.aura then s else record s {
  remain_duration = each (λ e. minus e t) s.end_time;
  end_time = all_of minus_one;
  aura = true;
}

pub add_state : UnitState → StateType → ℕ → ℕ → ℕ → ℕ → ℤ → Bool → UnitState × Bool
add_state s type caster level start end damage is_aura =
    if ltb level (get s.level type) then (s, false) else (
      record s {
        level = put s.level type level;
        base_damage = put s.base_damage type damage;
        start_time = put s.start_time type start;
        end_time = put s.end_time type end;
        caster = put s.caster type caster;
        last_processed_time = start;
        aura = is_aura;
      },
      true,
    )

unfoldable get_effect_type : UnitState → ℤ
get_effect_type s = elim s.template [ none ↦ pos 0 | some t ↦ t.effect_type ]

unfoldable is_harmful_state : UnitState → Bool
is_harmful_state s = elim s.template [ none ↦ false | some t ↦ not (eqb_ℤ t.is_harmful (pos 0)) ]

unfoldable get_time_type : UnitState → ℤ
get_time_type s = elim s.template [ none ↦ pos 0 | some t ↦ t.state_time_type ]

abbrev pub in_group : ℤ → ℤ → Bool
in_group group id = not (eqb_ℤ group (pos 0)) && eqb_ℤ group id

unfoldable is_duplicated_group : UnitState → ℤ → Bool
is_duplicated_group s id = elim s.template [
  | none ↦ false
  | some t ↦
      in_group t.duplicate_group.first id
      || in_group t.duplicate_group.second id
      || in_group t.duplicate_group.third id
]

-- The body of the loop of `SetState`: the start and the end of one kind.
pub restored : ℕ → ℕ → ℕ → ℕ × ℕ
restored t duration remain =
    let gone = minus duration remain in
    if duration == 0 then (0, 0) else (
      if ltb gone t then minus t gone else 0,
      if remain == minus_one then minus_one else plus t remain,
    )

-- The remaining times are read as `uint32_t`.
unfoldable set_state :
    Option StateTemplate
    → ℕ
    → UnitState
    → ℤ
    → ℕ
    → ℕ
    → Three ℕ
    → Three ℕ
    → Three ℕ
    → ℕ
    → Three ℤ
    → ℤ
    → UnitState
set_state template t s code uid caster levels durations remains last_fire damages value =
    let a = restored t durations.first remains.first in
    let b = restored t durations.second remains.second in
    let c = restored t durations.third remains.third in
    record s {
      template = template;
      uid = uid % 2 ^ 16;
      code = code;
      level = levels;
      caster = all_of caster;
      base_damage = damages;
      start_time = record { first = a.0; second = b.0; third = c.0 };
      end_time = record { first = a.1; second = b.1; third = c.1 };
      last_processed_time = last_fire;
      state_value = value;
    }

pub clear_expired_state : ℕ → UnitState → UnitState × Bool
clear_expired_state t s =
    let gone0 = not (s.level.first == 0) && ltb s.end_time.first t in
    let l0 = if gone0 then 0 else s.level.first in
    let gone1 = not (s.level.second == 0) && ltb s.end_time.second t in
    let l1 = if gone1 then 0 else s.level.second in
    let gone2 = (not (s.level.third == 0) && ltb s.end_time.third t) || (l0 == 0 && l1 == 0) in
    let l2 = if gone2 then 0 else s.level.third in
    (record s { level = record { first = l0; second = l1; third = l2 } }, gone0 || gone1 || gone2)

pub is_valid : ℕ → UnitState → Bool
is_valid t s =
    (not (s.level.first == 0) && ltb t s.end_time.first)
    || (not (s.level.second == 0) && ltb t s.end_time.second)
