-- ===== src/Quest.antt =====
-- Chihiro/src/Quests/QuestBase.h and Quest.cpp, with `checkQuestTypeFlag` of Globals/ObjectMgr.cpp and
-- `IsInRandomPoolMonster` of Globals/GameContent.cpp. An array is a list; `none` is an access behind
-- its end or through a null pointer. `int32_t` values are whole numbers that do not wrap. Indices are
-- not negative, as in every call. Fields that these functions do not touch are left out.
pub mod Manager
pub mod Updates
pub mod Bumped
pub mod Progress
pub mod Unique
pub mod Lifecycle
pub mod Counters
pub mod Faults
pub mod Tests
use rzemulator.Base.{
  ◌>>=◌, ℕ, ◌+◌, ◌*◌, Bool, true, false, not, ◌&&◌, ◌||◌, Option, none, some, List, [], ◌∷◌, length,
  get_elem?, get_or, set, ◌==◌, ltb, if◌then◌else◌, bit_and,
}
use rzemulator.Base.Int.{ℤ, pos, negsuc, ◌+ℤ◌, ltb_ℤ, leb_ℤ, eqb_ℤ}

pub data QuestType : Type 0 where
  misc kill_total kill_individual collect hunt_item hunt_item_from_any_monsters : QuestType
  learn_skill upgrade_item contact job_level parameter end_via_script : QuestType
  random_kill_individual random_collect : QuestType

pub data QuestProgress : Type 0 where
  startable in_progress finishable : QuestProgress

-- `QuestBaseServer`: `value` has 12 entries, `fore_quest` 3.
pub record QuestBase : Type 0 where
  pub code : ℤ
  pub is_repeatable : Bool
  pub quest_type : QuestType
  pub value : List ℤ
  pub fore_quest : List ℤ
  pub end_type : ℤ

-- `QuestInstance`: `status`, `random_key` and `random_value` have 3 entries.
pub record QuestInstance : Type 0 where
  pub id : ℤ
  pub code : ℤ
  pub status : List ℤ
  pub progress : QuestProgress
  pub start_id : ℤ
  pub random_key : List ℤ
  pub random_value : List ℤ

pub record Quest : Type 0 where
  pub base : QuestBase
  pub instance_ : QuestInstance
  pub is_need_update_to_db : Bool

-- `checkQuestTypeFlag`.
abbrev pub type_flag : QuestType → ℕ
type_flag misc = 0x1
type_flag kill_total = 0x2
type_flag kill_individual = 0x4
type_flag collect = 0x8
type_flag hunt_item = 0x10
type_flag hunt_item_from_any_monsters = 0x1000
type_flag learn_skill = 0x20
type_flag upgrade_item = 0x40
type_flag contact = 0x80
type_flag job_level = 0x100
type_flag parameter = 0x200
type_flag random_kill_individual = 0x400
type_flag random_collect = 0x800
type_flag end_via_script = 0

pub check_quest_type_flag : QuestType → ℕ → Bool
check_quest_type_flag t flag = not (bit_and flag (type_flag t) == 0)

abbrev pub is_random_type : QuestType → Bool
is_random_type random_collect = true
is_random_type random_kill_individual = true
is_random_type _ = false

-- `Quest::IsRandomQuest`, with the table of `GetQuestBase`.
pub is_random_quest : (ℤ → Option QuestBase) → ℤ → Bool
is_random_quest get_base code = elim (get_base code) [
  | none ↦ false
  | some b ↦ is_random_type b.quest_type
]

-- Pools of monsters are not implemented: only the monster itself counts.
pub is_in_random_pool_monster : ℤ → ℤ → Bool
is_in_random_pool_monster group_id monster_id = eqb_ℤ group_id monster_id

abbrev pub is_finishable_progress : QuestProgress → Bool
is_finishable_progress finishable = true
is_finishable_progress _ = false

-- `Quest::GetValue`.
abbrev pub get_value : Quest → ℕ → ℤ
get_value q idx = if ltb 11 idx then pos 0 else get_or q.base.value idx (pos 0)

-- `Quest::GetStatus`: the test lets 3, 4 and 5 pass, which lie behind the array.
pub get_status : Quest → ℕ → Option ℤ
get_status q idx = if ltb 5 idx then some (pos 0) else get_elem? q.instance_.status idx

abbrev pub with_status : Quest → ℕ → ℤ → Quest
with_status q idx v = record q {
  instance_ = record (q.instance_) { status = set q.instance_.status idx v };
  is_need_update_to_db = true;
}

-- `Quest::UpdateStatus` and `Quest::IncStatus`. The event handler is told, and only sends packets.
pub update_status : Quest → ℕ → ℤ → Option Quest
update_status q idx v =
    if ltb 5 idx
    then some q
    else (do old ← get_elem? q.instance_.status idx; some (with_status q idx v))

pub inc_status : Quest → ℕ → ℤ → Option Quest
inc_status q idx v =
    if ltb 5 idx
    then some q
    else (do old ← get_elem? q.instance_.status idx; some (with_status q idx (old +ℤ v)))

-- `Quest::GetRandomKey` and `Quest::GetRandomValue` test no index.
pub get_random_key : Quest → ℕ → Option ℤ
get_random_key q idx = get_elem? q.instance_.random_key idx

pub get_random_value : Quest → ℕ → Option ℤ
get_random_value q idx = get_elem? q.instance_.random_value idx

-- `Quest::SetProgress`.
pub set_progress : Quest → QuestProgress → Quest
set_progress q p = record q { instance_ = record (q.instance_) { progress = p } }

abbrev pub status_at : Quest → ℕ → ℤ
status_at q i = get_or q.instance_.status i (pos 0)

abbrev pub value_at : Quest → ℕ → ℤ
value_at q i = get_or q.base.value i (pos 0)

-- The three counters have reached the values 1, 3 and 5.
pub all_reached : Quest → Bool
all_reached q =
    leb_ℤ (value_at q 1) (status_at q 0)
    && leb_ℤ (value_at q 3) (status_at q 1)
    && leb_ℤ (value_at q 5) (status_at q 2)

unfoldable skill_reached : Quest → ℕ → Bool
skill_reached q i =
    eqb_ℤ (value_at q (2 * i)) (pos 0) || leb_ℤ (value_at q (2 * i + 1)) (status_at q i)

-- One of the three comparisons of QUEST_PARAMETER.
unfoldable parameter_holds : Quest → ℕ → Bool
parameter_holds q i =
    let id = value_at q (3 * i) in
    let mode = value_at q (3 * i + 1) in
    let bound = value_at q (3 * i + 2) in
    let st = status_at q i in
    eqb_ℤ id (pos 0)
    || (eqb_ℤ mode (pos 2) && ltb_ℤ bound st)
    || (eqb_ℤ mode (pos 1) && leb_ℤ bound st)
    || (eqb_ℤ mode (pos 0) && eqb_ℤ st bound)
    || (eqb_ℤ mode (negsuc 0) && leb_ℤ st bound)
    || (eqb_ℤ mode (negsuc 0) && ltb_ℤ st bound)

pub finishable_as : QuestType → Quest → Bool
finishable_as misc q = false
finishable_as kill_total q = leb_ℤ (value_at q 1) (status_at q 0)
finishable_as kill_individual q = all_reached q
finishable_as collect q = all_reached q
finishable_as hunt_item q = all_reached q
finishable_as hunt_item_from_any_monsters q = all_reached q
finishable_as learn_skill q = skill_reached q 0 && skill_reached q 1 && skill_reached q 2
finishable_as upgrade_item q = all_reached q
finishable_as contact q = true
finishable_as job_level q =
    if ltb_ℤ (status_at q 0) (value_at q 0) then false else leb_ℤ (value_at q 1) (status_at q 1)
finishable_as parameter q = parameter_holds q 0 && parameter_holds q 1 && parameter_holds q 2
finishable_as end_via_script q =
    if eqb_ℤ q.base.end_type (pos 3) && all_reached q then true else ltb_ℤ q.base.end_type (pos 2)
finishable_as random_kill_individual q = false
finishable_as random_collect q = false

-- `Quest::IsFinishable`.
pub is_finishable : Quest → Bool
unfolding finishable_as
is_finishable q = finishable_as q.base.quest_type q

-- `Quest::AllocQuest`: null for a code that the table does not have.
pub alloc_quest : (ℤ → Option QuestBase) → ℤ → ℤ → List ℤ → QuestProgress → ℤ → Option Quest
alloc_quest get_base id code status progress start_id = elim (get_base code) [
  | none ↦ none
  | some b ↦ some (record {
    base = b;
    instance_ = record {
      id = id;
      code = code;
      status = status;
      progress = progress;
      start_id = start_id;
      random_key = pos 0 ∷ pos 0 ∷ pos 0 ∷ [];
      random_value = pos 0 ∷ pos 0 ∷ pos 0 ∷ [];
    };
    is_need_update_to_db = false;
  })
]
