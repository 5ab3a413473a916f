-- ===== src/Quest/Tests.antt =====
-- Two quests, a hunt for three kinds of monsters and a collection of items, and what becomes of them.
use rzemulator.Base.{
  ◌≡◌, refl, true, false, ◌&&◌, Option, none, some, List, [], ◌∷◌, if◌then◌else◌, arith, ◌||◌,
  Bool-cases, inl, inr,
}
use rzemulator.Base.Int.{ℤ, pos, ◌+ℤ◌, eqb_ℤ, ltb_ℤ, eq_of_parts}
use rzemulator.Quest.{
  Quest, QuestBase, QuestType, in_progress, status_at, with_status, is_random_quest,
  check_quest_type_flag, is_finishable, all_reached, get_status, is_in_random_pool_monster,
  inc_status, alloc_quest, get_random_key,
}
use rzemulator.Quest.Manager.{
  Manager, find_quest, start_quest, is_finished_quest, is_startable_quest,
}
use rzemulator.Quest.Updates.{
  update_by_monster_kill, update_by_item_count, update_by_skill_level, kill_random_quest, for_each,
  kill_quest, is_below, skill_slot, is_related_by_item, item_matches,
}
use rzemulator.Quest.Bumped.{bumped, HasThree}
use rzemulator.Quest.Progress.{AllCounted, update_by_monster_kill-AllCounted, IsKillable}
use rzemulator.Quest.Unique.{IsSound}
use rzemulator.Quest.Lifecycle.{
  IsTable, Step, Reach, Reach-IsSound, finish, fore_done, finish-restart,
}
use rzemulator.Quest.Counters.{after_items, slot_for, AllPlain, update_by_item_count_lem}
use rzemulator.Quest.Faults.{random_item_faults, kill_random_lem, skill_level_uncut}

abbrev zeros : List ℤ
zeros = pos 0 ∷ pos 0 ∷ pos 0 ∷ []

abbrev base_of : ℤ → QuestType → List ℤ → QuestBase
base_of code t value = record {
  code = code;
  is_repeatable = false;
  quest_type = t;
  value = value;
  fore_quest = zeros;
  end_type = pos 0;
}

abbrev quest_of : QuestBase → List ℤ → Quest
quest_of b status = record {
  base = b;
  instance_ = record {
    id = pos 1;
    code = b.code;
    status = status;
    progress = in_progress;
    start_id = pos 0;
    random_key = pos 70 ∷ pos 71 ∷ pos 72 ∷ [];
    random_value = pos 1 ∷ pos 2 ∷ pos 3 ∷ [];
  };
  is_need_update_to_db = false;
}

abbrev six_values : List ℤ
six_values = pos 70 ∷ pos 2 ∷ pos 71 ∷ pos 3 ∷ pos 72 ∷ pos 4 ∷ []

abbrev hunt : Quest
hunt = quest_of (base_of (pos 5) QuestType.kill_individual six_values) (pos 2 ∷ pos 1 ∷ pos 0 ∷ [])

abbrev gather : Quest
gather = quest_of (base_of (pos 6) QuestType.collect six_values) zeros

abbrev lesson : Quest
lesson = quest_of (base_of (pos 7) QuestType.learn_skill six_values) zeros

abbrev random_hunt : Quest
random_hunt = quest_of (base_of (pos 8) QuestType.random_kill_individual six_values) zeros

abbrev random_gather : Quest
random_gather = quest_of (base_of (pos 9) QuestType.random_collect six_values) zeros

abbrev table : ℤ → Option QuestBase
table code =
    if eqb_ℤ code (pos 5)
    then some hunt.base
    else if eqb_ℤ code (pos 9)
    then some random_gather.base
    else none

three_of : (b : QuestBase) (x y z : ℤ) → HasThree (quest_of b (x ∷ y ∷ z ∷ []))
three_of b x y z = record { a = x; b = y; c = z; three = refl }

hunt-IsKillable : IsKillable hunt
hunt-IsKillable = record {
  not_random = λ e. ground arith;
  has_three = three_of hunt.base (pos 2) (pos 1) (pos 0);
  within = (omega arith, omega arith, omega arith);
}

gather-IsKillable : IsKillable gather
gather-IsKillable = record {
  not_random = λ e. ground arith;
  has_three = three_of gather.base (pos 0) (pos 0) (pos 0);
  within = tt;
}

kill_second :
    update_by_monster_kill (hunt ∷ gather ∷ []) (pos 71)
    ≡ some (with_status hunt 1 (pos 2) ∷ gather ∷ [])
unfolding update_by_monster_kill for_each kill_quest check_quest_type_flag is_finishable all_reached
    is_below get_status is_in_random_pool_monster inc_status ◌+ℤ◌
kill_second = refl

update_by_monster_kill-AllCounted_example :
    (qs' : List Quest) × (update_by_monster_kill (hunt ∷ gather ∷ []) (pos 71) ≡ some qs')
    × AllCounted (hunt ∷ gather ∷ []) qs'
update_by_monster_kill-AllCounted_example =
    update_by_monster_kill-AllCounted (hunt ∷ gather ∷ []) (pos 71)
      (hunt-IsKillable, (gather-IsKillable, tt))

plain_pair : AllPlain table (hunt ∷ gather ∷ [])
unfolding is_random_quest
plain_pair = (
  (refl, hunt-IsKillable.has_three, λ e. ground arith),
  ((refl, gather-IsKillable.has_three, λ e. ground arith), tt),
)

update_by_item_count_lem_example :
    update_by_item_count table (hunt ∷ gather ∷ []) (pos 71) (pos 9)
    ≡ some (after_items (hunt ∷ gather ∷ []) (pos 71) (pos 9))
update_by_item_count_lem_example =
    update_by_item_count_lem table (hunt ∷ gather ∷ []) (pos 71) (pos 9) plain_pair

-- The collection takes no more than its target.
items_cut :
    after_items (hunt ∷ gather ∷ []) (pos 71) (pos 9) ≡ hunt ∷ with_status gather 1 (pos 3) ∷ []
unfolding slot_for check_quest_type_flag
items_cut = refl

table-IsTable : IsTable table
table-IsTable code b e = elim (Bool-cases (eqb_ℤ code (pos 5))) [
  | inl y ↦ ground (arith, e, y, eq_of_parts code (pos 5))
  | inr ne ↦ ground (arith, e, ne, eq_of_parts code (pos 9))
]

abbrev empty : Manager
empty = record { finished = []; active = []; quest_index = pos 0 }

abbrev quest_of_table : Quest
quest_of_table = record hunt {
  instance_ = record (hunt.instance_) { status = zeros; random_key = zeros; random_value = zeros };
}

abbrev started : Manager
started = record { finished = []; active = quest_of_table ∷ []; quest_index = pos 1 }

starts : start_quest table empty (pos 5) (pos 0) ≡ some (started, true)
unfolding start_quest find_quest alloc_quest ◌+ℤ◌
starts = refl

reached : Reach table started
reached =
    Reach.next empty started (Reach.fresh (pos 0))
      (Step.start empty started (pos 5) (pos 0) true starts)

started-IsSound : IsSound started
started-IsSound = Reach-IsSound table started table-IsTable reached

Reach-IsSound_example : IsSound started
Reach-IsSound_example = Reach-IsSound table started table-IsTable reached

found : find_quest started.active (pos 5) ≡ some quest_of_table
unfolding find_quest
found = refl

finish-restart_example :
    (find_quest (finish started quest_of_table).active (pos 5) ≡ none)
    × (is_finished_quest (finish started quest_of_table) (pos 5) ≡ true)
    × (is_startable_quest table (finish started quest_of_table) (pos 5)
        ≡ false && fore_done (finish started quest_of_table) hunt.base)
finish-restart_example =
    finish-restart table started (pos 5) quest_of_table hunt.base started-IsSound found refl

random_known : is_random_quest table (pos 9) ≡ true
unfolding is_random_quest
random_known = refl

random_related : is_related_by_item random_gather (pos 70) 6168 ≡ some true
unfolding is_related_by_item item_matches check_quest_type_flag get_random_key
random_related = refl

random_item_faults_run : update_by_item_count table (random_gather ∷ []) (pos 70) (pos 1) ≡ none
random_item_faults_run =
    random_item_faults table random_gather [] (pos 70) (pos 1) refl random_known random_related

kill_random_lem_run :
    kill_random_quest random_hunt (pos 72)
    ≡ some (
        if (eqb_ℤ (pos 70) (pos 72) && ltb_ℤ (status_at random_hunt 0) (pos 1))
          || (eqb_ℤ (pos 71) (pos 72) && ltb_ℤ (status_at random_hunt 1) (pos 2))
          || (eqb_ℤ (pos 72) (pos 72) && ltb_ℤ (status_at random_hunt 1) (pos 3))
        then bumped random_hunt 0
        else random_hunt)
kill_random_lem_run =
    kill_random_lem random_hunt (pos 72) (pos 70) (pos 71) (pos 72) (pos 1) (pos 2) (pos 3)
      (three_of random_hunt.base (pos 0) (pos 0) (pos 0)) refl refl

slot_1 : skill_slot lesson (pos 71) ≡ some 1
unfolding skill_slot
slot_1 = refl

skill_level_uncut_run :
    update_by_skill_level (lesson ∷ []) (pos 71) (pos 50)
    ≡ some (with_status lesson 1 (pos 50) ∷ [])
skill_level_uncut_run =
    skill_level_uncut lesson (pos 71) (pos 50) 1 (three_of lesson.base (pos 0) (pos 0) (pos 0)) refl
      refl slot_1
