-- ===== src/Quest/Manager.antt =====
-- Chihiro/src/Quests/QuestManager.cpp: the active and the finished quests of a player. The active quests
-- are held by value, in the order of `m_vActiveQuest`.
use rzemulator.Base.{
  ◌>>=◌, Bool, true, false, not, ◌&&◌, ◌||◌, Option, none, some, List, [], ◌∷◌, ◌++◌, if◌then◌else◌,
}
use rzemulator.Base.Int.{ℤ, pos, ◌+ℤ◌, eqb_ℤ}
use rzemulator.Quest.{
  QuestType, finishable, in_progress, QuestBase, Quest, is_random_quest, is_finishable_progress,
  get_value, get_random_key, is_finishable, set_progress, alloc_quest,
}

-- `m_hsFinishedQuest`, `m_vActiveQuest` and `m_QuestIndex`.
pub record Manager : Type 0 where
  pub finished : List (ℤ × Bool)
  pub active : List Quest
  pub quest_index : ℤ

unfoldable pub lookup : ℤ → List (ℤ × Bool) → Option Bool
lookup k [] = none
lookup k ((j, v) ∷ m) = if eqb_ℤ j k then some v else lookup k m

-- `map::emplace` leaves an entry that is there.
unfoldable pub emplace : ℤ → List (ℤ × Bool) → List (ℤ × Bool)
emplace k m = elim (lookup k m) [ none ↦ (k, true) ∷ m | some v ↦ m ]

unfoldable pub is_finished_quest : Manager → ℤ → Bool
is_finished_quest m code = elim (lookup code m.finished) [ none ↦ false | some v ↦ v ]

-- `m_hsFinishedQuest.count(code) > 0`.
unfoldable pub has_entry : Manager → ℤ → Bool
has_entry m code = elim (lookup code m.finished) [ none ↦ false | some v ↦ true ]

-- `FindQuest` compares the code of the base.
unfoldable pub find_quest : List Quest → ℤ → Option Quest
find_quest [] code = none
find_quest (q ∷ qs) code = if eqb_ℤ q.base.code code then some q else find_quest qs code

-- The loop of `AddQuest` compares the code of the instance.
unfoldable pub has_instance : List Quest → ℤ → Bool
has_instance [] code = false
has_instance (q ∷ qs) code = eqb_ℤ code q.instance_.code || has_instance qs code

-- `AddQuest`; a quest whose base is null is refused before. The block on random quests holds comments.
unfoldable pub add_quest : Manager → Quest → Manager × Bool
add_quest m q =
    if eqb_ℤ q.instance_.code (pos 0) || has_instance m.active q.instance_.code
    then (m, false)
    else if is_finishable_progress q.instance_.progress
    then if has_entry m q.instance_.code && not q.base.is_repeatable
      then (m, false)
      else (record m { finished = emplace q.instance_.code m.finished }, true)
    else (record m { active = m.active ++ q ∷ [] }, true)

-- `StartQuest`: the quest that `AllocQuest` returns is read with no test.
unfoldable pub start_quest : (ℤ → Option QuestBase) → Manager → ℤ → ℤ → Option (Manager × Bool)
start_quest get_base m code start_id =
    if eqb_ℤ code (pos 0) then some (m, false) else elim (find_quest m.active code) [
      | some q ↦ some (m, false)
      | none ↦ do
        let id = m.quest_index +ℤ pos 1
        q ← alloc_quest get_base id code (pos 0 ∷ pos 0 ∷ pos 0 ∷ []) in_progress start_id
        some (record m { active = m.active ++ q ∷ []; quest_index = id }, true)
    ]

-- `EndQuest`; the pointer that it is handed is one of the list, and is found there by its code.
unfoldable pub set_finishable : List Quest → ℤ → List Quest
set_finishable [] code = []
set_finishable (q ∷ qs) code =
    if eqb_ℤ q.instance_.code code
    then set_progress q finishable ∷ qs
    else q ∷ set_finishable qs code

unfoldable pub end_quest : Manager → Quest → Manager
unfolding set_finishable
end_quest m q = record m {
  active = set_finishable m.active q.instance_.code;
  finished = emplace q.instance_.code m.finished;
}

-- `PopFromActiveQuest`.
unfoldable pub pop_from_active : List Quest → ℤ → List Quest
pop_from_active [] code = []
pop_from_active (q ∷ qs) code =
    if eqb_ℤ q.instance_.code code then qs else q ∷ pop_from_active qs code

-- The loop over `nForeQuest`.
unfoldable pub any_fore_finished : Manager → List ℤ → Bool
any_fore_finished m [] = false
any_fore_finished m (id ∷ ids) =
    (not (eqb_ℤ id (pos 0)) && is_finished_quest m id) || any_fore_finished m ids

-- `nForeQuest[0] == 0`.
abbrev pub no_fore_quest : List ℤ → Bool
no_fore_quest [] = true
no_fore_quest (id ∷ ids) = eqb_ℤ id (pos 0)

-- `IsStartableQuest`.
unfoldable pub is_startable_quest : (ℤ → Option QuestBase) → Manager → ℤ → Bool
is_startable_quest get_base m code = elim (find_quest m.active code) [
  | some q ↦ false
  | none ↦ elim (get_base code) [
    | none ↦ false
    | some b ↦
        if not b.is_repeatable && is_finished_quest m code
        then false
        else if no_fore_quest b.fore_quest
        then true
        else any_fore_finished m b.fore_quest
  ]
]

abbrev takes_items : QuestType → Bool
takes_items QuestType.collect = true
takes_items QuestType.hunt_item = true
takes_items QuestType.hunt_item_from_any_monsters = true
takes_items QuestType.random_collect = true
takes_items _ = false

abbrev is_collect : QuestType → Bool
is_collect QuestType.collect = true
is_collect _ = false

abbrev pub wants_key : Quest → ℤ → Option Bool
wants_key q code = do
  a ← get_random_key q 0
  b ← get_random_key q 1
  c ← get_random_key q 2
  some (eqb_ℤ a code || eqb_ℤ b code || eqb_ℤ c code)

abbrev pub wants_three : Quest → ℤ → Bool
wants_three q code =
    eqb_ℤ (get_value q 0) code || eqb_ℤ (get_value q 2) code || eqb_ℤ (get_value q 4) code

abbrev pub wants_six : Quest → ℤ → Bool
wants_six q code =
    wants_three q code
    || eqb_ℤ (get_value q 6) code
    || eqb_ℤ (get_value q 8) code
    || eqb_ℤ (get_value q 10) code

wants_item : (ℤ → Option QuestBase) → Quest → ℤ → Option Bool
wants_item get_base q code =
    if is_random_quest get_base q.base.code
    then wants_key q code
    else if is_collect q.base.quest_type
    then some (wants_six q code)
    else some (wants_three q code)

-- `IsTakeableQuestItem`.
unfoldable is_takeable_quest_item : (ℤ → Option QuestBase) → List Quest → ℤ → Option Bool
unfolding wants_item
is_takeable_quest_item get_base [] code = some false
is_takeable_quest_item get_base (q ∷ qs) code =
    let rest = is_takeable_quest_item get_base qs code in
    if is_finishable_progress q.instance_.progress
      || not (takes_items q.base.quest_type)
      || is_finishable q
    then rest
    else (do hit ← wants_item get_base q code; if hit then some true else rest)
