-- ===== src/Quest/Updates.antt =====
-- The functions of Chihiro/src/Quests/QuestManager.cpp that move the counters of the active quests.
-- `GetRelatedQuest` and `GetRelatedQuestByItem` choose the quests first; nothing that the loops change
-- decides the choice, so each loop runs over the active quests and tests the choice on its way.
use rzemulator.Base.{
  ◌>>=◌, ℕ, zero, suc, ◌+◌, ◌*◌, Bool, true, false, not, ◌&&◌, ◌||◌, Option, none, some, List, [],
  ◌∷◌, if◌then◌else◌,
}
use rzemulator.Base.Int.{ℤ, pos, ltb_ℤ, eqb_ℤ}
use rzemulator.Quest.{
  QuestType, QuestBase, Quest, is_random_quest, is_in_random_pool_monster, check_quest_type_flag,
  is_finishable_progress, get_value, get_status, get_random_key, get_random_value, is_finishable,
  update_status, inc_status,
}
use rzemulator.Quest.Manager.{wants_key, wants_three, wants_six}

-- `GetRelatedQuest`.
abbrev pub is_related : Quest → ℕ → Bool
is_related q flag =
    not (is_finishable_progress q.instance_.progress)
    && check_quest_type_flag q.base.quest_type flag

unfoldable get_related_quest : List Quest → ℕ → List Quest
get_related_quest [] flag = []
get_related_quest (q ∷ qs) flag =
    let rest = get_related_quest qs flag in if is_related q flag then q ∷ rest else rest

-- The switch of `GetRelatedQuestByItem`.
unfoldable pub item_matches : QuestType → Quest → ℤ → Option Bool
item_matches QuestType.hunt_item q code = some (wants_three q code)
item_matches QuestType.hunt_item_from_any_monsters q code = some (wants_three q code)
item_matches QuestType.collect q code = some (wants_six q code)
item_matches QuestType.random_collect q code = wants_key q code
item_matches _ q code = some false

unfoldable pub is_related_by_item : Quest → ℤ → ℕ → Option Bool
unfolding item_matches
is_related_by_item q code flag =
    if is_related q flag then item_matches q.base.quest_type q code else some false

abbrev pub min_ℤ : ℤ → ℤ → ℤ
min_ℤ a b = if ltb_ℤ b a then b else a

-- The loop over the three counters of a quest that is not random: the quest if it is updated.
unfoldable pub count_item : Quest → ℤ → ℤ → ℕ → ℕ → Option (Option Quest)
count_item q code count i zero = some none
count_item q code count i (suc left) =
    let rest = count_item q code count (i + 1) left in
    if eqb_ℤ (get_value q (2 * i)) code
    then (do q' ← update_status q i (min_ℤ count (get_value q (2 * i + 1))); some (some q'))
    else rest

-- The same loop for a random quest, which reads `nRandomKey[6]` in every round.
unfoldable pub count_random_item : Quest → ℤ → ℤ → ℕ → ℕ → Option (Option Quest)
count_random_item q code count i zero = some none
count_random_item q code count i (suc left) = do
  key ← get_random_key q 6
  let rest = count_random_item q code count (i + 1) left
  if eqb_ℤ key code
      then (do v ← get_random_value q i; q' ← update_status q i (min_ℤ count v); some (some q'))
      else rest

-- `UpdateQuestStatusByItemCount` returns at the first counter that it sets.
unfoldable pub update_by_item_count :
    (ℤ → Option QuestBase) → List Quest → ℤ → ℤ → Option (List Quest)
update_by_item_count get_base [] code count = some []
update_by_item_count get_base (q ∷ qs) code count =
    let later = update_by_item_count get_base qs code count in
    (do
      related ← is_related_by_item q code 6168
      if related
          then (do
            done ←
                (if is_random_quest get_base q.base.code
                  then count_random_item q code count 0 3
                  else count_item q code count 0 3)
            elim done [ some q' ↦ some (q' ∷ qs) | none ↦ do rest ← later; some (q ∷ rest) ])
          else (do rest ← later; some (q ∷ rest)))

-- A monster of the pool under value `i`, and a counter below its target.
abbrev pub is_pool : Quest → ℕ → ℤ → Bool
is_pool q i monster = is_in_random_pool_monster (get_value q i) monster

unfoldable pub is_below : Quest → ℕ → ℤ → Option Bool
is_below q i target = do st ← get_status q i; some (ltb_ℤ st target)

unfoldable pub kill_total_quest : Quest → ℤ → Option Quest
kill_total_quest q monster = do
  below ← is_below q 0 (get_value q 1)
  if is_pool q 0 monster || is_pool q 2 monster || (is_pool q 4 monster && below)
      then inc_status q 0 (pos 1)
      else some q

unfoldable pub kill_individual_quest : Quest → ℤ → Option Quest
kill_individual_quest q monster = do
  b0 ← is_below q 0 (get_value q 1)
  b1 ← is_below q 1 (get_value q 3)
  b2 ← is_below q 2 (get_value q 5)
  if is_pool q 0 monster && b0
      then inc_status q 0 (pos 1)
      else if is_pool q 2 monster && b1
      then inc_status q 1 (pos 1)
      else if is_pool q 4 monster && b2
      then inc_status q 2 (pos 1)
      else some q

-- All three branches count in the first counter, and the third tests the second one.
unfoldable pub kill_random_quest : Quest → ℤ → Option Quest
kill_random_quest q monster = do
  k0 ← get_random_key q 0
  k1 ← get_random_key q 1
  k2 ← get_random_key q 2
  v0 ← get_random_value q 0
  v1 ← get_random_value q 1
  v2 ← get_random_value q 2
  b0 ← is_below q 0 v0
  b1 ← is_below q 1 v1
  b2 ← is_below q 1 v2
  if (eqb_ℤ k0 monster && b0) || (eqb_ℤ k1 monster && b1) || (eqb_ℤ k2 monster && b2)
      then inc_status q 0 (pos 1)
      else some q

unfoldable pub kill_switch : QuestType → Quest → ℤ → Option Quest
unfolding kill_total_quest kill_individual_quest kill_random_quest
kill_switch QuestType.kill_total q monster = kill_total_quest q monster
kill_switch QuestType.kill_individual q monster = kill_individual_quest q monster
kill_switch QuestType.random_kill_individual q monster = kill_random_quest q monster
kill_switch _ q monster = some q

unfoldable pub kill_quest : Quest → ℤ → Option Quest
unfolding kill_switch
kill_quest q monster =
    if is_related q 1030 && not (is_finishable q)
    then kill_switch q.base.quest_type q monster
    else some q

-- A loop that updates each quest.
unfoldable pub for_each : (Quest → Option Quest) → List Quest → Option (List Quest)
for_each f [] = some []
for_each f (q ∷ qs) = do q' ← f q; rest ← for_each f qs; some (q' ∷ rest)

-- `UpdateQuestStatusByMonsterKill`.
unfoldable pub update_by_monster_kill : List Quest → ℤ → Option (List Quest)
update_by_monster_kill qs monster = for_each (λ q. kill_quest q monster) qs

abbrev pub is_learn_skill : QuestType → Bool
is_learn_skill QuestType.learn_skill = true
is_learn_skill _ = false

abbrev pub is_job_level : QuestType → Bool
is_job_level QuestType.job_level = true
is_job_level _ = false

abbrev pub is_parameter : QuestType → Bool
is_parameter QuestType.parameter = true
is_parameter _ = false

-- The counter that a learnt skill moves, if any.
unfoldable pub skill_slot : Quest → ℤ → Option ℕ
skill_slot q skill =
    if eqb_ℤ (get_value q 0) skill
    then some 0
    else if eqb_ℤ (get_value q 2) skill
    then some 1
    else if eqb_ℤ (get_value q 4) skill
    then some 2
    else none

-- `UpdateQuestStatusBySkillLevel`: it is the id of the skill, and not the level, that is cut down to the
-- target, and the loop goes on with the id that it has then.
unfoldable pub update_by_skill_level : List Quest → ℤ → ℤ → Option (List Quest)
update_by_skill_level [] skill level = some []
update_by_skill_level (q ∷ qs) skill level =
    if not (is_finishable_progress q.instance_.progress) && is_learn_skill q.base.quest_type
    then elim (skill_slot q skill) [
      | none ↦ do rest ← update_by_skill_level qs skill level; some (q ∷ rest)
      | some i ↦ do
        q' ← update_status q i level
        rest ← update_by_skill_level qs (min_ℤ skill (get_value q (2 * i + 1))) level
        some (q' ∷ rest)
    ]
    else (do rest ← update_by_skill_level qs skill level; some (q ∷ rest))

-- `UpdateQuestStatusByJobLevel`: what one quest cuts off is lost for the later ones.
unfoldable update_by_job_level : List Quest → ℤ → ℤ → Option (List Quest)
update_by_job_level [] depth level = some []
update_by_job_level (q ∷ qs) depth level =
    let depth' = min_ℤ depth (get_value q 0) in
    let level' = min_ℤ level (get_value q 1) in
    let skipped = update_by_job_level qs depth level in
    let cut = update_by_job_level qs depth' level' in
    if is_related q 256 && is_job_level q.base.quest_type
    then (do
      q1 ← update_status q 0 depth'
      q2 ← update_status q1 1 level'
      rest ← cut
      some (q2 ∷ rest))
    else (do rest ← skipped; some (q ∷ rest))

parameter_step : Quest → ℕ → ℤ → ℤ → Option Quest
parameter_step q i id value =
    if eqb_ℤ (get_value q (3 * i)) id then update_status q i value else some q

unfoldable parameter_quest : Quest → ℤ → ℤ → Option Quest
unfolding parameter_step
parameter_quest q id value =
    if is_related q 512 && is_parameter q.base.quest_type
    then (do
      q0 ← parameter_step q 0 id value
      q1 ← parameter_step q0 1 id value
      parameter_step q1 2 id value)
    else some q

-- `UpdateQuestStatusByParameter`.
unfoldable update_by_parameter : List Quest → ℤ → ℤ → Option (List Quest)
update_by_parameter qs id value = for_each (λ q. parameter_quest q id value) qs
