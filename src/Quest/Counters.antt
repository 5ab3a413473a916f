-- ===== src/Quest/Counters.antt =====
-- `UpdateQuestStatusByItemCount` of Chihiro/src/Quests/QuestManager.cpp.
use rzemulator.Base.{
  ℕ, zero, suc, ◌+◌, ◌*◌, ◌<◌, ◌≤◌, ◌≡◌, ◌≢◌, refl, Bool, true, false, Option, none, some, List, [],
  ◌∷◌, if◌then◌else◌, arith, Bool-cases, Option-cases, inl, inr,
}
use rzemulator.Base.Int.{ℤ, eqb_ℤ}
use rzemulator.Quest.{
  Quest, QuestBase, QuestType, with_status, get_value, update_status, is_random_quest,
  check_quest_type_flag,
}
use rzemulator.Quest.Updates.{
  count_item, update_by_item_count, is_related_by_item, is_related, min_ℤ, item_matches,
}
use rzemulator.Quest.Manager.{wants_three, wants_six}
use rzemulator.Quest.Bumped.{HasThree, get_elem?-status}

pub update_status_lem :
    (q : Quest) (i : ℕ) (v : ℤ)
    → HasThree q
    → i < 3
    → update_status q i v ≡ some (with_status q i v)
unfolding update_status
update_status_lem q i v h p = ground (arith, get_elem?-status q i h p)

-- The first of the counters from `i` whose item this is, `left` of them at most.
abbrev pub slot_from : Quest → ℤ → ℕ → ℕ → Option ℕ
slot_from q code i zero = none
slot_from q code i (suc left) =
    let rest = slot_from q code (i + 1) left in
    if eqb_ℤ (get_value q (2 * i)) code then some i else rest

-- A counter holds the number of items, no more than its target.
abbrev pub counted : Quest → ℤ → ℕ → Quest
counted q count i = with_status q i (min_ℤ count (get_value q (2 * i + 1)))

abbrev slot_result : Quest → ℤ → Option ℕ → Option (Option Quest)
slot_result q count none = some none
slot_result q count (some i) = some (some (counted q count i))

count_item_lem :
    (q : Quest) (code count : ℤ) (i left : ℕ)
    → HasThree q
    → i + left ≤ 3
    → count_item q code count i left ≡ slot_result q count (slot_from q code i left)
unfolding count_item
count_item_lem q code count i zero h p = refl
count_item_lem q code count i (suc left) h p =
    let ih = count_item_lem q code count (i + 1) left h (omega arith) in
    let here = update_status_lem q i (min_ℤ count (get_value q (2 * i + 1))) h (omega arith) in
    elim (Bool-cases (eqb_ℤ (get_value q (2 * i)) code)) [
      | inl y ↦ rw (y, here) refl
      | inr ne ↦ rw ne ih
    ]

-- The counter of an unfinished item quest that a count of an item goes to.
unfoldable pub slot_for : Quest → ℤ → Option ℕ
slot_for q code = if is_related q 6168 then slot_from q code 0 3 else none

abbrev pub taken : Quest → List Quest → List Quest → ℤ → Option ℕ → List Quest
taken q qs rest count (some i) = counted q count i ∷ qs
taken q qs rest count none = q ∷ rest

-- The first quest that has a counter for the item takes the count; the others stay.
abbrev pub after_items : List Quest → ℤ → ℤ → List Quest
after_items [] code count = []
after_items (q ∷ qs) code count =
    let rest = after_items qs code count in taken q qs rest count (slot_for q code)

-- Three counters, and no random quest, by the table or by its own type.
abbrev pub IsPlain : (ℤ → Option QuestBase) → Quest → Type 0
IsPlain get_base q =
    (is_random_quest get_base q.base.code ≡ false)
    × HasThree q
    × (q.base.quest_type ≢ QuestType.random_collect)

abbrev pub AllPlain : (ℤ → Option QuestBase) → List Quest → Type 0
AllPlain get_base [] = Unit {0}
AllPlain get_base (q ∷ qs) = IsPlain get_base q × AllPlain get_base qs

-- The choice of `GetRelatedQuestByItem` has every quest that a counter is found in.
item_matches_lem :
    (t : QuestType) (q : Quest) (code : ℤ)
    → t ≢ QuestType.random_collect
    → check_quest_type_flag t 6168 ≡ true
    → (b : Bool) × (item_matches t q code ≡ some b) × (b ≡ false → slot_from q code 0 3 ≡ none)
unfolding item_matches check_quest_type_flag
item_matches_lem QuestType.hunt_item q code ne e = (wants_three q code, refl, λ f. ground arith)
item_matches_lem QuestType.hunt_item_from_any_monsters q code ne e =
    (wants_three q code, refl, λ f. ground arith)
item_matches_lem QuestType.collect q code ne e = (wants_six q code, refl, λ f. ground arith)
item_matches_lem QuestType.random_collect q code ne e = absurd (ne refl)
item_matches_lem QuestType.misc q code ne e = absurd (ground arith)
item_matches_lem QuestType.kill_total q code ne e = absurd (ground arith)
item_matches_lem QuestType.kill_individual q code ne e = absurd (ground arith)
item_matches_lem QuestType.learn_skill q code ne e = absurd (ground arith)
item_matches_lem QuestType.upgrade_item q code ne e = absurd (ground arith)
item_matches_lem QuestType.contact q code ne e = absurd (ground arith)
item_matches_lem QuestType.job_level q code ne e = absurd (ground arith)
item_matches_lem QuestType.parameter q code ne e = absurd (ground arith)
item_matches_lem QuestType.random_kill_individual q code ne e = absurd (ground arith)
item_matches_lem QuestType.end_via_script q code ne e = absurd (ground arith)

is_related_by_item_lem :
    (q : Quest) (code : ℤ)
    → q.base.quest_type ≢ QuestType.random_collect
    → (b : Bool) × (is_related_by_item q code 6168 ≡ some b)
      × (slot_for q code ≡ (if b then slot_from q code 0 3 else none))
unfolding is_related_by_item slot_for
is_related_by_item_lem q code ne = elim (Bool-cases (is_related q 6168)) [
  | inl y ↦
      let (b, e, only) = item_matches_lem q.base.quest_type q code ne (ground arith) in
      (b, rw y e, ground (arith, y, only))
  | inr other ↦ (false, rw other refl, rw other refl)
]

-- With no random quest among quests of three counters, a count of an item reads nothing behind an array,
-- sets the first counter for the item in the first unfinished item quest that has one to the count, at
-- most the target, and changes nothing else.
pub update_by_item_count_lem :
    (get_base : ℤ → Option QuestBase) (qs : List Quest) (code count : ℤ)
    → AllPlain get_base qs
    → update_by_item_count get_base qs code count ≡ some (after_items qs code count)
unfolding update_by_item_count
update_by_item_count_lem get_base [] code count n = refl
update_by_item_count_lem get_base (q ∷ qs) code count ((nr, h, ne), n) =
    let ih = update_by_item_count_lem get_base qs code count n in
    let step = count_item_lem q code count 0 3 h (omega arith) in
    let (b, related, only) = is_related_by_item_lem q code ne in
    elim (Bool-cases b) [
      | inl y ↦
          let slot : slot_for q code ≡ slot_from q code 0 3 = ground (arith, only, y) in
          elim (Option-cases (slot_from q code 0 3)) [
            | inl miss ↦ rw (related, y, nr, step, after_items, slot, miss, ih) refl
            | inr (i, hit) ↦ rw (related, y, nr, step, after_items, slot, hit) refl
          ]
      | inr off ↦
          let slot : slot_for q code ≡ none = ground (arith, only, off) in
          rw (related, off, after_items, slot, ih) refl
    ]
