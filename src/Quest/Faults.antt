-- ===== src/Quest/Faults.antt =====
-- The counting functions of Chihiro/src/Quests/QuestManager.cpp, at their array accesses
-- and comparisons.
use rzemulator.Base.{
  ℕ, zero, suc, ◌<◌, ◌≤◌, ◌≡◌, refl, true, false, ◌&&◌, ◌||◌, Option, none, some, List, [], ◌∷◌,
  length, get_elem?, if◌then◌else◌, arith, Bool-cases, inl, inr,
}
use rzemulator.Base.Int.{ℤ, ltb_ℤ, eqb_ℤ}
use rzemulator.Quest.{
  Quest, QuestBase, with_status, status_at, is_random_quest, get_random_key, get_random_value,
  is_finishable_progress,
}
use rzemulator.Quest.Updates.{
  count_random_item, update_by_item_count, is_related_by_item, kill_random_quest, skill_slot,
  update_by_skill_level, is_learn_skill,
}
use rzemulator.Quest.Bumped.{HasThree, bumped, inc_status_lem, is_below_lem}
use rzemulator.Quest.Counters.{update_status_lem}

get_elem?-short : (ks : List ℤ) (i : ℕ) → length ks ≤ i → get_elem? ks i ≡ none
get_elem?-short [] i h = refl
get_elem?-short (k ∷ ks) zero h = absurd (omega arith)
get_elem?-short (k ∷ ks) (suc i) h = get_elem?-short ks i (omega arith)

-- With three random keys, as the array has, a count of an item reads behind the array as soon as the first
-- active quest is random and related to the item.
pub random_item_faults :
    (get_base : ℤ → Option QuestBase) (q : Quest) (qs : List Quest) (code count : ℤ)
    → length q.instance_.random_key ≡ 3
    → is_random_quest get_base q.base.code ≡ true
    → is_related_by_item q code 6168 ≡ some true
    → update_by_item_count get_base (q ∷ qs) code count ≡ none
unfolding update_by_item_count count_random_item get_random_key
random_item_faults get_base q qs code count three random related =
    let outside = get_elem?-short q.instance_.random_key 6 (omega (arith, three)) in
    rw (related, random, outside) refl

-- With three counters, three random keys and values, a random kill quest counts a kill in its first counter
-- whichever of its three monsters it was, tests the second counter for the third monster too, and moves
-- no other counter.
pub kill_random_lem :
    (q : Quest) (monster k0 k1 k2 v0 v1 v2 : ℤ)
    → HasThree q
    → q.instance_.random_key ≡ k0 ∷ k1 ∷ k2 ∷ []
    → q.instance_.random_value ≡ v0 ∷ v1 ∷ v2 ∷ []
    → kill_random_quest q monster
      ≡ some (
          if (eqb_ℤ k0 monster && ltb_ℤ (status_at q 0) v0)
            || (eqb_ℤ k1 monster && ltb_ℤ (status_at q 1) v1)
            || (eqb_ℤ k2 monster && ltb_ℤ (status_at q 1) v2)
          then bumped q 0
          else q)
unfolding kill_random_quest get_random_key get_random_value
kill_random_lem q monster k0 k1 k2 v0 v1 v2 h ek ev =
    let hit =
      (eqb_ℤ k0 monster && ltb_ℤ (status_at q 0) v0)
      || (eqb_ℤ k1 monster && ltb_ℤ (status_at q 1) v1)
      || (eqb_ℤ k2 monster && ltb_ℤ (status_at q 1) v2) in
    let b0 = is_below_lem q 0 v0 h (omega arith) in
    let b1 = is_below_lem q 1 v1 h (omega arith) in
    let b2 = is_below_lem q 1 v2 h (omega arith) in
    elim (Bool-cases hit) [
      | inl y ↦ simp (ek, ev, b0, b1, b2, y, inc_status_lem q 0 h (omega arith))
      | inr ne ↦ simp (ek, ev, b0, b1, b2, ne)
    ]

skill_slot_below : (q : Quest) (skill : ℤ) (i : ℕ) → skill_slot q skill ≡ some i → i < 3
unfolding skill_slot
skill_slot_below q skill i e = ground arith

-- A learnt level goes into the counter of the first quest uncut: even a level above the target of that
-- quest is stored as it is.
pub skill_level_uncut :
    (q : Quest) (skill level : ℤ) (i : ℕ)
    → HasThree q
    → is_finishable_progress q.instance_.progress ≡ false
    → is_learn_skill q.base.quest_type ≡ true
    → skill_slot q skill ≡ some i
    → update_by_skill_level (q ∷ []) skill level ≡ some (with_status q i level ∷ [])
unfolding update_by_skill_level
skill_level_uncut q skill level i h open_ learn slot =
    let below = skill_slot_below q skill i slot in
    rw (open_, learn, slot, update_status_lem q i level h below) refl
