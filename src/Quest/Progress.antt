-- ===== src/Quest/Progress.antt =====
-- `UpdateQuestStatusByMonsterKill` of Chihiro/src/Quests/QuestManager.cpp: the counters of kill quests.
use rzemulator.Base.{
  ℕ, ◌+◌, ◌*◌, ◌≡◌, ◌≢◌, ◌∙◌, refl, true, false, not, ◌&&◌, ◌||◌, inl, inr, some, List, [], ◌∷◌,
  ◌<◌, arith, Bool-cases,
}
use rzemulator.Base.Int.{ℤ, pos, ◌+ℤ◌, ◌≤ℤ◌, ltb_ℤ, int_laws, +ℤ_parts}
use rzemulator.Quest.{QuestType, Quest, status_at, value_at, is_finishable, finishable_as}
use rzemulator.Quest.Updates.{
  update_by_monster_kill, for_each, kill_quest, kill_switch, kill_individual_quest, is_related,
  is_pool,
}
use rzemulator.Quest.Bumped.{
  HasThree, IsWithin, bumped, status_at-bumped, HasThree-bumped, kill_total_lem,
  kill_individual_lem,
}

-- What a kill leaves of a quest.
pub record IsCounted (t : QuestType) (q q' : Quest) : Type 0 where
  pub same_base : q'.base ≡ q.base
  pub has_three : HasThree q'
  pub within : IsWithin t q'
  pub grows : (i : ℕ) → status_at q i ≤ℤ status_at q' i
  pub by_one : (i : ℕ) → status_at q' i ≤ℤ status_at q i +ℤ pos 1

unchanged-IsCounted : (t : QuestType) (q : Quest) → HasThree q → IsWithin t q → IsCounted t q q
unchanged-IsCounted t q h w = record {
  same_base = refl;
  has_three = h;
  within = w;
  grows = λ i. omega arith;
  by_one = λ i. omega int_laws;
}

bumped-IsCounted :
    (t : QuestType) (q : Quest) (i : ℕ)
    → HasThree q
    → i < 3
    → IsWithin t (bumped q i)
    → IsCounted t q (bumped q i)
bumped-IsCounted t q i h p w = record {
  same_base = unfold bumped in refl;
  has_three = HasThree-bumped q i h p;
  within = w;
  grows = λ j. ground (arith, status_at-bumped q i j h p, +ℤ_parts (status_at q i) (pos 1));
  by_one = λ j. ground (
    arith,
    status_at-bumped q i j h p,
    +ℤ_parts (status_at q i) (pos 1),
    +ℤ_parts (status_at q j) (pos 1),
  );
}

bumped-IsWithin_total :
    (q : Quest)
    → HasThree q
    → ltb_ℤ (status_at q 0) (value_at q 1) ≡ true
    → IsWithin QuestType.kill_total (bumped q 0)
bumped-IsWithin_total q h below =
    let base : value_at (bumped q 0) 1 ≡ value_at q 1 = unfold bumped in refl in
    ground (arith, base, status_at-bumped q 0 0 h, +ℤ_parts (status_at q 0) (pos 1))

value_at-bumped : (q : Quest) (i j : ℕ) → value_at (bumped q i) j ≡ value_at q j
unfolding bumped
value_at-bumped q i j = refl

-- A counter that was below its target `v` is not past it after one more.
below_bumped :
    (q : Quest) (i j : ℕ) (v : ℤ)
    → HasThree q
    → i < 3
    → status_at q j ≤ℤ v
    → (i ≡ j → ltb_ℤ (status_at q i) v ≡ true)
    → status_at (bumped q i) j ≤ℤ v
below_bumped q i j v h p w below =
    ground (arith, status_at-bumped q i j h p, +ℤ_parts (status_at q i) (pos 1))

bumped-IsWithin_individual :
    (q : Quest) (i : ℕ)
    → HasThree q
    → i < 3
    → IsWithin QuestType.kill_individual q
    → ltb_ℤ (status_at q i) (value_at q (2 * i + 1)) ≡ true
    → IsWithin QuestType.kill_individual (bumped q i)
bumped-IsWithin_individual q i h p w below = (
  rw (value_at-bumped q i 1) (below_bumped q i 0 _ h p w.0 (λ e. ground arith)),
  rw (value_at-bumped q i 3) (below_bumped q i 1 _ h p w.1 (λ e. ground arith)),
  rw (value_at-bumped q i 5) (below_bumped q i 2 _ h p w.2 (λ e. ground arith)),
)

kill_individual-IsCounted :
    (q : Quest) (monster : ℤ)
    → HasThree q
    → IsWithin QuestType.kill_individual q
    → (q' : Quest) × (kill_individual_quest q monster ≡ some q')
      × IsCounted QuestType.kill_individual q q'
kill_individual-IsCounted q monster h w =
    let hit =
      λ (i : ℕ). is_pool q (2 * i) monster && ltb_ℤ (status_at q i) (value_at q (2 * i + 1)) in
    let bump = λ (i : ℕ) (p : i < 3) (e : hit i ≡ true).
      bumped-IsCounted QuestType.kill_individual q i h p
        (bumped-IsWithin_individual q i h p w (ground arith)) in
    elim (Bool-cases (hit 0)) [
      | inl e0 ↦ (bumped q 0, kill_individual_lem q monster h ∙ rw e0 refl, bump 0 (omega arith) e0)
      | inr n0 ↦ elim (Bool-cases (hit 1)) [
        | inl e1 ↦ (
          bumped q 1,
          kill_individual_lem q monster h ∙ rw (n0, e1) refl,
          bump 1 (omega arith) e1,
        )
        | inr n1 ↦ elim (Bool-cases (hit 2)) [
          | inl e2 ↦ (
            bumped q 2,
            kill_individual_lem q monster h ∙ rw (n0, n1, e2) refl,
            bump 2 (omega arith) e2,
          )
          | inr n2 ↦ (
            q,
            kill_individual_lem q monster h ∙ rw (n0, n1, n2) refl,
            unchanged-IsCounted QuestType.kill_individual q h w,
          )
        ]
      ]
    ]

kill_switch-IsCounted :
    (t : QuestType) (q : Quest) (monster : ℤ)
    → t ≢ QuestType.random_kill_individual
    → HasThree q
    → IsWithin t q
    → finishable_as t q ≡ false
    → (q' : Quest) × (kill_switch t q monster ≡ some q') × IsCounted t q q'
unfolding kill_switch
kill_switch-IsCounted QuestType.kill_total q monster ne h w f =
    let open_quest : ltb_ℤ (status_at q 0) (value_at q 1) ≡ true =
      unfold finishable_as in ground arith in
    elim (Bool-cases (
      is_pool q 0 monster
      || is_pool q 2 monster
      || (is_pool q 4 monster && ltb_ℤ (status_at q 0) (value_at q 1)))) [
        | inl hit ↦ (
          bumped q 0,
          kill_total_lem q monster h ∙ rw hit refl,
          bumped-IsCounted QuestType.kill_total q 0 h (omega arith)
              (bumped-IsWithin_total q h open_quest),
        )
        | inr miss ↦ (
          q,
          kill_total_lem q monster h ∙ rw miss refl,
          unchanged-IsCounted QuestType.kill_total q h w,
        )
      ]
kill_switch-IsCounted QuestType.kill_individual q monster ne h w f =
    let (q', e, counted) = kill_individual-IsCounted q monster h w in (q', e, counted)
kill_switch-IsCounted QuestType.random_kill_individual q monster ne h w f = absurd (ne refl)
kill_switch-IsCounted t q monster ne h w f = (q, refl, unchanged-IsCounted t q h w)

-- A quest as the loops may meet it: three counters, none past its target, and no random kill quest.
pub record IsKillable (q : Quest) : Type 0 where
  pub not_random : q.base.quest_type ≢ QuestType.random_kill_individual
  pub has_three : HasThree q
  pub within : IsWithin q.base.quest_type q

kill_quest-IsCounted :
    (q : Quest) (monster : ℤ)
    → IsKillable q
    → (q' : Quest) × (kill_quest q monster ≡ some q') × IsCounted q.base.quest_type q q'
unfolding kill_quest
kill_quest-IsCounted q monster k = elim (Bool-cases (is_related q 1030 && not (is_finishable q))) [
  | inl goes ↦
      let f : finishable_as q.base.quest_type q ≡ false = unfold is_finishable in ground arith in
      rw goes
        (kill_switch-IsCounted q.base.quest_type q monster k.not_random k.has_three k.within f)
  | inr stays ↦ (q, rw stays refl, unchanged-IsCounted q.base.quest_type q k.has_three k.within)
]

abbrev pub AllKillable : List Quest → Type 0
AllKillable [] = Unit {0}
AllKillable (q ∷ qs) = IsKillable q × AllKillable qs

abbrev pub AllCounted : List Quest → List Quest → Type 0
AllCounted [] [] = Unit {0}
AllCounted [] (q' ∷ qs') = ⊥
AllCounted (q ∷ qs) [] = ⊥
AllCounted (q ∷ qs) (q' ∷ qs') = IsCounted q.base.quest_type q q' × AllCounted qs qs'

-- Where every active quest has three counters, none past its target in a kill quest, and none is a random
-- kill quest, a kill reads nothing behind an array. Quest by quest it keeps the base and the three counters,
-- moves every counter by one at most and never down, and leaves no counter of a kill quest past its target.
pub update_by_monster_kill-AllCounted :
    (qs : List Quest) (monster : ℤ)
    → AllKillable qs
    → (qs' : List Quest) × (update_by_monster_kill qs monster ≡ some qs') × AllCounted qs qs'
unfolding update_by_monster_kill for_each
update_by_monster_kill-AllCounted [] monster ks = ([], refl, tt)
update_by_monster_kill-AllCounted (q ∷ qs) monster (k, ks) =
    let (q', e, c) = kill_quest-IsCounted q monster k in
    let (qs', es, cs) = update_by_monster_kill-AllCounted qs monster ks in
    (q' ∷ qs', rw (e, es), (c, cs))
