-- ===== src/Quest/Bumped.antt =====
-- `Quest::IncStatus` on a quest with three counters, as the kill loops of QuestManager.cpp call it.
use rzemulator.Base.{
  ℕ, ◌≡◌, ◌&&◌, ◌||◌, some, [], ◌∷◌, get_elem?, if◌then◌else◌, zero, suc, ◌<◌, ◌==◌, arith,
  get_or-set,
}
use rzemulator.Base.Int.{ℤ, pos, ◌+ℤ◌, ◌≤ℤ◌, ltb_ℤ}
use rzemulator.Quest.{QuestType, Quest, get_status, status_at, value_at, inc_status, with_status}
use rzemulator.Quest.Updates.{kill_total_quest, kill_individual_quest, is_below, is_pool}

-- Three counters, as the array of the source has.
pub record HasThree (q : Quest) : Type 0 where
  pub a : ℤ
  pub b : ℤ
  pub c : ℤ
  pub three : q.instance_.status ≡ a ∷ b ∷ c ∷ []

-- No counter of a kill quest is past its target.
abbrev pub IsWithin : QuestType → Quest → Type 0
IsWithin QuestType.kill_total q = status_at q 0 ≤ℤ value_at q 1
IsWithin QuestType.kill_individual q =
    (status_at q 0 ≤ℤ value_at q 1)
    × (status_at q 1 ≤ℤ value_at q 3)
    × (status_at q 2 ≤ℤ value_at q 5)
IsWithin _ q = Unit {0}

unfoldable pub bumped : Quest → ℕ → Quest
bumped q i = with_status q i (status_at q i +ℤ pos 1)

pub get_elem?-status :
    (q : Quest) (i : ℕ) → HasThree q → i < 3 → get_elem? q.instance_.status i ≡ some (status_at q i)
get_elem?-status q zero h p = ground arith
get_elem?-status q (suc zero) h p = ground arith
get_elem?-status q (suc (suc zero)) h p = ground arith
get_elem?-status q (suc (suc (suc i))) h p = absurd (omega arith)

pub inc_status_lem :
    (q : Quest) (i : ℕ) → HasThree q → i < 3 → inc_status q i (pos 1) ≡ some (bumped q i)
unfolding inc_status bumped
inc_status_lem q i h p = ground (arith, get_elem?-status q i h p)

pub is_below_lem :
    (q : Quest) (i : ℕ) (t : ℤ)
    → HasThree q
    → i < 3
    → is_below q i t ≡ some (ltb_ℤ (status_at q i) t)
unfolding is_below get_status
is_below_lem q i t h p = ground (arith, get_elem?-status q i h p)

pub status_at-bumped :
    (q : Quest) (i j : ℕ)
    → HasThree q
    → i < 3
    → status_at (bumped q i) j ≡ (if i == j then status_at q i +ℤ pos 1 else status_at q j)
unfolding bumped
status_at-bumped q i j h p =
    get_or-set q.instance_.status i j (status_at q i +ℤ pos 1) (pos 0) (ground (arith, h.three))

pub HasThree-bumped : (q : Quest) (i : ℕ) → HasThree q → i < 3 → HasThree (bumped q i)
unfolding bumped
HasThree-bumped q zero h p = record { a = h.a +ℤ pos 1; b = h.b; c = h.c; three = ground arith }
HasThree-bumped q (suc zero) h p = record {
  a = h.a;
  b = h.b +ℤ pos 1;
  c = h.c;
  three = ground arith;
}
HasThree-bumped q (suc (suc zero)) h p = record {
  a = h.a;
  b = h.b;
  c = h.c +ℤ pos 1;
  three = ground arith;
}
HasThree-bumped q (suc (suc (suc i))) h p = absurd (omega arith)

pub kill_total_lem :
    (q : Quest) (monster : ℤ)
    → HasThree q
    → kill_total_quest q monster
      ≡ some (
          if is_pool q 0 monster
            || is_pool q 2 monster
            || (is_pool q 4 monster && ltb_ℤ (status_at q 0) (value_at q 1))
          then bumped q 0
          else q)
unfolding kill_total_quest
kill_total_lem q monster h = ground (arith, is_below_lem q 0 (value_at q 1) h, inc_status_lem q 0 h)

pub kill_individual_lem :
    (q : Quest) (monster : ℤ)
    → HasThree q
    → kill_individual_quest q monster
      ≡ some (
          if is_pool q 0 monster && ltb_ℤ (status_at q 0) (value_at q 1)
          then bumped q 0
          else if is_pool q 2 monster && ltb_ℤ (status_at q 1) (value_at q 3)
          then bumped q 1
          else if is_pool q 4 monster && ltb_ℤ (status_at q 2) (value_at q 5)
          then bumped q 2
          else q)
unfolding kill_individual_quest
kill_individual_lem q monster h = ground (
  arith,
  is_below_lem q 0 (value_at q 1) h,
  is_below_lem q 1 (value_at q 3) h,
  is_below_lem q 2 (value_at q 5) h,
  inc_status_lem q 0 h,
  inc_status_lem q 1 h,
  inc_status_lem q 2 h,
)
