-- ===== src/Crafting/Levels.antt =====
-- Chihiro/src/Crafting/MixManager.cpp: the levels that EnhanceItem gives, and its failures.
use rzemulator.Base.{
  ℕ, ◌≡◌, refl, subst, Bool, true, false, not, ◌||◌, Option, some, List, if◌then◌else◌, arith,
  Option-cases, Bool-cases, ◌⊎◌, inl, inr, leb,
}
use rzemulator.Base.Int.{ℤ, pos, ◌+ℤ◌, ◌-ℤ◌, ◌≤ℤ◌, eqb_ℤ, leb_ℤ, ltb_ℤ, int_laws}
use rzemulator.Crafting.{CraftItem, MixBase}
use rzemulator.Crafting.Enhance.{
  EnhanceInfo, Effect, Run, ended, faulted, endless, Outcome, get_enhance_info, proc_enhance_fail,
  is_protected, is_plain, cube_and_powder, percentage_at, item_enhance, refusal, erased, roll,
  enhance_with, enhance_item, after_fail,
}

positive : (n : ℤ) → leb_ℤ n (pos 0) ≡ false → (a : ℤ) → a +ℤ pos 1 ≤ℤ a +ℤ n
unfolding ◌+ℤ◌
positive n h a = ground arith

-- The addition that `item_enhance` chooses, before and after the test.
wanted : MixBase → (ℤ → ℤ → ℤ) → ℤ
wanted mb irand = if is_plain mb.type_ then irand (mb.value 1) (mb.value 2) else pos 1

within : (max a n : ℤ) → ltb_ℤ max (a +ℤ n) ≡ false → a +ℤ n ≤ℤ max
within max a n h = ground arith

reaches : (max a : ℤ) → a +ℤ (max -ℤ a) ≤ℤ max
reaches max a = omega int_laws

-- A positive addition stays within the limit.
item_enhance_lem :
    (mb : MixBase) (info : EnhanceInfo) (irand : ℤ → ℤ → ℤ) (a : ℤ)
    → a +ℤ item_enhance mb info irand a ≤ℤ info.max_enhance
unfolding item_enhance wanted
item_enhance_lem mb info irand a =
    elim (Bool-cases (ltb_ℤ info.max_enhance (a +ℤ wanted mb irand))) [
      | inl over ↦ rw over (reaches info.max_enhance a)
      | inr fits ↦ rw fits (within info.max_enhance a (wanted mb irand) fits)
    ]

-- What holds of an outcome, where the run has one.
abbrev pub Every : (Outcome → Type 0) → Run Outcome → Type 0
Every P (ended o) = P o
Every P faulted = true ≡ true
Every P endless = true ≡ true

pub Every-ended :
    (P : Outcome → Type 0) (r : Run Outcome) (o : Outcome) → Every P r → r ≡ ended o → P o
Every-ended P r o h e = subst (Every P) e h

abbrev Raised : EnhanceInfo → ℤ → Outcome → Type 0
Raised info a o =
    o.success ≡ true → (a +ℤ pos 1 ≤ℤ o.item.enhance) × (o.item.enhance ≤ℤ info.max_enhance)

after_fail-Raised :
    (info : EnhanceInfo) (main : CraftItem) (taken : List Effect)
    (r : Run (CraftItem × List Effect))
    → Every (Raised info main.enhance) (after_fail main taken r)
after_fail-Raised info main taken (ended r) = λ t. absurd (cc t)
after_fail-Raised info main taken faulted = refl
after_fail-Raised info main taken endless = refl

roll-Raised :
    (fuel : ℕ) (mb : MixBase) (info : EnhanceInfo) (main : CraftItem) (taken : List Effect) (n : ℤ)
    (urand chance : ℕ)
    → main.enhance +ℤ pos 1 ≤ℤ main.enhance +ℤ n
    → main.enhance +ℤ n ≤ℤ info.max_enhance
    → Every (Raised info main.enhance) (roll fuel mb info main taken n urand chance)
unfolding roll
roll-Raised fuel mb info main taken n urand chance low high = elim (Bool-cases (leb urand chance)) [
  | inl hit ↦ rw hit (λ t. (low, high))
  | inr miss ↦ rw miss (elim (Bool-cases (is_protected mb.type_)) [
    | inl p ↦ rw p (λ t. absurd (cc t))
    | inr p ↦
        rw p (after_fail-Raised info main taken (proc_enhance_fail fuel main info.fail_result))
  ])
]

or-false : (a b : Bool) → (a || b) ≡ false → b ≡ false
or-false true b e = cc
or-false false b e = e

-- A refusal, or the roll with the chance of the item's level.
abbrev pub Rolls :
    ℕ → MixBase → EnhanceInfo → CraftItem → (ℤ → ℤ → ℤ) → ℕ → CraftItem × Option CraftItem → Type 0
Rolls fuel mb info main irand urand found =
    (chance : ℕ) × (percentage_at info.percentage main.enhance ≡ some chance)
    × (leb_ℤ (item_enhance mb info irand main.enhance) (pos 0) ≡ false)
    × (enhance_with fuel mb info main irand urand found
        ≡ roll fuel mb info main (erased found) (item_enhance mb info irand main.enhance) urand
            chance)

pub enhance_with_cases :
    (fuel : ℕ) (mb : MixBase) (info : EnhanceInfo) (main : CraftItem) (irand : ℤ → ℤ → ℤ)
    (urand : ℕ) (found : CraftItem × Option CraftItem)
    → (enhance_with fuel mb info main irand urand found ≡ refusal main)
      ⊎ (enhance_with fuel mb info main irand urand found ≡ faulted)
      ⊎ Rolls fuel mb info main irand urand found
unfolding enhance_with
enhance_with_cases fuel mb info main irand urand (cube, powder) =
    elim (Bool-cases (
      not (eqb_ℤ cube.code info.need_item_code)
      || leb_ℤ (item_enhance mb info irand main.enhance) (pos 0))) [
        | inl no_use ↦ inl (rw no_use refl)
        | inr useful ↦ elim (Option-cases (percentage_at info.percentage main.enhance)) [
          | inl e ↦ inr (inl (rw (useful, e) refl))
          | inr (chance, e) ↦ inr (inr (chance, e, or-false _ _ useful, rw (useful, e) refl))
        ]
      ]

pub enhance_item_cases :
    (fuel : ℕ) (infos : List EnhanceInfo) (mb : MixBase) (info : EnhanceInfo) (main : CraftItem)
    (items : List CraftItem) (irand : ℤ → ℤ → ℤ) (urand : ℕ)
    → get_enhance_info (mb.value 0) infos ≡ some info
    → (enhance_item fuel infos mb main items irand urand ≡ faulted)
      ⊎ ((found : CraftItem × Option CraftItem) × (enhance_item fuel infos mb main items irand urand
            ≡ enhance_with fuel mb info main irand urand found))
unfolding enhance_item
enhance_item_cases fuel infos mb info main items irand urand e =
    elim (Option-cases (cube_and_powder mb.type_ items)) [
      | inl c ↦ inl (rw (enhance_item, e, c) refl)
      | inr (found, c) ↦ inr (found, rw (enhance_item, e, c) refl)
    ]

refusal-Raised :
    (info : EnhanceInfo) (main : CraftItem) → Every (Raised info main.enhance) (refusal main)
refusal-Raised info main = λ t. absurd (cc t)

enhance_with-Raised :
    (fuel : ℕ) (mb : MixBase) (info : EnhanceInfo) (main : CraftItem) (irand : ℤ → ℤ → ℤ)
    (urand : ℕ) (found : CraftItem × Option CraftItem)
    → Every (Raised info main.enhance) (enhance_with fuel mb info main irand urand found)
enhance_with-Raised fuel mb info main irand urand found =
    elim (enhance_with_cases fuel mb info main irand urand found) [
      | inl e ↦ rw e (refusal-Raised info main)
      | inr (inl e) ↦ rw e refl
      | inr (inr (chance, c, n, e)) ↦
          let added = item_enhance mb info irand main.enhance in
          rw e (
            roll-Raised fuel mb info main (erased found) added urand chance
              (positive added n main.enhance) (item_enhance_lem mb info irand main.enhance))
    ]

enhance_item-Raised :
    (fuel : ℕ) (infos : List EnhanceInfo) (mb : MixBase) (info : EnhanceInfo) (main : CraftItem)
    (items : List CraftItem) (irand : ℤ → ℤ → ℤ) (urand : ℕ)
    → get_enhance_info (mb.value 0) infos ≡ some info
    → Every (Raised info main.enhance) (enhance_item fuel infos mb main items irand urand)
enhance_item-Raised fuel infos mb info main items irand urand e =
    elim (enhance_item_cases fuel infos mb info main items irand urand e) [
      | inl f ↦ rw f refl
      | inr (found, f) ↦ rw f (enhance_with-Raised fuel mb info main irand urand found)
    ]

-- If EnhanceItem finds its EnhanceInfo and succeeds, the level rises by one at least and does not pass the
-- limit, whatever `irand` gives.
pub enhance_item_lem :
    (fuel : ℕ) (infos : List EnhanceInfo) (mb : MixBase) (info : EnhanceInfo) (main : CraftItem)
    (items : List CraftItem) (irand : ℤ → ℤ → ℤ) (urand : ℕ) (o : Outcome)
    → get_enhance_info (mb.value 0) infos ≡ some info
    → enhance_item fuel infos mb main items irand urand ≡ ended o
    → o.success ≡ true
    → (main.enhance +ℤ pos 1 ≤ℤ o.item.enhance) × (o.item.enhance ≤ℤ info.max_enhance)
enhance_item_lem fuel infos mb info main items irand urand o e run =
    Every-ended (Raised info main.enhance) (enhance_item fuel infos mb main items irand urand) o
      (enhance_item-Raised fuel infos mb info main items irand urand e) run
