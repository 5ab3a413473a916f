-- ===== src/Crafting/Failures.antt =====
-- Chihiro/src/Crafting/MixManager.cpp: enhancements that fail.
use rzemulator.Base.{
  ℕ, zero, suc, ◌<◌, ◌≡◌, ◌≢◌, refl, ap, ◌∙◌, true, false, Option, none, some, List, ◌∷◌, arith,
  Option-cases, Bool-cases, ◌⊎◌, inl, inr, leb,
}
use rzemulator.Base.Int.{ℤ, pos, negsuc, ◌-ℤ◌, eqb_ℤ, leb_ℤ, int_laws, eq_of_parts}
use rzemulator.Crafting.{CraftItem, MixBase}
use rzemulator.Crafting.Enhance.{
  EnhanceInfo, Effect, ended, faulted, endless, Outcome, get_enhance_info, set_sockets,
  proc_enhance_fail, is_protected, cube_and_powder, percentage_at, item_enhance, refusal, erased,
  roll, enhance_with, enhance_item,
}
use rzemulator.Crafting.Levels.{Every, Every-ended, enhance_with_cases, enhance_item_cases}

set_sockets-endless : (fuel : ℕ) → set_sockets fuel ≡ endless
unfolding set_sockets
set_sockets-endless zero = refl
set_sockets-endless (suc fuel) = set_sockets-endless fuel

proc_enhance_fail-endless :
    (fuel : ℕ) (it : CraftItem) (r : ℤ)
    → (r ≡ pos 0) ⊎ (r ≡ pos 1)
    → proc_enhance_fail fuel it r ≡ endless
unfolding proc_enhance_fail
proc_enhance_fail-endless fuel it r (inl e) = rw (e, set_sockets-endless fuel) refl
proc_enhance_fail-endless fuel it r (inr e) = rw (e, set_sockets-endless fuel) refl

missed : (a b : ℕ) → b < a → leb a b ≡ false
missed a b h = ground arith

-- If the operation is not the protected one, its EnhanceInfo asks for the first of the other items and breaks an
-- item that fails, the addition is positive and the roll misses the chance of the level, then no fuel ends
-- EnhanceItem.
pub fail_never_ends :
    (fuel : ℕ) (infos : List EnhanceInfo) (mb : MixBase) (info : EnhanceInfo)
    (main cube : CraftItem) (rest : List CraftItem) (irand : ℤ → ℤ → ℤ) (urand chance : ℕ)
    → get_enhance_info (mb.value 0) infos ≡ some info
    → is_protected mb.type_ ≡ false
    → eqb_ℤ cube.code info.need_item_code ≡ true
    → (info.fail_result ≡ pos 0) ⊎ (info.fail_result ≡ pos 1)
    → leb_ℤ (item_enhance mb info irand main.enhance) (pos 0) ≡ false
    → percentage_at info.percentage main.enhance ≡ some chance
    → chance < urand
    → enhance_item fuel infos mb main (cube ∷ rest) irand urand ≡ endless
unfolding enhance_item enhance_with cube_and_powder roll
fail_never_ends fuel infos mb info main cube rest irand urand chance e p c f n at miss =
    rw
      (
        enhance_item,
        e,
        p,
        c,
        n,
        at,
        missed urand chance miss,
        proc_enhance_fail-endless fuel main info.fail_result f,
        p,
      )
      refl

-- What a protected enhancement does to the level.
abbrev Settles : CraftItem → Outcome → Type 0
Settles main o = (o.item ≡ main) ⊎ ((o.success ≡ true) ⊎ (o.item.enhance ≡ main.enhance -ℤ pos 1))

roll-Settles :
    (fuel : ℕ) (mb : MixBase) (info : EnhanceInfo) (main : CraftItem) (taken : List Effect) (n : ℤ)
    (urand chance : ℕ)
    → is_protected mb.type_ ≡ true
    → Every (Settles main) (roll fuel mb info main taken n urand chance)
unfolding roll
roll-Settles fuel mb info main taken n urand chance p = elim (Bool-cases (leb urand chance)) [
  | inl hit ↦ rw hit (inr (inl refl))
  | inr miss ↦ rw (miss, p) (inr (inr refl))
]

refusal_lem :
    (fuel : ℕ) (infos : List EnhanceInfo) (mb : MixBase) (main : CraftItem) (items : List CraftItem)
    (irand : ℤ → ℤ → ℤ) (urand : ℕ)
    → get_enhance_info (mb.value 0) infos ≡ none
    → enhance_item fuel infos mb main items irand urand ≡ refusal main
unfolding enhance_item
refusal_lem fuel infos mb main items irand urand e = rw (enhance_item, e) refl

enhance_with-Settles :
    (fuel : ℕ) (mb : MixBase) (info : EnhanceInfo) (main : CraftItem) (irand : ℤ → ℤ → ℤ)
    (urand : ℕ) (found : CraftItem × Option CraftItem)
    → is_protected mb.type_ ≡ true
    → Every (Settles main) (enhance_with fuel mb info main irand urand found)
enhance_with-Settles fuel mb info main irand urand found p =
    elim (enhance_with_cases fuel mb info main irand urand found) [
      | inl e ↦ rw e (inl refl)
      | inr (inl e) ↦ rw e refl
      | inr (inr (chance, c, n, e)) ↦ rw e (
          roll-Settles fuel mb info main (erased found) (item_enhance mb info irand main.enhance)
            urand chance p)
    ]

enhance_item-Settles :
    (fuel : ℕ) (infos : List EnhanceInfo) (mb : MixBase) (main : CraftItem) (items : List CraftItem)
    (irand : ℤ → ℤ → ℤ) (urand : ℕ)
    → is_protected mb.type_ ≡ true
    → Every (Settles main) (enhance_item fuel infos mb main items irand urand)
enhance_item-Settles fuel infos mb main items irand urand p =
    elim (Option-cases (get_enhance_info (mb.value 0) infos)) [
      | inl missing ↦ rw (refusal_lem fuel infos mb main items irand urand missing) (inl refl)
      | inr (info, e) ↦ elim (enhance_item_cases fuel infos mb info main items irand urand e) [
        | inl f ↦ rw f refl
        | inr (found, f) ↦ rw f (enhance_with-Settles fuel mb info main irand urand found p)
      ]
    ]

-- No entry of `fPercentage` belongs to a level below zero.
enhance_item-negative :
    (fuel : ℕ) (infos : List EnhanceInfo) (mb : MixBase) (main : CraftItem) (items : List CraftItem)
    (irand : ℤ → ℤ → ℤ) (urand : ℕ)
    → main.enhance ≡ negsuc 0
    → (enhance_item fuel infos mb main items irand urand ≡ refusal main)
      ⊎ (enhance_item fuel infos mb main items irand urand ≡ faulted)
enhance_item-negative fuel infos mb main items irand urand below =
    elim (Option-cases (get_enhance_info (mb.value 0) infos)) [
      | inl missing ↦ inl (refusal_lem fuel infos mb main items irand urand missing)
      | inr (info, e) ↦ elim (enhance_item_cases fuel infos mb info main items irand urand e) [
        | inl f ↦ inr f
        | inr (found, f) ↦ elim (enhance_with_cases fuel mb info main irand urand found) [
          | inl g ↦ inl (f ∙ g)
          | inr (inl g) ↦ inr (f ∙ g)
          | inr (inr (chance, at, n, g)) ↦
              absurd (cc (ap (percentage_at info.percentage) below, at))
        ]
      ]
    ]

pub below_zero : (a : ℤ) → a ≡ pos 0 → a -ℤ pos 1 ≡ negsuc 0
below_zero a e = rw e (eq_of_parts (pos 0 -ℤ pos 1) (negsuc 0) (omega int_laws))

-- If a protected enhancement of an item of level 0 ends without success and changes the item, then every
-- later enhancement of the item is refused, or reads in front of `fPercentage`.
pub protected_then_faults :
    (fuel : ℕ) (infos : List EnhanceInfo) (mb : MixBase) (main : CraftItem) (items : List CraftItem)
    (irand : ℤ → ℤ → ℤ) (urand : ℕ) (o : Outcome)
    → is_protected mb.type_ ≡ true
    → main.enhance ≡ pos 0
    → enhance_item fuel infos mb main items irand urand ≡ ended o
    → o.success ≡ false
    → o.item ≢ main
    → (fuel' : ℕ) (infos' : List EnhanceInfo) (mb' : MixBase) (items' : List CraftItem)
      (irand' : ℤ → ℤ → ℤ) (urand' : ℕ)
    → (enhance_item fuel' infos' mb' o.item items' irand' urand' ≡ refusal o.item)
      ⊎ (enhance_item fuel' infos' mb' o.item items' irand' urand' ≡ faulted)
protected_then_faults fuel infos mb main items irand urand o p zero_ run fails changed fuel' infos'
      mb' items' irand' urand' =
    elim (Every-ended (Settles main) (enhance_item fuel infos mb main items irand urand) o
      (enhance_item-Settles fuel infos mb main items irand urand p) run) [
        | inl same ↦ absurd (changed same)
        | inr (inl t) ↦ absurd (cc (t, fails))
        | inr (inr e) ↦
            enhance_item-negative fuel' infos' mb' o.item items' irand' urand'
              (e ∙ below_zero main.enhance zero_)
      ]
