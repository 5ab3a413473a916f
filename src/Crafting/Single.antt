-- ===== src/Crafting/Single.antt =====
-- Chihiro/src/Crafting/MixManager.cpp: the counts that GetProperMixInfo leaves with its caller, and what MixItem then
-- takes of each item.
use rzemulator.Base.{
  ℕ, zero, suc, ◌≤◌, ◌≡◌, refl, sym, ap, ◌∙◌, Bool, true, false, Option, none, some, List, [], ◌∷◌,
  length, arith, Option-cases, Bool-cases, ◌⊎◌, inl, inr, ◌==◌,
}
use rzemulator.Crafting.{
  CraftItem, MaterialInfo, MixBase, check_material_info, Slot, slots_of, counts_of, find_slot,
  arrange, cons_slot, after_arrange, try_mix_info, get_proper_mix_info,
}
use rzemulator.Crafting.Enhance.{Effect, erase, erase_all}
use rzemulator.Crafting.Arrange.{
  all_own, chosen, arrange_found, arrange_stuck, arrange_own, arrange_other,
}

-- The length of the arrays stays.
find_slot-length :
    (ss : List Slot) (t : Slot) (ss' : List Slot)
    → find_slot ss ≡ some (t, ss')
    → length ss' ≡ length ss
unfolding find_slot
find_slot-length [] t ss' e = cc
find_slot-length (s ∷ ss) t ss' e = elim (Option-cases (find_slot ss)) [
  | inl none_left ↦ ground (arith, none_left)
  | inr ((u, us), later) ↦ ground (arith, later, find_slot-length ss u us later)
]

length-cons_slot :
    (t : Slot) (r : List Slot × Option (List Slot)) → length (cons_slot t r).0 ≡ length r.0
length-cons_slot t (out, none) = refl
length-cons_slot t (out, some picked) = refl

length-arrange : (n : ℕ) (ss : List Slot) → length (arrange n ss).0 ≡ length ss
unfolding arrange
length-arrange zero ss = refl
length-arrange (suc n) ss = elim (Option-cases (find_slot ss)) [
  | inl e ↦ ap (λ r. length r.0) (arrange_stuck n ss e)
  | inr ((t, ss'), e) ↦
      ap (λ r. length r.0) (arrange_found n ss t ss' e)
      ∙ length-cons_slot t (arrange n ss')
      ∙ length-arrange n ss'
      ∙ find_slot-length ss t ss' e
]

after_arrange-counts :
    (mb : MixBase) (main : Option CraftItem) (n : ℕ) (cs : List ℕ) (picked : Option (List Slot))
    (cs' : List ℕ) (b : Bool)
    → after_arrange mb main n cs picked ≡ some (cs', b)
    → (cs' ≡ cs) × (picked ≡ none → b ≡ false)
unfolding after_arrange
after_arrange-counts mb main n cs none cs' b e = ground arith
after_arrange-counts mb main n cs (some picked) cs' b e = ground arith

length-counts_of : (ss : List Slot) → length (counts_of ss) ≡ length ss
length-counts_of [] = refl
length-counts_of (s ∷ ss) = ap suc (length-counts_of ss)

length-slots_of :
    (ms : List MaterialInfo) (its : List CraftItem) (cs : List ℕ)
    → length its ≡ length cs
    → length its ≤ length ms
    → length (slots_of ms its cs) ≡ length its
unfolding slots_of
length-slots_of [] [] cs h k = refl
length-slots_of (m ∷ ms) [] cs h k = refl
length-slots_of [] (it ∷ its) cs h k = absurd (omega arith)
length-slots_of (m ∷ ms) (it ∷ its) [] h k = absurd (omega arith)
length-slots_of (m ∷ ms) (it ∷ its) (c ∷ cs) h k =
    ap suc (length-slots_of ms its cs (omega arith) (omega arith))

-- The loops, and then the checks after them.
abbrev tried : MixBase → Option CraftItem → List CraftItem → List ℕ → Option (List ℕ × Bool)
tried mb main its cs =
    let r = arrange (length its) (slots_of mb.sub_material its cs) in
    after_arrange mb main (length its) (counts_of r.0) r.1

abbrev Leaves : MixBase → List CraftItem → List ℕ → Bool → Type 0
Leaves mb its cs' b =
    (length cs' ≡ length its) × (b ≡ true → cs' ≡ counts_of (chosen mb.sub_material its))

tried-counts :
    (mb : MixBase) (main : Option CraftItem) (its : List CraftItem) (cs cs' : List ℕ) (b : Bool)
    → length its ≡ length cs
    → length its ≤ length mb.sub_material
    → tried mb main its cs ≡ some (cs', b)
    → Leaves mb its cs' b
tried-counts mb main its cs cs' b h k e =
    let r = arrange (length its) (slots_of mb.sub_material its cs) in
    let (same, misses) = after_arrange-counts mb main (length its) (counts_of r.0) r.1 cs' b e in
    (
      ap length same
          ∙ length-counts_of r.0
          ∙ length-arrange (length its) (slots_of mb.sub_material its cs)
          ∙ length-slots_of mb.sub_material its cs h k,
      λ t. elim (Bool-cases (all_own mb.sub_material its cs)) [
        | inl own ↦ same ∙ ap (λ q. counts_of q.0) (arrange_own mb.sub_material its cs h k own)
        | inr other ↦ absurd (cc (t, misses (arrange_other mb.sub_material its cs h k other)))
      ],
    )

unchanged-Leaves :
    (mb : MixBase) (its : List CraftItem) (cs cs' : List ℕ) (b : Bool)
    → length its ≡ length cs
    → ◌≡◌ {A = Option (List ℕ × Bool)} (some (cs, false)) (some (cs', b))
    → Leaves mb its cs' b
unchanged-Leaves mb its cs cs' b h e = ground arith

-- A recipe is skipped, or its materials are tried.
try_mix_info_cases :
    (mb : MixBase) (main : Option CraftItem) (its : List CraftItem) (cs : List ℕ)
    → (try_mix_info mb main its cs ≡ some (cs, false))
      ⊎ (try_mix_info mb main its cs ≡ tried mb main its cs)
unfolding try_mix_info
try_mix_info_cases mb main its cs = elim (Bool-cases (mb.sub_material_cnt == length its)) [
  | inr other ↦ inl (simp other)
  | inl same ↦ elim (Option-cases (check_material_info mb.main_material main 1)) [
    | inl e ↦ inl (simp (same, e))
    | inr (c, e) ↦ inr (simp (same, e))
  ]
]

try_mix_info-counts :
    (mb : MixBase) (main : Option CraftItem) (its : List CraftItem) (cs cs' : List ℕ) (b : Bool)
    → length its ≡ length cs
    → length its ≤ length mb.sub_material
    → try_mix_info mb main its cs ≡ some (cs', b)
    → Leaves mb its cs' b
try_mix_info-counts mb main its cs cs' b h k e = elim (try_mix_info_cases mb main its cs) [
  | inl skipped ↦ unchanged-Leaves mb its cs cs' b h (sym skipped ∙ e)
  | inr looked ↦ tried-counts mb main its cs cs' b h k (sym looked ∙ e)
]

-- Every recipe has a material for each item: the source's arrays have 9.
unfoldable pub AllHave : ℕ → List MixBase → Type 0
AllHave n [] = n ≡ n
AllHave n (mb ∷ mbs) = (n ≤ length mb.sub_material) × AllHave n mbs

-- One of each item.
abbrev pub one_each : List CraftItem → List Effect
one_each [] = []
one_each (it ∷ its) = erase it.handle 1 ∷ one_each its

erase_all-chosen :
    (ms : List MaterialInfo) (its : List CraftItem)
    → length its ≤ length ms
    → erase_all its (counts_of (chosen ms its)) ≡ one_each its
unfolding erase_all chosen
erase_all-chosen [] [] k = refl
erase_all-chosen (m ∷ ms) [] k = refl
erase_all-chosen [] (it ∷ its) k = absurd (omega arith)
erase_all-chosen (m ∷ ms) (it ∷ its) k =
    ap (λ es. erase it.handle 1 ∷ es) (erase_all-chosen ms its (omega arith))

-- The counts that are left behind when a recipe is found take one of each item.
pub found_one_each :
    (mbs : List MixBase) (main : Option CraftItem) (its : List CraftItem) (cs cs' : List ℕ)
    (mb : MixBase)
    → length its ≡ length cs
    → AllHave (length its) mbs
    → get_proper_mix_info mbs main its cs ≡ some (cs', some mb)
    → erase_all its cs' ≡ one_each its
unfolding get_proper_mix_info AllHave
found_one_each [] main its cs cs' mb h a e = cc
found_one_each (m ∷ ms) main its cs cs' mb h (k, a) e =
    elim (Option-cases (try_mix_info m main its cs)) [
      | inl stop ↦ absurd (grind (arith, e, stop))
      | inr ((ds, true), fits) ↦
          let (same, left) = try_mix_info-counts m main its cs ds true h k fits in
          ap (erase_all its) (grind (arith, e, fits) ∙ left refl)
          ∙ erase_all-chosen m.sub_material its k
      | inr ((ds, false), misses) ↦
          let (same, left) = try_mix_info-counts m main its cs ds false h k misses in
          found_one_each ms main its ds cs' mb (sym same) a (grind (arith, e, misses))
    ]
