-- ===== src/Crafting/Arrange.antt =====
-- Chihiro/src/Crafting/MixManager.cpp: what the loops of GetProperMixInfo that arrange the items accept.
use rzemulator.Base.{
  ℕ, zero, suc, ◌≤◌, ◌<◌, ◌≡◌, refl, sym, ap, ◌∙◌, Bool, true, false, Option, none, some, List, [],
  ◌∷◌, length, if◌then◌else◌, arith, Option-cases, Bool-cases, ◌⊎◌, inl, inr,
}
use rzemulator.Crafting.{
  CraftItem, MaterialInfo, check_material_info, meets_all, is_unset, Slot, slots_of, after_slot,
  find_slot, cons_slot, arrange, conditions,
}

-- The item passes the material.
unfoldable pub passes : MaterialInfo → CraftItem → ℕ → Bool
passes m it count = if is_unset m.first.type_ then false else meets_all it count (conditions m)

check_material_info_lem :
    (m : MaterialInfo) (it : CraftItem) (n : ℕ)
    → check_material_info m (some it) n ≡ (if passes m it n then some 1 else none)
unfolding check_material_info passes
check_material_info_lem m it n = ground arith

-- An entry after it has been chosen.
abbrev pub mark : Slot → Slot
mark s = record s { count = 1; checked = true }

abbrev slot_passes : Slot → Bool
slot_passes s = passes s.material s.item s.count

-- The inner loop goes past an entry.
IsSkipped : Slot → Type 0
IsSkipped s = (s.checked ≡ true) ⊎ (slot_passes s ≡ false)

find_slot-skipped :
    (s : Slot) (ss : List Slot) → IsSkipped s → find_slot (s ∷ ss) ≡ after_slot s (find_slot ss)
unfolding find_slot IsSkipped
find_slot-skipped s ss (inl c) = simp c
find_slot-skipped s ss (inr f) = elim (Bool-cases s.checked) [
  | inl c ↦ simp c
  | inr c ↦ simp (c, check_material_info_lem s.material s.item s.count, f)
]

find_slot-chosen :
    (s : Slot) (ss : List Slot)
    → s.checked ≡ false
    → slot_passes s ≡ true
    → find_slot (s ∷ ss) ≡ some (mark s, mark s ∷ ss)
unfolding find_slot
find_slot-chosen s ss c p = simp (c, check_material_info_lem s.material s.item s.count, p)

-- One turn of the outer loop.
pub arrange_found :
    (n : ℕ) (ss : List Slot) (s : Slot) (ss' : List Slot)
    → find_slot ss ≡ some (s, ss')
    → arrange (suc n) ss ≡ cons_slot s (arrange n ss')
unfolding arrange
arrange_found n ss s ss' e = rw (arrange, e) refl

pub arrange_stuck : (n : ℕ) (ss : List Slot) → find_slot ss ≡ none → arrange (suc n) ss ≡ (ss, none)
unfolding arrange
arrange_stuck n ss e = rw (arrange, e) refl

abbrev behind : Slot → List Slot × Option (List Slot) → List Slot × Option (List Slot)
behind s (out, picked) = (s ∷ out, picked)

cons_slot-behind :
    (s t : Slot) (r : List Slot × Option (List Slot))
    → cons_slot t (behind s r) ≡ behind s (cons_slot t r)
cons_slot-behind s t (out, none) = refl
cons_slot-behind s t (out, some picked) = refl

arrange-skipped :
    (n : ℕ) (s : Slot) (ss : List Slot) → IsSkipped s → arrange n (s ∷ ss) ≡ behind s (arrange n ss)
unfolding arrange
arrange-skipped zero s ss h = refl
arrange-skipped (suc n) s ss h = elim (Option-cases (find_slot ss)) [
  | inl e ↦
      arrange_stuck n (s ∷ ss) (find_slot-skipped s ss h ∙ ap (after_slot s) e)
      ∙ sym (ap (behind s) (arrange_stuck n ss e))
  | inr ((t, ss'), e) ↦
      arrange_found n (s ∷ ss) t (s ∷ ss') (find_slot-skipped s ss h ∙ ap (after_slot s) e)
      ∙ ap (cons_slot t) (arrange-skipped n s ss' h)
      ∙ cons_slot-behind s t (arrange n ss')
      ∙ sym (ap (behind s) (arrange_found n ss t ss' e))
]

-- A chosen entry is behind the loop from then on.
arrange-chosen :
    (n : ℕ) (s : Slot) (ss : List Slot)
    → s.checked ≡ false
    → slot_passes s ≡ true
    → arrange (suc n) (s ∷ ss) ≡ cons_slot (mark s) (behind (mark s) (arrange n ss))
unfolding IsSkipped
arrange-chosen n s ss c p =
    arrange_found n (s ∷ ss) (mark s) (mark s ∷ ss) (find_slot-chosen s ss c p)
    ∙ ap (cons_slot (mark s)) (arrange-skipped n (mark s) ss (inl refl))

cons_slot-none :
    (t : Slot) (r : List Slot × Option (List Slot))
    → r.1 ≡ none
    → (cons_slot t (behind t r)).1 ≡ none
cons_slot-none t (out, none) e = refl
cons_slot-none t (out, some picked) e = cc

-- Each item passes the material at its own index, whatever the others do.
unfoldable pub all_own : List MaterialInfo → List CraftItem → List ℕ → Bool
all_own (m ∷ ms) (it ∷ its) (c ∷ cs) = if passes m it c then all_own ms its cs else false
all_own _ _ _ = true

unfoldable pub chosen : List MaterialInfo → List CraftItem → List Slot
chosen (m ∷ ms) (it ∷ its) =
    record { material = m; item = it; count = 1; checked = true } ∷ chosen ms its
chosen _ _ = []

abbrev fresh : MaterialInfo → CraftItem → ℕ → Slot
fresh m it c = record { material = m; item = it; count = c; checked = false }

-- One turn per entry is not enough where the loop goes past one.
arrange_excess :
    (n : ℕ) (ms : List MaterialInfo) (its : List CraftItem) (cs : List ℕ)
    → length its < n
    → (arrange n (slots_of ms its cs)).1 ≡ none
unfolding slots_of IsSkipped find_slot
arrange_excess zero ms its cs h = absurd (omega arith)
arrange_excess (suc n) [] its cs h = ap (λ r. r.1) (arrange_stuck n [] refl)
arrange_excess (suc n) (m ∷ ms) [] cs h = ap (λ r. r.1) (arrange_stuck n [] refl)
arrange_excess (suc n) (m ∷ ms) (it ∷ its) [] h = ap (λ r. r.1) (arrange_stuck n [] refl)
arrange_excess (suc n) (m ∷ ms) (it ∷ its) (c ∷ cs) h =
    let s = fresh m it c in
    let ss = slots_of ms its cs in
    elim (Bool-cases (passes m it c)) [
      | inl p ↦
          ap (λ r. r.1) (arrange-chosen n s ss refl p)
          ∙ cons_slot-none (mark s) (arrange n ss) (arrange_excess n ms its cs (omega arith))
      | inr f ↦
          ap (λ r. r.1) (arrange-skipped (suc n) s ss (inr f))
          ∙ arrange_excess (suc n) ms its cs (omega arith)
    ]

pub arrange_own :
    (ms : List MaterialInfo) (its : List CraftItem) (cs : List ℕ)
    → length its ≡ length cs
    → length its ≤ length ms
    → all_own ms its cs ≡ true
    → arrange (length its) (slots_of ms its cs) ≡ (chosen ms its, some (chosen ms its))
unfolding slots_of all_own chosen arrange
arrange_own [] [] cs h k e = refl
arrange_own (m ∷ ms) [] cs h k e = refl
arrange_own [] (it ∷ its) cs h k e = absurd (omega arith)
arrange_own (m ∷ ms) (it ∷ its) [] h k e = absurd (omega arith)
arrange_own (m ∷ ms) (it ∷ its) (c ∷ cs) h k e =
    let s = fresh m it c in
    elim (Bool-cases (passes m it c)) [
      | inl p ↦
          arrange-chosen (length its) s (slots_of ms its cs) refl p
          ∙ ap (λ r. cons_slot (mark s) (behind (mark s) r))
              (arrange_own ms its cs (omega arith) (omega arith) (ground (arith, e, p)))
      | inr f ↦ absurd (ground (arith, e, f))
    ]

pub arrange_other :
    (ms : List MaterialInfo) (its : List CraftItem) (cs : List ℕ)
    → length its ≡ length cs
    → length its ≤ length ms
    → all_own ms its cs ≡ false
    → (arrange (length its) (slots_of ms its cs)).1 ≡ none
unfolding slots_of all_own IsSkipped
arrange_other [] [] cs h k e = cc
arrange_other (m ∷ ms) [] cs h k e = cc
arrange_other [] (it ∷ its) cs h k e = absurd (omega arith)
arrange_other (m ∷ ms) (it ∷ its) [] h k e = absurd (omega arith)
arrange_other (m ∷ ms) (it ∷ its) (c ∷ cs) h k e =
    let s = fresh m it c in
    let ss = slots_of ms its cs in
    elim (Bool-cases (passes m it c)) [
      | inl p ↦
          ap (λ r. r.1) (arrange-chosen (length its) s ss refl p)
          ∙ cons_slot-none (mark s) (arrange (length its) ss)
              (arrange_other ms its cs (omega arith) (omega arith) (ground (arith, e, p)))
      | inr f ↦
          ap (λ r. r.1) (arrange-skipped (suc (length its)) s ss (inr f))
          ∙ arrange_excess (suc (length its)) ms its cs (omega arith)
    ]

-- If there is a count for each item, and a material for each item, the loops succeed exactly where each
-- item passes the material at its own index, and leave the items in their order, with the counts 1.
pub arrange_lem :
    (ms : List MaterialInfo) (its : List CraftItem) (cs : List ℕ)
    → length its ≡ length cs
    → length its ≤ length ms
    → (arrange (length its) (slots_of ms its cs)).1
      ≡ (if all_own ms its cs then some (chosen ms its) else none)
arrange_lem ms its cs h k = elim (Bool-cases (all_own ms its cs)) [
  | inl e ↦ rw e (ap (λ r. r.1) (arrange_own ms its cs h k e))
  | inr e ↦ rw e (arrange_other ms its cs h k e)
]
