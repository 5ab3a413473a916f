-- ===== src/Inventory/Amounts.antt =====
-- `Push`, `Pop` and `Erase` of Chihiro/src/Entities/Item/Inventory.cpp as a whole.
use rzemulator.Base.{
  ℕ, suc, ◌^◌, ◌<◌, ◌≡◌, ◌≢◌, inl, inr, Bool, true, Option, none, some, List, [], ◌∷◌, ◌++◌, length,
  if◌then◌else◌, arith, Bool-cases, Option-cases,
}
use rzemulator.Base.Int.{ℤ, ◌+ℤ◌, ◌-ℤ◌, ltb_ℤ, eqb_ℤ, eq_of_parts}
use rzemulator.Base.Vectors.{Holds, last?-ne-none, get_elem?-snoc}
use rzemulator.Item.{FloatOps, ItemTemplate, Item, is_joinable}
use rzemulator.Inventory.{
  Heap, Inventory, find_by_code, check, append, remove, notify, set_count, gain_weight, lose_weight,
  push_onto, push, pop, pop_checked, erase_item, erase_checked, alloc_divided,
}
use rzemulator.Inventory.Index.{IsIndexed, append-IsIndexed, remove-IsIndexed, check_iff}

-- Every item of the list has its template, as items from `AllocItem` with a known code have.
abbrev pub HasTemplates : {F : Type 0} → Heap F → List ℕ → Type 0
HasTemplates h list = (p : ℕ) → Holds list p → (h.item p).base ≢ none

module _ {F : Type 0} where
  find_by_code-Holds :
      (m : ℕ → Item F) (xs : List ℕ) (code : ℤ) (e : ℕ)
      → find_by_code m xs code ≡ some e
      → Holds xs e × ((m e).code ≡ code)
  unfolding find_by_code
  find_by_code-Holds m [] code e h = cc
  find_by_code-Holds m (x ∷ xs) code e h = elim (Bool-cases (eqb_ℤ (m x).code code)) [
    | inl hit ↦ ((0, ground arith), ground (arith, eq_of_parts (m x).code code))
    | inr miss ↦
        let rest = find_by_code-Holds m xs code e (ground arith) in
        ((suc rest.0.0, rest.0.1), rest.1)
  ]

  pub set_count-IsIndexed :
      (h : Heap F) (inv inv' : Inventory F) (p : ℕ) (n : ℤ) (skip : Bool)
      → IsIndexed h inv.list
      → IsIndexed (set_count h inv' p n skip) inv.list
  unfolding set_count notify
  set_count-IsIndexed h inv inv' p n skip w = record {
    at_index = λ i q e. ground (arith, w.at_index i q);
    fits = w.fits;
  }

  pub Holds-check :
      (h : Heap F) (inv : Inventory F) (p : ℕ)
      → IsIndexed h inv.list
      → Holds inv.list p
      → check h inv p ≡ some true
  Holds-check h inv p w m = (check_iff h inv p w).1 m

module _ {F : Type 0} (ops : FloatOps F) where
  pub gain_weight_lem :
      (inv : Inventory F) (it : Item F)
      → it.base ≢ none
      → (inv' : Inventory F) × (gain_weight ops inv it ≡ some inv') × (inv'.list ≡ inv.list)
  unfolding gain_weight
  gain_weight_lem inv it has = elim (Option-cases (gain_weight ops inv it)) [
    | inl e ↦ absurd (ground arith)
    | inr (inv', e) ↦ (inv', e, ground arith)
  ]

  pub lose_weight_lem :
      (inv : Inventory F) (it : Item F)
      → it.base ≢ none
      → (inv' : Inventory F) × (lose_weight ops inv it ≡ some inv') × (inv'.list ≡ inv.list)
  unfolding lose_weight
  lose_weight_lem inv it has = elim (Option-cases (lose_weight ops inv it)) [
    | inl e ↦ absurd (ground arith)
    | inr (inv', e) ↦ (inv', e, ground arith)
  ]

  append_lem :
      (h : Heap F) (inv : Inventory F) (p : ℕ) (skip : Bool)
      → (h.item p).base ≢ none
      → (h' : Heap F) × (inv' : Inventory F) × (append h inv p skip ≡ some (h', inv'))
        × (inv'.list ≡ inv.list ++ p ∷ [])
  unfolding append
  append_lem h inv p skip has = elim (Option-cases (append h inv p skip)) [
    | inl e ↦ absurd (ground arith)
    | inr ((h', inv'), e) ↦ (h', inv', e, ground arith)
  ]

  pub remove_lem :
      (h : Heap F) (inv : Inventory F) (p : ℕ) (skip : Bool)
      → Holds inv.list p
      → (h' : Heap F) × (inv' : Inventory F) × (remove h inv p skip ≡ some (h', inv'))
  unfolding remove
  remove_lem h inv p skip (i, here) = elim (Option-cases (remove h inv p skip)) [
    | inl e ↦ absurd (ground (arith, last?-ne-none inv.list i p here))
    | inr ((h', inv'), e) ↦ (h', inv', e)
  ]

  -- Push of an item that is not in the list yet, where each item of the list knows its index, and it and
  -- they have templates, with room left: it stops nowhere, each item of the list knows its index again,
  -- and the entry that it returns passes `check`.
  pub push_lem :
      (h : Heap F) (inv : Inventory F) (p : ℕ) (cnt : ℤ) (skip : Bool)
      → IsIndexed h inv.list
      → HasTemplates h inv.list
      → (h.item p).base ≢ none
      → p < h.next
      → length inv.list < 2 ^ 32
      → ¬ Holds inv.list p
      → (h' : Heap F) × (inv' : Inventory F) × (q : ℕ) × (push ops h inv p cnt skip
          ≡ some (h', inv', q))
        × IsIndexed h' inv'.list
        × (check h' inv' q ≡ some true)
  unfolding push push_onto
  push_lem h inv p cnt skip w templates has below room absent =
      elim (Option-cases
        (if is_joinable (h.item p) then find_by_code h.item inv.list (h.item p).code else none)) [
          | inl alone ↦
              let (inv1, e1, l1) = gain_weight_lem inv (h.item p) has in
              let (h2, inv2, e2, l2) = append_lem h inv1 p skip has in
              let w2 : IsIndexed h2 inv2.list =
                append-IsIndexed h inv1 p skip (rw l1 w) below (rw l1 room)
                  (λ i eq. absent (i, rw l1 at eq)) e2 in
              (
                h2,
                record inv2 {
                  index = if ltb_ℤ inv1.index (h.item p).idx then (h.item p).idx else inv1.index;
                },
                p,
                rw (alone, e1, e2),
                w2,
                Holds-check h2 _ p w2 (
                  length inv1.list,
                  rw l2 (ground (arith, get_elem?-snoc inv1.list p (length inv1.list))),
                ),
              )
          | inr (e, found) ↦
              let hit : find_by_code h.item inv.list (h.item p).code ≡ some e = ground arith in
              let (holds, _) = find_by_code-Holds h.item inv.list (h.item p).code e hit in
              let (inv1, e1, l1) = gain_weight_lem inv (h.item e) (templates e holds) in
              let n = (h.item e).count +ℤ cnt in
              let w1 : IsIndexed (set_count h inv1 e n skip) inv1.list =
                rw l1 (set_count-IsIndexed h inv inv1 e n skip w) in
              (
                set_count h inv1 e n skip,
                inv1,
                e,
                rw (found, e1),
                w1,
                Holds-check _ inv1 e w1 (rw l1 holds),
              )
        ]

  alloc_divided-IsIndexed :
      (get_item_base : ℤ → Option (ItemTemplate F)) (h : Heap F) (list : List ℕ) (p : ℕ) (cnt : ℤ)
      → IsIndexed h list
      → IsIndexed (alloc_divided ops get_item_base h p cnt) list
  unfolding alloc_divided
  alloc_divided-IsIndexed get_item_base h list p cnt w = record {
    at_index = λ i q e. ground (arith, w.at_index i q);
    fits = w.fits;
  }

  -- Where each item of the list knows its index, Pop of one that has a template stops nowhere, for any
  -- count, and each item of the list knows its index again.
  pub pop_lem :
      (get_item_base : ℤ → Option (ItemTemplate F)) (h : Heap F) (inv : Inventory F) (p : ℕ)
      (cnt : ℤ) (skip : Bool)
      → IsIndexed h inv.list
      → Holds inv.list p
      → (h.item p).base ≢ none
      → (h' : Heap F) × (inv' : Inventory F) × (q : Option ℕ) × (pop ops get_item_base h inv p cnt
            skip
          ≡ some (h', inv', q))
        × IsIndexed h' inv'.list
  unfolding pop pop_checked
  pop_lem get_item_base h inv p cnt skip w holds has =
      let checks = Holds-check h inv p w holds in
      let below : p < h.next = (w.at_index holds.0 p holds.1).1 in
      elim (Bool-cases (ltb_ℤ cnt (h.item p).count)) [
        | inl part ↦
            let h1 = alloc_divided ops get_item_base h p cnt in
            let same : h1.item p ≡ h.item p = unfold alloc_divided in ground arith in
            let (inv1, e1, l1) = lose_weight_lem inv (h1.item p) (rw same has) in
            let n = (h1.item p).count -ℤ cnt in
            (
              set_count h1 inv1 p n skip,
              inv1,
              some h.next,
              rw (checks, part, e1),
              rw l1 (
                  set_count-IsIndexed h1 inv inv1 p n skip
                    (alloc_divided-IsIndexed get_item_base h inv.list p cnt w)),
            )
        | inr whole ↦ elim (Bool-cases (eqb_ℤ (h.item p).count cnt)) [
          | inl all ↦
              let (inv1, e1, l1) = lose_weight_lem inv (h.item p) has in
              let (h2, inv2, e2) = remove_lem h inv1 p skip (rw l1 holds) in
              (
                h2,
                inv2,
                some p,
                rw (checks, whole, all, e1, e2),
                remove-IsIndexed h inv1 p skip (rw l1 w)
                    (rw (l1, (w.at_index holds.0 p holds.1).0) holds.1) e2,
              )
          | inr more ↦ (h, inv, none, rw (checks, whole, more), w)
        ]
      ]

  -- Where each item of the list knows its index, Erase of one that has a template stops nowhere, for any
  -- count, and each item of the list knows its index again.
  pub erase_item_lem :
      (h : Heap F) (inv : Inventory F) (p : ℕ) (cnt : ℤ) (skip : Bool)
      → IsIndexed h inv.list
      → Holds inv.list p
      → (h.item p).base ≢ none
      → (h' : Heap F) × (inv' : Inventory F) × (erase_item ops h inv p cnt skip ≡ some (h', inv'))
        × IsIndexed h' inv'.list
  unfolding erase_item erase_checked
  erase_item_lem h inv p cnt skip w holds has =
      let checks = Holds-check h inv p w holds in
      let (inv1, e1, l1) = lose_weight_lem inv (h.item p) has in
      elim (Bool-cases (ltb_ℤ cnt (h.item p).count)) [
        | inl part ↦
            let n = (h.item p).count -ℤ cnt in
            (
              set_count h inv1 p n skip,
              inv1,
              rw (checks, e1, part),
              rw l1 (set_count-IsIndexed h inv inv1 p n skip w),
            )
        | inr whole ↦
            let (h2, inv2, e2) = remove_lem h inv1 p skip (rw l1 holds) in
            let w2 : IsIndexed h2 inv2.list =
              remove-IsIndexed h inv1 p skip (rw l1 w)
                (rw (l1, (w.at_index holds.0 p holds.1).0) holds.1) e2 in
            (
              record h2 { deleted = p ∷ h2.deleted },
              inv2,
              rw (checks, e1, whole, e2),
              record { at_index = w2.at_index; fits = w2.fits },
            )
      ]
