-- ===== src/Inventory/Contents.antt =====
-- What `Pop` of Chihiro/src/Entities/Item/Inventory.cpp does with `m_vList` and the counts.
use rzemulator.Base.{
  ℕ, ◌+◌, ◌-◌, ◌<◌, ◌≡◌, ◌≢◌, ◌↔◌, inl, inr, Bool, true, false, not, ◌&&◌, Option, none, some, List,
  length, get_elem?, set, ◌==◌, ltb, if◌then◌else◌, arith, Bool-cases, Option-cases,
}
use rzemulator.Base.Int.{ℤ, ◌+ℤ◌, ◌-ℤ◌, ltb_ℤ, eqb_ℤ, eq_of_parts, -ℤ_parts, +ℤ_parts}
use rzemulator.Item.{FloatOps, ItemTemplate}
use rzemulator.Inventory.{
  Heap, Inventory, remove, notify, set_count, pop, pop_checked, alloc_divided, divided_item,
}
use rzemulator.Base.Vectors.{
  Holds, last?, drop_last, get_elem?-lt, last?-get_elem?, get_elem?-moved,
}
use rzemulator.Inventory.Index.{IsIndexed}
use rzemulator.Inventory.Amounts.{lose_weight_lem, remove_lem, Holds-check}

module _ {F : Type 0} where
  module _ (h : Heap F) (inv : Inventory F) (p b : ℕ) (w : IsIndexed h inv.list) (i : ℕ)
      (here : get_elem? inv.list i ≡ some p) (last : last? inv.list ≡ some b) where
    abbrev moved : List ℕ
    moved = drop_last (if not (b == p) then set inv.list i b else inv.list)

    moved-Holds : (q : ℕ) → Holds moved q → Holds inv.list q × (q ≢ p)
    moved-Holds q (j, e) = elim (Bool-cases (not (b == p) && (i == j))) [
      | inl hit ↦ (
        (
          length inv.list - 1,
          ground (
            arith,
            get_elem?-moved inv.list (not (b == p)) i b j (get_elem?-lt inv.list i p here),
            last?-get_elem? inv.list b last,
          ),
        ),
        λ same. absurd (
            ground (
              arith,
              get_elem?-moved inv.list (not (b == p)) i b j (get_elem?-lt inv.list i p here),
            )),
      )
      | inr miss ↦ (
        (
          j,
          ground (
            arith,
            get_elem?-moved inv.list (not (b == p)) i b j (get_elem?-lt inv.list i p here),
          ),
        ),
        λ same. absurd (
            ground (
              arith,
              get_elem?-moved inv.list (not (b == p)) i b j (get_elem?-lt inv.list i p here),
              last?-get_elem? inv.list b last,
              w.at_index j p,
              w.at_index i p here,
              w.at_index (length inv.list - 1) p,
            )),
      )
    ]

    Holds-moved : (q : ℕ) → Holds inv.list q → q ≢ p → Holds moved q
    Holds-moved q (j, e) ne = (
      (if ltb (j + 1) (length inv.list) then j else i),
      ground (
        arith,
        get_elem?-moved inv.list (not (b == p)) i b j (get_elem?-lt inv.list i p here),
        get_elem?-moved inv.list (not (b == p)) i b i (get_elem?-lt inv.list i p here),
        get_elem?-lt inv.list j q e,
        get_elem?-lt inv.list i p here,
        last?-get_elem? inv.list b last,
      ),
    )

  remove-Holds :
      (h : Heap F) (inv : Inventory F) (p : ℕ) (skip : Bool) {h' : Heap F} {inv' : Inventory F}
      → IsIndexed h inv.list
      → Holds inv.list p
      → remove h inv p skip ≡ some (h', inv')
      → (q : ℕ) → Holds inv'.list q ↔ (Holds inv.list q × (q ≢ p))
  unfolding remove
  remove-Holds h inv p skip {h' = h'} {inv' = inv'} w (i, here) e q =
      elim (Option-cases (last? inv.list)) [
        | inl empty ↦ absurd (ground arith)
        | inr (b, last) ↦
            let list_is : inv'.list ≡ moved h inv p b w i here last =
              ground (arith, w.at_index i p here) in
            rw list_is (
              moved-Holds h inv p b w i here last q,
              λ (m, ne). Holds-moved h inv p b w i here last q m ne,
            )
      ]

  remove-counts :
      (h : Heap F) (inv : Inventory F) (p : ℕ) (skip : Bool) {h' : Heap F} {inv' : Inventory F}
      → remove h inv p skip ≡ some (h', inv')
      → (q : ℕ) → (h'.item q).count ≡ (h.item q).count
  unfolding remove
  remove-counts h inv p skip e q = ground arith

module _ {F : Type 0} (ops : FloatOps F) (get_item_base : ℤ → Option (ItemTemplate F)) where
  -- Where each item of the list knows its index, Pop of one that has a template, with its whole count, gives
  -- the item itself: exactly it leaves the list, and no count changes.
  pub pop_whole :
      (h : Heap F) (inv : Inventory F) (p : ℕ) (skip : Bool)
      → IsIndexed h inv.list
      → Holds inv.list p
      → (h.item p).base ≢ none
      → (h' : Heap F) × (inv' : Inventory F) × (pop ops get_item_base h inv p (h.item p).count skip
          ≡ some (h', inv', some p))
        × ((x : ℕ) → Holds inv'.list x ↔ (Holds inv.list x × (x ≢ p)))
        × ((x : ℕ) → (h'.item x).count ≡ (h.item x).count)
  unfolding pop pop_checked
  pop_whole h inv p skip w holds has =
      let (inv1, e1, l1) = lose_weight_lem ops inv (h.item p) has in
      let (h2, inv2, e2) = remove_lem ops h inv1 p skip (rw l1 holds) in
      let whole : ltb_ℤ (h.item p).count (h.item p).count ≡ false = ground arith in
      let all : eqb_ℤ (h.item p).count (h.item p).count ≡ true = ground arith in
      (
        h2,
        inv2,
        rw (Holds-check h inv p w holds, whole, all, e1, e2),
        λ x. rw (← l1) (remove-Holds h inv1 p skip (rw l1 w) (rw l1 holds) e2 x),
        remove-counts h inv1 p skip e2,
      )

  -- Where each item of the list knows its index, Pop of one that has a template, with less than its whole
  -- count, gives a new item of the same code and the count asked for; the list stays, the counts of the
  -- two parts add up to the old one, and no other item changes.
  pub pop_part :
      (h : Heap F) (inv : Inventory F) (p : ℕ) (cnt : ℤ) (skip : Bool)
      → IsIndexed h inv.list
      → Holds inv.list p
      → (h.item p).base ≢ none
      → ltb_ℤ cnt (h.item p).count ≡ true
      → (h' : Heap F) × (inv' : Inventory F) × (pop ops get_item_base h inv p cnt skip
          ≡ some (h', inv', some h.next))
        × (inv'.list ≡ inv.list)
        × ((h'.item h.next).code ≡ (h.item p).code)
        × ((h'.item h.next).count ≡ cnt)
        × ((h'.item p).count +ℤ (h'.item h.next).count ≡ (h.item p).count)
        × ((x : ℕ) → x ≢ p → x ≢ h.next → h'.item x ≡ h.item x)
  unfolding pop pop_checked
  pop_part h inv p cnt skip w holds has part =
      let below : p < h.next = (w.at_index holds.0 p holds.1).1 in
      let h1 = alloc_divided ops get_item_base h p cnt in
      let same : h1.item p ≡ h.item p = unfold alloc_divided in ground arith in
      let (inv1, e1, l1) = lose_weight_lem ops inv (h1.item p) (rw same has) in
      let n = (h1.item p).count -ℤ cnt in
      let left = -ℤ_parts (h.item p).count cnt in
      let sum : ((h.item p).count -ℤ cnt) +ℤ cnt ≡ (h.item p).count =
        omega (arith, eq_of_parts, -ℤ_parts, +ℤ_parts) in
      (
        set_count h1 inv1 p n skip,
        inv1,
        rw (Holds-check h inv p w holds, part, e1),
        l1,
        unfold set_count notify alloc_divided divided_item in ground arith,
        unfold set_count notify alloc_divided divided_item in ground arith,
        unfold set_count notify alloc_divided divided_item in ground (arith, sum),
        λ x ne ne'. unfold set_count notify alloc_divided in ground arith,
      )

  -- With more than the whole count, Pop gives null and changes nothing.
  pub pop_more :
      (h : Heap F) (inv : Inventory F) (p : ℕ) (cnt : ℤ) (skip : Bool)
      → IsIndexed h inv.list
      → Holds inv.list p
      → ltb_ℤ (h.item p).count cnt ≡ true
      → pop ops get_item_base h inv p cnt skip ≡ some (h, inv, none)
  unfolding pop pop_checked
  pop_more h inv p cnt skip w holds more = ground (arith, Holds-check h inv p w holds)
