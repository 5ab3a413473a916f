-- ===== src/Inventory/Index.antt =====
-- `m_vList` and the storage indices of its items (Chihiro/src/Entities/Item/Inventory.cpp).
use rzemulator.Base.{
  ℕ, ◌-◌, ◌^◌, ◌≤◌, ◌<◌, ◌≡◌, ◌≢◌, ◌↔◌, inl, inr, Bool, true, not, some, List, [], ◌∷◌, length,
  get_elem?, ◌==◌, arith, length-append, Option-cases,
}
use rzemulator.Base.Vectors.{
  last?, get_elem?-lt, get_elem?-snoc, last?-get_elem?, get_elem?-moved, length-moved,
}
use rzemulator.Inventory.{Heap, Inventory, check, append, remove, notify}

-- Entry `i` of the list is an item that holds `i`, and lies below the next free address.
pub record IsIndexed {F : Type 0} (h : Heap F) (list : List ℕ) : Type 0 where
  pub at_index :
      (i p : ℕ) → get_elem? list i ≡ some p → ((h.item p).storage_index ≡ i) × (p < h.next)
  pub fits : length list ≤ 2 ^ 32

module _ {F : Type 0} where
  -- Where each item of the list knows its index, the assertions hold exactly for the items of the list.
  pub check_iff :
      (h : Heap F) (inv : Inventory F) (p : ℕ)
      → IsIndexed h inv.list
      → (check h inv p ≡ some true) ↔ ((i : ℕ) × (get_elem? inv.list i ≡ some p))
  unfolding check
  check_iff h inv p w = (
    λ e. ((h.item p).storage_index, ground arith),
    λ (i, e). ground (arith, w.at_index i p, get_elem?-lt inv.list i p),
  )

  pub append-IsIndexed :
      (h : Heap F) (inv : Inventory F) (p : ℕ) (skip : Bool) {h' : Heap F} {inv' : Inventory F}
      → IsIndexed h inv.list
      → p < h.next
      → length inv.list < 2 ^ 32
      → ((i : ℕ) → get_elem? inv.list i ≢ some p)
      → append h inv p skip ≡ some (h', inv')
      → IsIndexed h' inv'.list
  unfolding append notify
  append-IsIndexed h inv p skip w below room absent e = record {
    at_index = λ i q eq. ground (
      arith,
      get_elem?-snoc inv.list p i,
      w.at_index i q,
      absent i,
      length-append inv.list (p ∷ []),
    );
    fits = ground (arith, length-append inv.list (p ∷ []));
  }

  pub remove-IsIndexed :
      (h : Heap F) (inv : Inventory F) (p : ℕ) (skip : Bool) {h' : Heap F} {inv' : Inventory F}
      → IsIndexed h inv.list
      → get_elem? inv.list (h.item p).storage_index ≡ some p
      → remove h inv p skip ≡ some (h', inv')
      → IsIndexed h' inv'.list
  unfolding remove notify
  remove-IsIndexed h inv p skip w here e = elim (Option-cases (last? inv.list)) [
    | inl empty ↦ absurd (ground arith)
    | inr (b, last) ↦
        let i = (h.item p).storage_index in
        let moves = not (b == p) in
        let in_range : i < length inv.list = get_elem?-lt inv.list i p here in
        let at_end : get_elem? inv.list (length inv.list - 1) ≡ some b =
          last?-get_elem? inv.list b last in
        record {
          at_index = λ j q eq. ground (
            arith,
            get_elem?-moved inv.list moves i b j,
            w.at_index j q,
            w.at_index i p,
            w.at_index (length inv.list - 1) b,
          );
          fits = ground (arith, length-moved inv.list moves i b, w.fits);
        }
  ]
