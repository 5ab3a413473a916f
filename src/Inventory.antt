-- ===== src/Inventory.antt =====
-- Chihiro/src/Entities/Item/Inventory.cpp, with `Item::AllocItem` and `Item::CopyFrom` as Pop calls them.
-- An `Item *` is a number, and `Heap.item` the memory behind it. `none` is a failed ASSERT (the process
-- stops) or a read through a null template. What the event receiver is told is a list, newest first. The
-- template table (`sObjectMgr.GetItemBase`) is an argument.
pub mod Index
pub mod Amounts
pub mod Contents
pub mod Tests
use rzemulator.Base.{
  ◌>>=◌, ℕ, zero, suc, ◌+◌, ◌-◌, ◌%◌, ◌^◌, Bool, true, false, not, ◌&&◌, ◌||◌, Option, none, some,
  List, [], ◌∷◌, ◌++◌, length, get_elem?, set, ◌==◌, ltb, if◌then◌else◌, bit_and,
}
use rzemulator.Base.Vectors.{last?, drop_last}
use rzemulator.Item.{FloatOps, ItemTemplate, Item, is_joinable, is_expire_item, get_weight}
use rzemulator.Base.Int.{ℤ, pos, negsuc, ◌+ℤ◌, ◌-ℤ◌, ltb_ℤ, eqb_ℤ}

pub data Event : Type 0 where
  on_add on_remove on_change_count : ℕ → Bool → Event

pub record Heap (F : Type 0) : Type 0 where
  pub item : ℕ → Item F
  pub next : ℕ
  pub item_top : ℕ
  pub deleted : List ℕ
  pub events : List Event

pub record Inventory (F : Type 0) : Type 0 where
  pub has_receiver : Bool
  pub weight : F
  pub weight_modifier : F
  pub list : List ℕ
  pub expire_list : List ℕ
  pub index : ℤ

abbrev pub wear_none : ℤ
wear_none = negsuc 0

-- `std::find` with `vector::erase`.
pub erase : ℕ → List ℕ → List ℕ
erase p [] = []
erase p (q ∷ qs) = if q == p then qs else q ∷ erase p qs

module _ {F : Type 0} where
  abbrev pub write : (ℕ → Item F) → ℕ → Item F → ℕ → Item F
  write m p it q = if p == q then it else m q

  unfoldable find : (ℕ → Item F) → List ℕ → ℤ → ℕ → Bool → Option ℕ
  find m [] code flag is_set = none
  find m (p ∷ ps) code flag is_set =
      let is_flagged = not (bit_and flag (m p).flag == 0) in
      let hit = eqb_ℤ (m p).code code && (if is_set then is_flagged else not is_flagged) in
      if hit then some p else find m ps code flag is_set

  pub find_by_code : (ℕ → Item F) → List ℕ → ℤ → Option ℕ
  find_by_code m [] code = none
  find_by_code m (p ∷ ps) code = if eqb_ℤ (m p).code code then some p else find_by_code m ps code

  unfoldable find_by_sid : (ℕ → Item F) → List ℕ → ℤ → Option ℕ
  find_by_sid m [] uid = none
  find_by_sid m (p ∷ ps) uid = if eqb_ℤ (m p).uid uid then some p else find_by_sid m ps uid

  unfoldable find_by_handle : (ℕ → Item F) → List ℕ → ℕ → Option ℕ
  find_by_handle m [] handle = none
  find_by_handle m (p ∷ ps) handle =
      if (m p).handle == handle then some p else find_by_handle m ps handle

  pub notify : Inventory F → Event → Heap F → Heap F
  notify inv e h = if inv.has_receiver then record h { events = e ∷ h.events } else h

  -- `Inventory::setCount`.
  pub set_count : Heap F → Inventory F → ℕ → ℤ → Bool → Heap F
  unfolding notify
  set_count h inv p new_count skip =
      notify inv (on_change_count p skip)
        (record h { item = write h.item p (record (h.item p) { count = new_count }) })

  -- `Inventory::push`: the private one, which only appends.
  pub append : Heap F → Inventory F → ℕ → Bool → Option (Heap F × Inventory F)
  unfolding notify is_expire_item
  append h inv p skip = do
    expires ← is_expire_item (h.item p)
    let list = inv.list ++ p ∷ []
    some (
      notify inv (on_add p skip) (record h {
        item = write h.item p (record (h.item p) { storage_index = (length list - 1) % 2 ^ 32 });
      }),
      record inv {
        list = list;
        expire_list = if expires then inv.expire_list ++ p ∷ [] else inv.expire_list;
      },
    )

  -- `Inventory::pop`: the private one. The last entry moves into the place of the one that goes.
  -- `check` has passed before, so the index is one of the list.
  pub remove : Heap F → Inventory F → ℕ → Bool → Option (Heap F × Inventory F)
  unfolding notify last? drop_last erase
  remove h inv p skip = do
    back ← last? inv.list
    let i = (h.item p).storage_index
    let told = notify inv (on_remove p skip) h
    let moves = not (back == p)
    let items =
        if moves then write h.item back (record (h.item back) { storage_index = i }) else h.item
    let list = if moves then set inv.list i back else inv.list
    some (
      record told { item = items },
      record inv { list = drop_last list; expire_list = erase p inv.expire_list },
    )

  -- `Inventory::check`: both conditions are asserted.
  pub check : Heap F → Inventory F → ℕ → Option Bool
  check h inv p =
      if ltb (h.item p).storage_index (length inv.list)
      then elim (get_elem? inv.list (h.item p).storage_index) [
        | none ↦ none
        | some q ↦ if q == p then some true else none
      ]
      else none

module _ {F : Type 0} (ops : FloatOps F) where
  -- The two lines on `m_fWeight` and `m_fWeightModifier` when an item comes, and when one goes.
  pub gain_weight : Inventory F → Item F → Option (Inventory F)
  unfolding get_weight
  gain_weight inv it = do
    w ← get_weight ops it
    let modifier =
        if eqb_ℤ it.wear_info wear_none then inv.weight_modifier else ops.sub inv.weight_modifier w
    some (record inv { weight = ops.add inv.weight w; weight_modifier = modifier })

  pub lose_weight : Inventory F → Item F → Option (Inventory F)
  unfolding get_weight
  lose_weight inv it = do
    w ← get_weight ops it
    let modifier =
        if eqb_ℤ it.wear_info wear_none then inv.weight_modifier else ops.add inv.weight_modifier w
    some (record inv { weight = ops.sub inv.weight w; weight_modifier = modifier })

  pub push_onto : Heap F → Inventory F → ℕ → ℤ → Bool → Option ℕ → Option (Heap F × Inventory F × ℕ)
  unfolding gain_weight append set_count
  push_onto h inv p cnt skip none = do
    inv' ← gain_weight inv (h.item p)
    r ← append h inv' p skip
    let index = if ltb_ℤ inv'.index (h.item p).idx then (h.item p).idx else inv'.index
    some (r.0, record (r.1) { index = index }, p)
  push_onto h inv p cnt skip (some e) = do
    inv' ← gain_weight inv (h.item e)
    some (set_count h inv' e ((h.item e).count +ℤ cnt) skip, inv', e)

  -- `Inventory::Push`.
  pub push : Heap F → Inventory F → ℕ → ℤ → Bool → Option (Heap F × Inventory F × ℕ)
  unfolding push_onto is_joinable find_by_code
  push h inv p cnt skip =
      push_onto h inv p cnt skip
        (if is_joinable (h.item p) then find_by_code h.item inv.list (h.item p).code else none)

  -- `Item::AllocItem` with `Item::CopyFrom` and `SetCount`: the divided item, at a new address.
  pub divided_item : (ℤ → Option (ItemTemplate F)) → Heap F → ℕ → ℤ → Item F
  divided_item get_item_base h p cnt = record (h.item p) {
    base = get_item_base (h.item p).code;
    handle = h.item_top;
    storage_index = 0;
    uid = pos 0;
    count = cnt;
    owner_handle = 0;
    owner_uid = pos 0;
  }

  pub alloc_divided : (ℤ → Option (ItemTemplate F)) → Heap F → ℕ → ℤ → Heap F
  unfolding divided_item
  alloc_divided get_item_base h p cnt = record h {
    item = write h.item h.next (divided_item get_item_base h p cnt);
    next = h.next + 1;
    item_top = h.item_top + 1;
  }

  -- `Inventory::Pop` behind its assertions; the result is the item that left, or null.
  pub pop_checked :
      (ℤ → Option (ItemTemplate F))
      → Heap F
      → Inventory F
      → ℕ
      → ℤ
      → Bool
      → Option (Heap F × Inventory F × Option ℕ)
  unfolding lose_weight set_count remove alloc_divided
  pop_checked get_item_base h inv p cnt skip =
      if ltb_ℤ cnt (h.item p).count
      then (do
        let h' = alloc_divided get_item_base h p cnt
        inv' ← lose_weight inv (h'.item p)
        some (set_count h' inv' p ((h'.item p).count -ℤ cnt) skip, inv', some h.next))
      else if eqb_ℤ (h.item p).count cnt
      then (do inv' ← lose_weight inv (h.item p); r ← remove h inv' p skip; some (r.0, r.1, some p))
      else some (h, inv, none)

  -- `Inventory::Pop`.
  pub pop :
      (ℤ → Option (ItemTemplate F))
      → Heap F
      → Inventory F
      → ℕ
      → ℤ
      → Bool
      → Option (Heap F × Inventory F × Option ℕ)
  unfolding check pop_checked
  pop get_item_base h inv p cnt skip = do
    checked ← check h inv p
    pop_checked get_item_base h inv p cnt skip

  pub erase_checked : Heap F → Inventory F → ℕ → ℤ → Bool → Option (Heap F × Inventory F)
  unfolding lose_weight set_count remove
  erase_checked h inv p cnt skip = do
    inv' ← lose_weight inv (h.item p)
    if ltb_ℤ cnt (h.item p).count
        then some (set_count h inv' p ((h.item p).count -ℤ cnt) skip, inv')
        else (do r ← remove h inv' p skip; some (record (r.0) { deleted = p ∷ (r.0).deleted }, r.1))

  -- `Inventory::Erase`, which returns true or stops at the assertions.
  pub erase_item : Heap F → Inventory F → ℕ → ℤ → Bool → Option (Heap F × Inventory F)
  unfolding check erase_checked
  erase_item h inv p cnt skip = do checked ← check h inv p; erase_checked h inv p cnt skip
