-- ===== src/Inventory/Tests.antt =====
-- A small inventory: three items, the first two of which can be stacked.
use rzemulator.Base.{
  ℕ, zero, suc, ◌+◌, ◌<◌, ◌≡◌, ◌≢◌, ◌↔◌, refl, true, false, Option, none, some, [], ◌∷◌, get_elem?,
  ◌==◌, if◌then◌else◌, arith,
}
use rzemulator.Base.Int.{ℤ, pos, ◌+ℤ◌, ◌-ℤ◌, ◌*ℤ◌}
use rzemulator.Item.{FloatOps, ItemTemplate, Item}
use rzemulator.Inventory.{Heap, Inventory, push, pop, erase_item, check, wear_none}
use rzemulator.Inventory.Index.{IsIndexed, check_iff}
use rzemulator.Base.Vectors.{Holds}
use rzemulator.Inventory.Amounts.{push_lem, pop_lem, erase_item_lem}
use rzemulator.Inventory.Contents.{pop_whole, pop_part, pop_more}

-- Weights as whole numbers.
abbrev int_ops : FloatOps ℤ
int_ops = record { add = ◌+ℤ◌; sub = ◌-ℤ◌; mul = ◌*ℤ◌; of_int = λ n. n }

abbrev potion : ItemTemplate ℤ
potion = record { flag_duplicate = pos 1; weight = pos 2; decrease_type = pos 0 }

abbrev item_with : ℕ → ℕ → Item ℤ
item_with p i = record {
  base = some potion;
  handle = 100 + p;
  storage_index = i;
  uid = pos p;
  code = pos (7 + p);
  count = pos 5;
  flag = 0;
  wear_info = wear_none;
  idx = pos p;
  owner_handle = 1;
  owner_uid = pos 1;
}

-- The items 10, 11 and 12 at their places; 13 lies outside.
abbrev memory : ℕ → Item ℤ
memory p =
    if p == 10
    then item_with 10 0
    else if p == 11
    then item_with 11 1
    else if p == 12
    then item_with 12 2
    else item_with 13 0

abbrev heap : Heap ℤ
heap = record { item = memory; next = 14; item_top = 114; deleted = []; events = [] }

abbrev bag : Inventory ℤ
bag = record {
  has_receiver = true;
  weight = pos 30;
  weight_modifier = pos 0;
  list = 10 ∷ 11 ∷ 12 ∷ [];
  expire_list = [];
  index = pos 12;
}

abbrev no_base : ℤ → Option (ItemTemplate ℤ)
no_base code = some potion

places :
    (i p : ℕ) → get_elem? bag.list i ≡ some p → ((heap.item p).storage_index ≡ i) × (p < heap.next)
places zero p e = ground arith
places (suc zero) p e = ground arith
places (suc (suc zero)) p e = ground arith
places (suc (suc (suc i))) p e = absurd (ground arith)

bag-IsIndexed : IsIndexed heap bag.list
bag-IsIndexed = record { at_index = places; fits = omega arith }

absent : ¬ Holds bag.list 13
absent (zero, e) = ground arith
absent (suc zero, e) = ground arith
absent (suc (suc zero), e) = ground arith
absent (suc (suc (suc i)), e) = ground arith

has_base : (p : ℕ) → (heap.item p).base ≢ none
has_base p = ground arith

check_iff_run : (check heap bag 11 ≡ some true) ↔ Holds bag.list 11
check_iff_run = check_iff heap bag 11 bag-IsIndexed

push_lem_example :
    (h' : Heap ℤ) × (inv' : Inventory ℤ) × (q : ℕ) × (push int_ops heap bag 13 (pos 5) false
      ≡ some (h', inv', q))
    × IsIndexed h' inv'.list
    × (check h' inv' q ≡ some true)
push_lem_example =
    push_lem int_ops heap bag 13 (pos 5) false bag-IsIndexed (λ p m. has_base p) (has_base 13)
      (omega arith) (omega arith) absent

pop_lem_example :
    (h' : Heap ℤ) × (inv' : Inventory ℤ) × (q : Option ℕ) × (pop int_ops no_base heap bag 10
        (pos 5)
        false
      ≡ some (h', inv', q))
    × IsIndexed h' inv'.list
pop_lem_example =
    pop_lem int_ops no_base heap bag 10 (pos 5) false bag-IsIndexed (0, refl) (has_base 10)

erase_item_lem_example :
    (h' : Heap ℤ) × (inv' : Inventory ℤ) × (erase_item int_ops heap bag 10 (pos 2) false
      ≡ some (h', inv'))
    × IsIndexed h' inv'.list
erase_item_lem_example =
    erase_item_lem int_ops heap bag 10 (pos 2) false bag-IsIndexed (0, refl) (has_base 10)

pop_whole_example :
    (h' : Heap ℤ) × (inv' : Inventory ℤ) × (pop int_ops no_base heap bag 10 (pos 5) false
      ≡ some (h', inv', some 10))
    × ((x : ℕ) → Holds inv'.list x ↔ (Holds bag.list x × (x ≢ 10)))
    × ((x : ℕ) → (h'.item x).count ≡ (heap.item x).count)
pop_whole_example =
    pop_whole int_ops no_base heap bag 10 false bag-IsIndexed (0, refl) (has_base 10)

pop_part_example :
    (h' : Heap ℤ) × (inv' : Inventory ℤ) × (pop int_ops no_base heap bag 11 (pos 2) false
      ≡ some (h', inv', some 14))
    × (inv'.list ≡ bag.list)
    × ((h'.item 14).code ≡ pos 18)
    × ((h'.item 14).count ≡ pos 2)
    × ((h'.item 11).count +ℤ (h'.item 14).count ≡ pos 5)
    × ((x : ℕ) → x ≢ 11 → x ≢ 14 → h'.item x ≡ heap.item x)
pop_part_example =
    pop_part int_ops no_base heap bag 11 (pos 2) false bag-IsIndexed (1, refl) (has_base 11) refl

pop_too_many : pop int_ops no_base heap bag 11 (pos 6) false ≡ some (heap, bag, none)
pop_too_many = pop_more int_ops no_base heap bag 11 (pos 6) false bag-IsIndexed (1, refl) refl
