-- ===== src/Crafting.antt =====
-- Chihiro/src/Crafting/MixManager.h and the part of MixManager.cpp that registers recipes and finds the recipe of a
-- request. Items are never null but for the main one, as in the only caller. The numbers of `MaterialInfo.type` are
-- constructors, and an array is a list. `none` is a read through a null pointer or outside an array. Fields that
-- none of this touches are left out.
pub mod Enhance
pub mod Request
pub mod Arrange
pub mod Single
pub mod Takes
pub mod Levels
pub mod Failures
pub mod Registry
pub mod Tests
use rzemulator.Base.{
  ◌>>=◌, ℕ, zero, suc, ◌-◌, ◌%◌, ◌^◌, Bool, true, false, not, ◌&&◌, Option, none, some, List, [],
  ◌∷◌, ◌++◌, length, get_elem?, ◌==◌, if◌then◌else◌, bit_and,
}
use rzemulator.Base.Int.{ℤ, pos, negsuc, eqb_ℤ, ltb_ℤ}

-- `Item` with its `ItemInstance` and what the code reads of its `ItemTemplate`; `flag` is a word of 32 bits.
pub record CraftItem : Type 0 where
  pub handle : ℕ
  pub item_type : ℕ
  pub group : ℤ
  pub item_class : ℤ
  pub code : ℤ
  pub rank : ℤ
  pub level : ℤ
  pub flag : ℕ
  pub enhance : ℤ
  pub wear_type : ℤ
  pub count : ℤ
  pub status_flag : ℕ

-- `no_check` is 0 and every number that the enumeration does not name.
pub data CheckType : Type 0 where
  no_check check_item_group check_item_class check_item_id check_item_rank check_item_level :
      CheckType
  check_flag_on check_flag_off check_enhance_match check_enhance_dismatch check_item_count :
      CheckType
  check_elemental_effect_match check_elemental_effect_mismatch : CheckType
  check_item_wear_position_match check_item_wear_position_mismatch check_item_count_ge : CheckType
  check_item_ethereal_durability_e check_item_ethereal_durability_ne check_item_grade : CheckType
  check_same_item_id check_same_summon_code : CheckType

pub record Condition : Type 0 where
  pub type_ : CheckType
  pub value : ℤ

-- The first condition, and the other four.
pub record MaterialInfo : Type 0 where
  pub first : Condition
  pub others : List Condition

-- `other_mix` is every number that the enumeration does not name, 0 among them.
pub data MixType : Type 0 where
  other_mix mix_enhance mix_enhance_skill_card mix_enhance_without_fail mix_set_level : MixType
  mix_set_level_create_item mix_set_level_set_flag mix_set_level_set_flag_create_item : MixType
  mix_add_level mix_add_level_create_item mix_add_level_set_flag : MixType
  mix_add_level_set_flag_create_item mix_recycle mix_recycle_enhance : MixType
  mix_restore_enhance_set_flag mix_create_item : MixType

-- `sub_material` has 9 entries.
pub record MixBase : Type 0 where
  pub id : ℤ
  pub type_ : MixType
  pub value : ℕ → ℤ
  pub sub_material_cnt : ℕ
  pub main_material : MaterialInfo
  pub sub_material : List MaterialInfo

-- `MixManager::RegisterMixInfo`.
abbrev pub is_registered : ℤ → List MixBase → Bool
is_registered id [] = false
is_registered id (m ∷ ms) = if eqb_ℤ m.id id then true else is_registered id ms

unfoldable pub register_mix_info : MixBase → List MixBase → List MixBase
register_mix_info info ms = if is_registered info.id ms then ms else ms ++ info ∷ []

-- `value & 0x1F` and `(1 << bit) & Flag`.
abbrev low_bits : ℤ → ℕ
low_bits (pos n) = n % 32
low_bits (negsuc n) = 31 - n % 32

abbrev is_flag_on : ℕ → ℤ → Bool
is_flag_on flag v = not (bit_and (2 ^ low_bits v) flag == 0)

-- One turn of the loop of `MixManager::check_material_info`.
unfoldable pub meets : CraftItem → ℕ → Condition → Bool
meets it count c = elim c.type_ [
  | check_item_group ↦ eqb_ℤ it.group c.value
  | check_item_class ↦ eqb_ℤ it.item_class c.value
  | check_item_id ↦ eqb_ℤ it.code c.value
  | check_item_rank ↦ eqb_ℤ it.rank c.value
  | check_item_level ↦ eqb_ℤ it.level c.value
  | check_flag_on ↦ is_flag_on it.flag c.value
  | check_flag_off ↦ not (is_flag_on it.flag c.value)
  | check_enhance_match ↦ eqb_ℤ it.enhance c.value
  | check_enhance_dismatch ↦ not (eqb_ℤ it.enhance c.value)
  | check_item_count ↦ eqb_ℤ (pos count) c.value
  | check_item_wear_position_match ↦ eqb_ℤ it.wear_type c.value
  | check_item_wear_position_mismatch ↦ not (eqb_ℤ it.wear_type c.value)
  | _ ↦ true
]

abbrev pub meets_all : CraftItem → ℕ → List Condition → Bool
meets_all it count [] = true
meets_all it count (c ∷ cs) = if meets it count c then meets_all it count cs else false

abbrev pub is_unset : CheckType → Bool
is_unset no_check = true
is_unset _ = false

-- `MixManager::check_material_info`: the count that it leaves, where it holds.
unfoldable pub check_material_info : MaterialInfo → Option CraftItem → ℕ → Option ℕ
check_material_info info none count = if is_unset info.first.type_ then some count else none
check_material_info info (some it) count =
    if is_unset info.first.type_
    then none
    else (if meets_all it count (info.first ∷ info.others) then some 1 else none)

-- What the arrays of `GetProperMixInfo` hold at one index.
pub record Slot : Type 0 where
  pub material : MaterialInfo
  pub item : CraftItem
  pub count : ℕ
  pub checked : Bool

unfoldable pub slots_of : List MaterialInfo → List CraftItem → List ℕ → List Slot
slots_of (m ∷ ms) (it ∷ its) (c ∷ cs) =
    record { material = m; item = it; count = c; checked = false } ∷ slots_of ms its cs
slots_of _ _ _ = []

abbrev pub counts_of : List Slot → List ℕ
counts_of [] = []
counts_of (s ∷ ss) = s.count ∷ counts_of ss

abbrev pub items_of : List Slot → List CraftItem
items_of [] = []
items_of (s ∷ ss) = s.item ∷ items_of ss

abbrev pub after_slot : Slot → Option (Slot × List Slot) → Option (Slot × List Slot)
after_slot s none = none
after_slot s (some (t, ss)) = some (t, s ∷ ss)

-- The inner loop: the first entry that is not checked and passes.
abbrev pub is_passing : Slot → Option ℕ
is_passing s = check_material_info s.material (some s.item) s.count

unfoldable pub find_slot : List Slot → Option (Slot × List Slot)
find_slot [] = none
find_slot (s ∷ ss) =
    let rest = after_slot s (find_slot ss) in
    if s.checked then rest else elim (is_passing s) [
      | none ↦ rest
      | some c ↦ (let t = record s { count = c; checked = true } in some (t, t ∷ ss))
    ]

-- The outer loop: the arrays afterwards, and the arranged entries if it succeeds.
abbrev pub cons_slot : Slot → List Slot × Option (List Slot) → List Slot × Option (List Slot)
cons_slot s (out, none) = (out, none)
cons_slot s (out, some picked) = (out, some (s ∷ picked))

unfoldable pub arrange : ℕ → List Slot → List Slot × Option (List Slot)
arrange zero ss = (ss, some [])
arrange (suc n) ss = elim (find_slot ss) [
  | none ↦ (ss, none)
  | some (s, ss') ↦ cons_slot s (arrange n ss')
]

-- `MixManager::post_arrange_check_material_info`.
abbrev slot_item : Option CraftItem → List CraftItem → ℤ → Option CraftItem
slot_item main arranged (pos zero) = main
slot_item main arranged (pos (suc k)) = get_elem? arranged k
slot_item main arranged (negsuc k) = none

abbrev is_same_item : Option CraftItem → ℕ → List CraftItem → Option CraftItem → ℤ → Option Bool
is_same_item main n arranged item v =
    if ltb_ℤ v (pos 0) && ltb_ℤ (pos n) v
    then some false
    else (do a ← item; b ← slot_item main arranged v; some (eqb_ℤ a.code b.code))

unfoldable pub post_arrange_check_material_info :
    Option CraftItem → ℕ → List CraftItem → Option CraftItem → List Condition → Option Bool
post_arrange_check_material_info main n arranged item [] = some true
post_arrange_check_material_info main n arranged item (c ∷ cs) =
    let rest = post_arrange_check_material_info main n arranged item cs in
    elim c.type_ [
      | check_same_item_id ↦ (do
        same ← is_same_item main n arranged item c.value
        if same then rest else some false)
      | check_same_summon_code ↦ some false
      | _ ↦ rest
    ]

-- The loop over the arranged materials.
abbrev pub conditions : MaterialInfo → List Condition
conditions m = m.first ∷ m.others

unfoldable pub post_arrange_checks :
    Option CraftItem → ℕ → List CraftItem → List MaterialInfo → List CraftItem → Option Bool
post_arrange_checks main n arranged (m ∷ ms) (it ∷ its) =
    let rest = post_arrange_checks main n arranged ms its in
    (do
      ok ← post_arrange_check_material_info main n arranged (some it) (conditions m)
      if ok then rest else some false)
post_arrange_checks main n arranged _ _ = some true

-- One recipe: the counts afterwards, and whether it fits.
unfoldable pub after_arrange :
    MixBase → Option CraftItem → ℕ → List ℕ → Option (List Slot) → Option (List ℕ × Bool)
after_arrange mb main n counts none = some (counts, false)
after_arrange mb main n counts (some picked) = do
  ok ← post_arrange_check_material_info main n (items_of picked) main (conditions mb.main_material)
  if ok
      then (do
        fits ← post_arrange_checks main n (items_of picked) mb.sub_material (items_of picked)
        some (counts, fits))
      else some (counts, false)

unfoldable pub try_mix_info :
    MixBase → Option CraftItem → List CraftItem → List ℕ → Option (List ℕ × Bool)
try_mix_info mb main items counts =
    if not (mb.sub_material_cnt == length items)
    then some (counts, false)
    else elim (check_material_info mb.main_material main 1) [
      | none ↦ some (counts, false)
      | some c ↦
          (let (out, picked) = arrange (length items) (slots_of mb.sub_material items counts) in
            after_arrange mb main (length items) (counts_of out) picked)
    ]

-- `MixManager::GetProperMixInfo`: the caller's counts afterwards, and the recipe.
unfoldable pub get_proper_mix_info :
    List MixBase → Option CraftItem → List CraftItem → List ℕ → Option (List ℕ × Option MixBase)
get_proper_mix_info [] main items counts = some (counts, none)
get_proper_mix_info (mb ∷ mbs) main items counts = elim (try_mix_info mb main items counts) [
  | none ↦ none
  | some (counts', false) ↦ get_proper_mix_info mbs main items counts'
  | some (counts', true) ↦ some (counts', some mb)
]
