-- ===== src/Item.antt =====
-- Chihiro/src/Entities/Item/Item.cpp, the parts that the inventory calls. `float` is a type `F` with the
-- operations that the code applies; `none` is a read through a null template. Item fields that none of
-- this touches are left out.
use rzemulator.Base.{Bool, false, not, ◌||◌, Option, none, some, ℕ}
use rzemulator.Base.Int.{ℤ, pos, eqb_ℤ}

-- `float` arithmetic, and the conversion of an `int64_t`.
pub record FloatOps (F : Type 0) : Type 0 where
  pub add : F → F → F
  pub sub : F → F → F
  pub mul : F → F → F
  pub of_int : ℤ → F

-- `ItemTemplate`: `flaglist[FLAG_DUPLICATE]`, `weight` and `decrease_type`.
pub record ItemTemplate (F : Type 0) : Type 0 where
  pub flag_duplicate : ℤ
  pub weight : F
  pub decrease_type : ℤ

-- `Item` with its `ItemInstance`; `wear_info` is the number of the `ItemWearType`.
pub record Item (F : Type 0) : Type 0 where
  pub base : Option (ItemTemplate F)
  pub handle : ℕ
  pub storage_index : ℕ
  pub uid : ℤ
  pub code : ℤ
  pub count : ℤ
  pub flag : ℕ
  pub wear_info : ℤ
  pub idx : ℤ
  pub owner_handle : ℕ
  pub owner_uid : ℤ

module _ {F : Type 0} where
  -- `Item::IsJoinable` and `Item::IsExpireItem`.
  unfoldable pub is_joinable : Item F → Bool
  is_joinable it = elim it.base [ none ↦ false | some b ↦ not (eqb_ℤ b.flag_duplicate (pos 0)) ]

  unfoldable pub is_expire_item : Item F → Option Bool
  is_expire_item it = elim it.base [
    | none ↦ none
    | some b ↦ some (eqb_ℤ b.decrease_type (pos 1) || eqb_ℤ b.decrease_type (pos 2))
  ]

module _ {F : Type 0} (ops : FloatOps F) where
  -- `Item::GetWeight`.
  unfoldable pub get_weight : Item F → Option F
  get_weight it = elim it.base [
    | none ↦ none
    | some b ↦ some (ops.mul b.weight (ops.of_int it.count))
  ]
