-- ===== src/Regions.antt =====
-- Chihiro/src/Map: RegionBlock.h and the part of RegionContainer.cpp that finds and makes regions, and Region.cpp,
-- with AddToWorld and RemoveFromWorld of Entities/Object/Object.cpp. A `Region *` and a `WorldObject *` are numbers, and
-- `World.region` and `World.object` the memory behind them; new regions take the next number. A vector of pointers is
-- a function of its index. An object keeps the coordinates of the region in which its position lies. `none` is an
-- ASSERT that fails, a read outside a vector or through a null pointer. Objects have their table of values and a
-- handle, as the assertions in AddToWorld and RemoveFromWorld ask.
pub mod Tests
pub mod Cells
pub mod Members
pub mod Removal
pub mod Kept
pub mod Moves
pub mod Crossing
pub mod Sight
pub mod Visits
pub mod Visible
pub mod History
use rzemulator.Base.{
  ◌>>=◌, ℕ, zero, suc, ◌+◌, ◌-◌, ◌*◌, ◌/◌, ◌%◌, ◌^◌, Bool, true, false, not, ◌&&◌, ◌||◌, Option,
  none, some, List, [], ◌∷◌, ◌++◌, length, get_elem?, set, ◌==◌, ltb, leb, if◌then◌else◌,
}
use rzemulator.Base.Vectors.{last?, drop_last}
use rzemulator.Base.Int.{ℤ, pos, negsuc}

pub data ObjType : Type 0 where
  obj_static obj_movable obj_client : ObjType

pub record WorldObject : Type 0 where
  pub handle : ℕ
  pub obj_type : ObjType
  pub region : Option ℕ
  pub region_index : ℤ
  pub in_world : Bool
  pub rx : ℕ
  pub ry : ℕ
  pub layer : ℕ

pub record Region : Type 0 where
  pub x : ℕ
  pub y : ℕ
  pub layer : ℕ
  pub static_objects : List ℕ
  pub movable_objects : List ℕ
  pub client_objects : List ℕ

abbrev pub RegionBase : Type 0
RegionBase = ℕ → Option ℕ

abbrev pub RegionBlock : Type 0
RegionBlock = ℕ → Option RegionBase

pub record RegionContainer : Type 0 where
  pub region_width : ℕ
  pub region_height : ℕ
  pub block_width : ℕ
  pub block_height : ℕ
  pub blocks : ℕ → Option RegionBlock

pub record World : Type 0 where
  pub container : RegionContainer
  pub object : ℕ → WorldObject
  pub region : ℕ → Region
  pub next_region : ℕ

-- A write to a vector or to memory.
abbrev pub updated : {A : Type 0} → (ℕ → A) → ℕ → A → ℕ → A
updated f k v i = if k == i then v else f i

-- `InitRegion`, after the widths of the map in regions have been computed from floats.
unfoldable pub init_region : ℕ → ℕ → RegionContainer
init_region region_width region_height = record {
  region_width = region_width;
  region_height = region_height;
  block_width = region_width / 100 + 1;
  block_height = region_height / 100 + 1;
  blocks = λ i. none;
}

pub is_valid_region : RegionContainer → ℕ → ℕ → Bool
is_valid_region c rx ry = ltb rx c.region_width && ltb ry c.region_height

-- The pointer that is there, or a new one.
pub or_new : {A : Type 0} → Option A → A → A
or_new none made = made
or_new (some old) made = old

-- `RegionBlock::getRegion`, on the block that it changes.
pub block_get_region : World → RegionBlock → ℕ → ℕ → ℕ → ℕ × RegionBlock × World
unfolding or_new
block_get_region w b rx ry layer =
    let rb = or_new (b layer) (λ i. none) in
    let i = rx + 100 * ry in
    let made = w.next_region in
    let empty : Region = record {
      x = rx;
      y = ry;
      layer = layer;
      static_objects = [];
      movable_objects = [];
      client_objects = [];
    } in
    elim (rb i) [
      | some r ↦ (r, updated b layer (some rb), w)
      | none ↦ (
        made,
        updated b layer (some (updated rb i (some made))),
        record w { region = updated w.region made empty; next_region = made + 1 },
      )
    ]

pub block_index : RegionContainer → ℕ → ℕ → ℕ
block_index c rcx rcy = (rcx + rcy * c.block_width) % 2 ^ 32

pub block_count : RegionContainer → ℕ
block_count c = c.block_height * c.block_width % 2 ^ 32

-- The block that a pointer leads to is changed in its place.
pub in_block : World → ℕ → RegionBlock → ℕ → ℕ → ℕ → Option ℕ × World
unfolding block_get_region
in_block w k b rx ry layer =
    let r = block_get_region w b (rx % 100) (ry % 100) layer in
    let c = w.container in
    (some (r.0), record (r.2) { container = record c { blocks = updated c.blocks k (some (r.1)) } })

-- `getRegionPtr`, which makes a region too, though no block.
pub get_region_ptr : World → ℕ → ℕ → ℕ → Option (Option ℕ × World)
unfolding block_index block_count in_block
get_region_ptr w rx ry layer =
    let k = block_index w.container (rx / 100) (ry / 100) in
    if ltb k (block_count w.container)
    then (elim (w.container.blocks k) [
      | none ↦ some (none, w)
      | some b ↦ some (in_block w k b rx ry layer)
    ])
    else none

-- The private `getRegion`.
pub make_region : World → ℕ → ℕ → ℕ → Option (Option ℕ × World)
unfolding block_index block_count in_block or_new
make_region w rx ry layer =
    let k = block_index w.container (rx / 100) (ry / 100) in
    let b = or_new (w.container.blocks k) (λ l. none) in
    if ltb k (block_count w.container) then some (in_block w k b rx ry layer) else none

-- `GetRegion` of coordinates.
pub get_region : World → ℕ → ℕ → ℕ → Option (Option ℕ × World)
unfolding is_valid_region make_region
get_region w rx ry layer =
    if is_valid_region w.container rx ry then make_region w rx ry layer else some (none, w)

abbrev pub list_of : Region → ObjType → List ℕ
list_of r obj_static = r.static_objects
list_of r obj_movable = r.movable_objects
list_of r obj_client = r.client_objects

abbrev pub with_list : Region → ObjType → List ℕ → Region
with_list r obj_static l = record r { static_objects = l }
with_list r obj_movable l = record r { movable_objects = l }
with_list r obj_client l = record r { client_objects = l }

pub is_null : {A : Type 0} → Option A → Bool
is_null none = true
is_null (some a) = false

-- `Region::AddObject` with `addObject`.
pub add_object : World → ℕ → ℕ → Option World
unfolding is_null
add_object w r p =
    let obj = w.object p in
    let list = list_of (w.region r) obj.obj_type ++ p ∷ [] in
    if is_null obj.region
    then some (record w {
      region = updated w.region r (with_list (w.region r) obj.obj_type list);
      object =
          updated w.object p
            (record obj { in_world = true; region = some r; region_index = pos (length list - 1) });
    })
    else none

-- A subscript that is negative, or too large, lies outside the vector.
pub at_subscript : List ℕ → ℤ → Option ℕ
at_subscript list (pos i) = get_elem? list i
at_subscript list (negsuc i) = none

pub set_subscript : List ℕ → ℤ → ℕ → List ℕ
set_subscript list (pos i) q = set list i q
set_subscript list (negsuc i) q = list

pub is_region : Option ℕ → ℕ → Bool
is_region none r = false
is_region (some q) r = q == r

pub take_out : World → ℕ → ℕ → ℕ → World
unfolding set_subscript
take_out w r p back =
    let obj = w.object p in
    let list = list_of (w.region r) obj.obj_type in
    let moves = not ((w.object back).handle == obj.handle) in
    let list' = if moves then set_subscript list obj.region_index back else list in
    let objects =
      if moves
      then updated w.object back (record (w.object back) { region_index = obj.region_index })
      else w.object in
    record w {
      region = updated w.region r (with_list (w.region r) obj.obj_type (drop_last list'));
      object =
          updated objects p
            (record (objects p) { region_index = negsuc 0; region = none; in_world = false });
    }

-- `Region::RemoveObject` with `removeObject`.
pub remove_object : World → ℕ → ℕ → Option World
unfolding at_subscript is_region take_out
remove_object w r p = do
  let obj = w.object p
  let list = list_of (w.region r) obj.obj_type
  back ← last? list
  q ← at_subscript list obj.region_index
  if (w.object q).handle == obj.handle && is_region obj.region r
      then some (take_out w r p back)
      else none

-- The parts of World.cpp that put an object into a region, take it out, and move it after its position has changed
-- to other coordinates. The functors that tell the clients around, and the regions that are made for these on the
-- way, are left out.
unfoldable pub add_object_to_world : World → ℕ → Option World
unfolding get_region add_object
add_object_to_world w p = do
  let obj = w.object p
  (region, w') ← get_region w obj.rx obj.ry obj.layer
  elim region [ none ↦ some w' | some r ↦ add_object w' r p ]

-- `GetRegion(…)->RemoveObject(obj)` and `GetRegion(…)->AddObject(obj)`.
pub leave_place : World → ℕ → ℕ → ℕ → Option World
unfolding get_region remove_object
leave_place w p rx ry = do
  (region, w') ← get_region w rx ry (w.object p).layer
  elim region [ none ↦ none | some r ↦ remove_object w' r p ]

pub enter_place : World → ℕ → Option World
unfolding get_region add_object
enter_place w p = do
  let obj = w.object p
  (region, w') ← get_region w obj.rx obj.ry obj.layer
  elim region [ none ↦ none | some r ↦ add_object w' r p ]

unfoldable pub remove_object_from_world : World → ℕ → Option World
unfolding leave_place
remove_object_from_world w p = leave_place w p (w.object p).rx (w.object p).ry

unfoldable pub on_move_object : World → ℕ → ℕ → ℕ → Option World
unfolding leave_place enter_place
on_move_object w p prev_rx prev_ry =
    let obj = w.object p in
    let crossed = leave_place w p prev_rx prev_ry >>= λ w'. enter_place w' p in
    if prev_rx == obj.rx && prev_ry == obj.ry then some w else crossed
