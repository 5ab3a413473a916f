-- ===== src/Regions/History.antt =====
-- All that can happen to the objects of a world (Chihiro/src/World/World.cpp), from the start on.
use rzemulator.Base.{
  ℕ, ap, inl, inr, ◌≢◌, ◌+◌, ◌*◌, ◌/◌, ◌^◌, ◌<◌, ◌≡◌, sym, subst, ◌∙◌, Option, none, some, arith,
}
use rzemulator.Regions.{
  WorldObject, Region, World, init_region, add_object_to_world, remove_object_from_world,
  on_move_object, updated,
}
use rzemulator.Regions.Cells.{OnMap, init_region-IsSized, init_region_empty}
use rzemulator.Regions.Members.{IsNew}
use rzemulator.Regions.Kept.{IsKept, IsSound}
use rzemulator.Regions.Moves.{
  eq_or_ne, with_position, add_object_to_world_lem, remove_object_from_world_lem,
}
use rzemulator.Regions.Crossing.{on_move_object_lem}

-- After InitRegion, over a memory in which no object has a region.
abbrev pub start : ℕ → ℕ → (ℕ → WorldObject) → (ℕ → Region) → World
start width height object region = record {
  container = init_region width height;
  object = object;
  region = region;
  next_region = 0;
}

-- `SetCurrentXY` and `SetLayer` of an object that is out of the world, as WarpEnd and WarpEndSummon do.
abbrev pub with_place : World → ℕ → ℕ → ℕ → ℕ → World
with_place w p x y layer = record w {
  object = updated w.object p (record (w.object p) { rx = x; ry = y; layer = layer });
}

-- A call that returns, on an object of the map, or a new place for an object that is out of the world.
pub data Change : World → World → Type 0 where
  enters :
      {w w' : World} (p : ℕ)
      → (w.object p).region ≡ none
      → IsNew w p
      → OnMap w.container (w.object p).rx (w.object p).ry
      → add_object_to_world w p ≡ some w'
      → Change w w'
  leaves :
      {w w' : World} (p r : ℕ)
      → (w.object p).region ≡ some r
      → remove_object_from_world w p ≡ some w'
      → Change w w'
  moves :
      {w w' : World} (p r x y : ℕ)
      → (w.object p).region ≡ some r
      → OnMap w.container x y
      → on_move_object (with_position w p x y) p (w.object p).rx (w.object p).ry ≡ some w'
      → Change w w'
  warps :
      {w : World} (p x y layer : ℕ)
      → (w.object p).region ≡ none
      → Change w (with_place w p x y layer)

pub data Reach (w : World) : World → Type 0 where
  here : Reach w w
  next : {w' w'' : World} → Reach w w' → Change w' w'' → Reach w w''

some-ne-none : {A : Type 0} {a : A} → none ≡ some a → ⊥
some-ne-none e = cc

some_inj : {A : Type 0} {a b : A} → some a ≡ some b → a ≡ b
some_inj e = cc

same_result : {w w' : World} (o : Option World) → o ≡ some w' → o ≡ some w → IsSound w → IsSound w'
same_result {w} {w'} o e f s = subst IsSound (some_inj (sym f ∙ e)) s

place_same :
    (w : World) (p x y layer q : ℕ)
    → (((with_place w p x y layer).object q).region ≡ (w.object q).region)
      × (((with_place w p x y layer).object q).region_index ≡ (w.object q).region_index)
      × (((with_place w p x y layer).object q).obj_type ≡ (w.object q).obj_type)
place_same w p x y layer q = ground arith

with_place-IsKept : (w : World) (p x y layer : ℕ) → IsKept w → IsKept (with_place w p x y layer)
with_place-IsKept w p x y layer k = record {
  sized = k.sized;
  placed = record {
    listed = λ r q i t lt e. ground (arith, k.placed.listed r q i t lt e);
    member = λ r q e.
        let s = place_same w p x y layer q in rw (s.1, s.2) (k.placed.member r q (sym s.0 ∙ e));
    handles = λ a b r s e f h. ground (arith, k.placed.handles a b r s);
  };
  below = k.below;
}

other_place :
    (w : World) (p x y layer q : ℕ) → q ≢ p → (with_place w p x y layer).object q ≡ w.object q
other_place w p x y layer q ne = ground arith

with_place-IsSound :
    (w : World) (p x y layer : ℕ)
    → (w.object p).region ≡ none
    → IsSound w
    → IsSound (with_place w p x y layer)
with_place-IsSound w p x y layer out s = record {
  kept = with_place-IsKept w p x y layer s.kept;
  located = λ q r e. elim (eq_or_ne q p) [
    | inl own ↦ absurd (
        some-ne-none
          (sym (ap (λ n. (w.object n).region) own ∙ out) ∙ sym (place_same w p x y layer q).0 ∙ e))
    | inr ne ↦
        rw (other_place w p x y layer q ne) (s.located q r (sym (place_same w p x y layer q).0 ∙ e))
  ];
}

Change-IsSound : {w w' : World} → Change w w' → IsSound w → IsSound w'
Change-IsSound {w} (enters p out new on e) s =
    let (w1, r, run, sound, has, rest) = add_object_to_world_lem w p s out new on in
    same_result (add_object_to_world w p) e run sound
Change-IsSound {w} (leaves p r has e) s =
    let (w1, run, sound, gone, rest) = remove_object_from_world_lem w p r s has in
    same_result (remove_object_from_world w p) e run sound
Change-IsSound {w} (moves p r x y has on e) s =
    let (w1, r', run, sound, has', at, rest) = on_move_object_lem w p r x y s has on in
    same_result (on_move_object (with_position w p x y) p (w.object p).rx (w.object p).ry) e run
      sound
Change-IsSound {w} (warps p x y layer out) s = with_place-IsSound w p x y layer out s

pub start-IsSound :
    (width height : ℕ) (object : ℕ → WorldObject) (region : ℕ → Region)
    → (height / 100 + 1) * (width / 100 + 1) < 2 ^ 32
    → ((p : ℕ) → (object p).region ≡ none)
    → IsSound (start width height object region)
start-IsSound width height object region fits out = record {
  kept = record {
    sized = init_region-IsSized width height fits;
    placed = record {
      listed = λ r p i t lt e. absurd (omega arith);
      member = λ r p e. absurd (some-ne-none (sym (out p) ∙ e));
      handles = λ p q r s e f h. absurd (some-ne-none (sym (out p) ∙ e));
    };
    below = λ x y layer r on e.
        absurd (some-ne-none (sym (init_region_empty width height x y layer) ∙ e));
  };
  located = λ p r e. absurd (some-ne-none (sym (out p) ∙ e));
}

-- However objects enter a world that was empty, move on its map, leave it, and get another place and layer while they
-- are out of it: each entry of a region's list is an object
-- that has this region, the index of the entry and the list's type; an object that has a region is in its list,
-- and the region is that of the object's place.
pub Reached-IsSound :
    (width height : ℕ) (object : ℕ → WorldObject) (region : ℕ → Region) (w : World)
    → (height / 100 + 1) * (width / 100 + 1) < 2 ^ 32
    → ((p : ℕ) → (object p).region ≡ none)
    → Reach (start width height object region) w
    → IsSound w
Reached-IsSound width height object region w fits out here =
    start-IsSound width height object region fits out
Reached-IsSound width height object region w fits out (next r c) =
    Change-IsSound c (Reached-IsSound width height object region _ fits out r)
