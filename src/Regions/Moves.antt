-- ===== src/Regions/Moves.antt =====
-- Objects that enter the world, move in it and leave it (AddObjectToWorld, onMoveObject and RemoveObjectFromWorld of
-- Chihiro/src/World/World.cpp).
use rzemulator.Base.{ℕ, ◌≡◌, ◌≢◌, ◌⊎◌, inl, inr, sym, ap, ◌∙◌, subst, false, none, some, arith}
use rzemulator.Regions.{
  World, updated, get_region, add_object, leave_place, add_object_to_world,
  remove_object_from_world,
}
use rzemulator.Regions.Cells.{OnMap, Found, get_region-Found}
use rzemulator.Regions.Members.{IsPlaced, Keeps, IsNew, add_object-IsPlaced}
use rzemulator.Regions.Removal.{remove_object-IsPlaced}
use rzemulator.Regions.Kept.{
  IsKept, LiesAt, IsSound, Found-IsKept, region_here, LiesAt-kept, on_after,
}

-- What an operation on the object `p` keeps: the map, all but the region of `p`, and where the others lie.
pub record Moved (p : ℕ) (w w' : World) : Type 0 where
  pub kept : IsKept w'
  pub others : (q : ℕ) → q ≢ p → (w'.object q).region ≡ (w.object q).region
  pub same :
      (q : ℕ)
      → ((w'.object q).handle ≡ (w.object q).handle)
        × ((w'.object q).obj_type ≡ (w.object q).obj_type)
        × ((w'.object q).rx ≡ (w.object q).rx)
        × ((w'.object q).ry ≡ (w.object q).ry)
        × ((w'.object q).layer ≡ (w.object q).layer)
  pub lies : (q x y : ℕ) → q ≢ p → LiesAt w q x y → LiesAt w' q x y
  pub widths :
      (w'.container.region_width ≡ w.container.region_width)
      × (w'.container.region_height ≡ w.container.region_height)

Keeps-LiesAt :
    {w w' : World} (p q x y : ℕ) → Keeps p w w' → q ≢ p → LiesAt w q x y → LiesAt w' q x y
Keeps-LiesAt {w} {w'} p q x y k ne lies r e =
    let (on, at) = lies r (sym (k.others q ne) ∙ e) in
    (rw k.container on, rw (k.container, (k.same q).4) at)

-- An operation on `p` after the region of a place has been found.
Found-Moved :
    {w w1 w2 : World} (p rx ry layer r : ℕ)
    → IsKept w
    → OnMap w.container rx ry
    → Found w rx ry layer r w1
    → IsPlaced w2
    → Keeps p w1 w2
    → Moved p w w2
Found-Moved {w} {w1} {w2} p rx ry layer r kept on f placed k =
    let kept1 = Found-IsKept w w1 rx ry layer r kept on f in
    record {
      kept = record {
        sized = rw k.container kept1.sized;
        placed = placed;
        below = rw (k.container, k.next_region) kept1.below;
      };
      others = λ q ne. k.others q ne ∙ ap (λ o. (o q).region) f.objects;
      same = λ q. rw (← f.objects) (k.same q);
      lies = λ q x y ne l.
          Keeps-LiesAt p q x y k ne (LiesAt-kept w w1 rx ry layer r kept on f q x y l);
      widths = (
        ap (λ c. c.region_width) k.container ∙ f.widths.0,
        ap (λ c. c.region_height) k.container ∙ f.widths.1,
      );
    }

-- Taking an object out of the region of the place where it lies.
pub leave_place_lem :
    (w : World) (p r x y : ℕ)
    → IsKept w
    → (w.object p).region ≡ some r
    → LiesAt w p x y
    → (w' : World) × (leave_place w p x y ≡ some w')
      × Moved p w w'
      × ((w'.object p).region ≡ none)
      × ((w'.object p).in_world ≡ false)
unfolding leave_place
leave_place_lem w p r x y kept has lies =
    let (on, at) = lies r has in
    let layer = (w.object p).layer in
    let (r1, w1, found, f) = get_region-Found w x y layer kept.sized on in
    let same : r1 ≡ r = (f.old r at).0 in
    let has1 : (w1.object p).region ≡ some r1 =
      ap (λ o. (o p).region) f.objects ∙ has ∙ ap some (sym same) in
    let kept1 = Found-IsKept w w1 x y layer r1 kept on f in
    let (w2, gone, placed, k, out, world) = remove_object-IsPlaced w1 r1 p kept1.placed has1 in
    (w2, rw found gone, Found-Moved p x y layer r1 kept on f placed k, out, world)

-- Putting an object that has no region into that of its place.
pub enter_place_lem :
    (w : World) (p : ℕ)
    → IsKept w
    → (w.object p).region ≡ none
    → IsNew w p
    → OnMap w.container (w.object p).rx (w.object p).ry
    → (w1 w' : World) × (r : ℕ) × (get_region w (w.object p).rx (w.object p).ry (w.object p).layer
        ≡ some (some r, w1))
      × (add_object w1 r p ≡ some w')
      × Moved p w w'
      × ((w'.object p).region ≡ some r)
      × LiesAt w' p (w'.object p).rx (w'.object p).ry
enter_place_lem w p kept out new on =
    let x = (w.object p).rx in
    let y = (w.object p).ry in
    let layer = (w.object p).layer in
    let (r, w1, found, f) = get_region-Found w x y layer kept.sized on in
    let kept1 = Found-IsKept w w1 x y layer r kept on f in
    let here = region_here w w1 x y layer r kept on f in
    let on1 = on_after w w1 x y layer r kept on f x y on in
    let (w2, done, placed, k, has, world) =
      add_object-IsPlaced w1 kept1.placed r p (kept1.below x y layer r on1 here)
        (ap (λ o. (o p).region) f.objects ∙ out)
        (λ q s e h.
          new q s (ap (λ o. (o q).region) (sym f.objects) ∙ e)
            (ap (λ o. (o q).handle) (sym f.objects) ∙ h ∙ ap (λ o. (o p).handle) f.objects)) in
    let m = Found-Moved p x y layer r kept on f placed k in
    let lies : LiesAt w2 p (w2.object p).rx (w2.object p).ry =
      λ q e. let s = m.same p in rw (s.2, s.3, s.4, k.container) (on1, here ∙ sym has ∙ e) in
    (w1, w2, r, found, done, m, has, lies)

-- Object `p` has come to other coordinates.
abbrev pub with_position : World → ℕ → ℕ → ℕ → World
with_position w p x y = record w {
  object = updated w.object p (record (w.object p) { rx = x; ry = y });
}

pub position_same :
    (w : World) (p x y q : ℕ)
    → (((with_position w p x y).object q).region ≡ (w.object q).region)
      × (((with_position w p x y).object q).region_index ≡ (w.object q).region_index)
      × (((with_position w p x y).object q).obj_type ≡ (w.object q).obj_type)
      × (((with_position w p x y).object q).layer ≡ (w.object q).layer)
position_same w p x y q = ground arith

pub eq_or_ne : (a b : ℕ) → (a ≡ b) ⊎ (a ≢ b)
eq_or_ne a b = omega arith

pub with_position-IsKept : (w : World) (p x y : ℕ) → IsKept w → IsKept (with_position w p x y)
with_position-IsKept w p x y k = record {
  sized = k.sized;
  placed = record {
    listed = λ r q i t lt e. ground (arith, k.placed.listed r q i t lt e);
    member = λ r q e.
        let s = position_same w p x y q in rw (s.1, s.2) (k.placed.member r q (sym s.0 ∙ e));
    handles = λ a b r s e f h. ground (arith, k.placed.handles a b r s);
  };
  below = k.below;
}

pub Moved-IsSound :
    (w w' : World) (p : ℕ)
    → Moved p w w'
    → ((q : ℕ) → q ≢ p → LiesAt w q (w.object q).rx (w.object q).ry)
    → LiesAt w' p (w'.object p).rx (w'.object p).ry
    → IsSound w'
Moved-IsSound w w' p m others own = record {
  kept = m.kept;
  located = λ q. elim (eq_or_ne q p) [
    | inl e ↦ subst (λ n. LiesAt w' n (w'.object n).rx (w'.object n).ry) (sym e) own
    | inr ne ↦
        let s = m.same q in
        rw (s.2, s.3) (m.lies q (w.object q).rx (w.object q).ry ne (others q ne))
  ];
}

-- An object that has no region, under a handle of its own and at a place of the map, enters the world: it
-- gets the region of its place, each other object keeps its own, and the world is sound again.
pub add_object_to_world_lem :
    (w : World) (p : ℕ)
    → IsSound w
    → (w.object p).region ≡ none
    → IsNew w p
    → OnMap w.container (w.object p).rx (w.object p).ry
    → (w' : World) × (r : ℕ) × (add_object_to_world w p ≡ some w')
      × IsSound w'
      × ((w'.object p).region ≡ some r)
      × ((q : ℕ) → q ≢ p → (w'.object q).region ≡ (w.object q).region)
unfolding add_object_to_world
add_object_to_world_lem w p s out new on =
    let (w1, w', r, found, done, m, has, lies) = enter_place_lem w p s.kept out new on in
    (w', r, rw (found, done), Moved-IsSound w w' p m (λ q ne. s.located q) lies, has, m.others)

-- An object that has a region leaves the world: it has none then, each other object keeps its own, and the
-- world is sound again; no assertion fails.
pub remove_object_from_world_lem :
    (w : World) (p r : ℕ)
    → IsSound w
    → (w.object p).region ≡ some r
    → (w' : World) × (remove_object_from_world w p ≡ some w')
      × IsSound w'
      × ((w'.object p).region ≡ none)
      × ((q : ℕ) → q ≢ p → (w'.object q).region ≡ (w.object q).region)
unfolding remove_object_from_world
remove_object_from_world_lem w p r s has =
    let (w', gone, m, out, world) =
      leave_place_lem w p r (w.object p).rx (w.object p).ry s.kept has (s.located p) in
    (w', gone, Moved-IsSound w w' p m (λ q ne. s.located q) (λ q e. cc), out, m.others)
