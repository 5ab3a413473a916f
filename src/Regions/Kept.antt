-- ===== src/Regions/Kept.antt =====
-- What stays as it is when the region of a place is found or made (Chihiro/src/Map).
use rzemulator.Base.{
  ℕ, ◌≤◌, ◌<◌, ◌≡◌, ◌≢◌, inl, inr, sym, ap, ◌∙◌, ◌&&◌, none, some, get_elem?, ◌==◌, arith,
  Bool-cases, Option-cases,
}
use rzemulator.Regions.{ObjType, obj_static, obj_movable, obj_client, World, list_of, at_subscript}
use rzemulator.Regions.Cells.{region_at, IsSized, OnMap, Found}
use rzemulator.Regions.Members.{members, IsPlaced}

-- The regions are apart from the free memory, and each list fits what its objects know.
pub record IsKept (w : World) : Type 0 where
  pub sized : IsSized w.container
  pub placed : IsPlaced w
  pub below :
      (x y layer r : ℕ)
      → OnMap w.container x y
      → region_at w.container x y layer ≡ some r
      → r < w.next_region

-- If the object has a region, it is the region of that place on the map.
abbrev pub LiesAt : World → ℕ → ℕ → ℕ → Type 0
LiesAt w p x y =
    (r : ℕ)
    → (w.object p).region ≡ some r
    → OnMap w.container x y × (region_at w.container x y (w.object p).layer ≡ some r)

-- Besides, each object that has a region has that of its own place.
pub record IsSound (w : World) : Type 0 where
  pub kept : IsKept w
  pub located : (p : ℕ) → LiesAt w p (w.object p).rx (w.object p).ry

members_kept :
    (w w' : World) (rx ry layer r q : ℕ) (t : ObjType)
    → Found w rx ry layer r w'
    → q < w.next_region
    → members w' q t ≡ members w q t
members_kept w w' rx ry layer r q t f lt = ap (λ x. list_of x t) (f.kept q (omega arith))

module _ (w w' : World) (rx ry layer r : ℕ) (k : IsKept w) (on : OnMap w.container rx ry)
    (f : Found w rx ry layer r w') where
  no_members :
      (t : ObjType) (i p : ℕ)
      → region_at w.container rx ry layer ≡ none
      → ¬ (get_elem? (members w' r t) i ≡ some p)
  no_members obj_static i p e g = let n = f.new e in ground (arith, n, g)
  no_members obj_movable i p e g = let n = f.new e in ground (arith, n, g)
  no_members obj_client i p e g = let n = f.new e in ground (arith, n, g)

  below_before :
      (q i p : ℕ) (t : ObjType)
      → q < w'.next_region
      → get_elem? (members w' q t) i ≡ some p
      → q < w.next_region
  below_before q i p t lt g = elim (Option-cases (region_at w.container rx ry layer)) [
    | inl free ↦
        let n = f.new free in
        let ne : q ≢ r =
          λ e. no_members t i p free (ap (λ v. get_elem? (members w' v t) i) (sym e) ∙ g) in
        omega arith
    | inr (old, there) ↦ let o = f.old old there in omega arith
  ]

  next_grows : w.next_region ≤ w'.next_region
  next_grows = elim (Option-cases (region_at w.container rx ry layer)) [
    | inl free ↦ let n = f.new free in omega arith
    | inr (old, there) ↦ let o = f.old old there in omega arith
  ]

  region_before : (p q : ℕ) → (w'.object p).region ≡ some q → (w.object p).region ≡ some q
  region_before p q e = ap (λ o. (o p).region) (sym f.objects) ∙ e

  Found-IsPlaced : IsPlaced w'
  Found-IsPlaced = record {
    listed = λ q p i t lt g.
        let lt' = below_before q i p t lt g in
        let m = members_kept w w' rx ry layer r q t f lt' in
        rw f.objects (k.placed.listed q p i t lt' (ap (λ us. get_elem? us i) (sym m) ∙ g));
    member = λ q p e.
        let (at, lt) = k.placed.member q p (region_before p q e) in
        let m = members_kept w w' rx ry layer r q (w.object p).obj_type f lt in
        let still = next_grows in
        rw f.objects (ap (λ us. at_subscript us (w.object p).region_index) m ∙ at, omega arith);
    handles = λ a b s s' e g h.
        k.placed.handles a b s s' (region_before a s e) (region_before b s' g)
          (ap (λ o. (o a).handle) (sym f.objects) ∙ h ∙ ap (λ o. (o b).handle) f.objects);
  }

  on_before : (x y : ℕ) → OnMap w'.container x y → OnMap w.container x y
  on_before x y on' = let widths = f.widths in omega arith

  pub on_after : (x y : ℕ) → OnMap w.container x y → OnMap w'.container x y
  on_after x y on' = let widths = f.widths in omega arith

  pub Found-IsKept : IsKept w'
  Found-IsKept = record {
    sized = f.sized;
    placed = Found-IsPlaced;
    below = λ x y layer' q on' e.
        let on1 = on_before x y on' in
        let grows = next_grows in
        elim (Option-cases (region_at w.container rx ry layer)) [
          | inl free ↦ ground (arith, f.places x y layer' on1, k.below x y layer' q on1, f.new free)
          | inr (old, there) ↦ ground (
            arith,
            f.places x y layer' on1,
            k.below x y layer' q on1,
            k.below rx ry layer old on there,
            f.old old there,
          )
        ];
  }

  -- A place keeps its region.
  region_kept :
      (x y layer' q : ℕ)
      → OnMap w.container x y
      → region_at w.container x y layer' ≡ some q
      → region_at w'.container x y layer' ≡ some q
  region_kept x y layer' q on' e =
      f.places x y layer' on' ∙ elim (Bool-cases (rx == x && (ry == y && (layer == layer')))) [
        | inl same ↦
            let there : region_at w.container rx ry layer ≡ some q = ground (arith, e, same) in
            rw same (ap some (f.old q there).0)
        | inr other ↦ rw other e
      ]

  pub region_here : region_at w'.container rx ry layer ≡ some r
  region_here = ground (arith, f.places rx ry layer on)

  pub LiesAt-kept : (p x y : ℕ) → LiesAt w p x y → LiesAt w' p x y
  LiesAt-kept p x y lies q e =
      let (on', at) = lies q (region_before p q e) in
      (on_after x y on', rw f.objects (region_kept x y (w.object p).layer q on' at))
