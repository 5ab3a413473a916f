-- ===== src/Regions/Visible.antt =====
-- DoEachVisibleRegion and DoEachNewRegion of Chihiro/src/Map/RegionContainer.cpp against the distance that is meant.
use rzemulator.Base.{
  ℕ, ◌+◌, ◌-◌, ◌*◌, ◌^◌, ◌≤◌, ◌<◌, ◌≡◌, ◌≢◌, refl, ap, ap₂, ◌∙◌, inl, inr, Bool, true, false, not,
  ◌&&◌, Option, some, List, [], ltb, leb, if◌then◌else◌, arith, Bool-cases,
}
use rzemulator.Regions.{World, RegionContainer}
use rzemulator.Regions.Cells.{IsSized, OnMap}
use rzemulator.Regions.Sight.{
  distance, is_visible_region, low_bound, high_bound, low_bound2, high_bound2,
  do_each_visible_region, do_each_visible_region2, do_each_new_region,
}
use rzemulator.Regions.Sight.{visit_columns}
use rzemulator.Regions.Visits.{
  Place, columns, visit_all, visit_columns_lem, times, times-columns, visit_all_total, AllOn-times,
}

abbrev pub between : ℕ → ℕ → ℕ
between a b = if leb a b then b - a else a - b

-- Three times the longer distance and the shorter one are nine at most.
abbrev pub is_near : ℕ → ℕ → ℕ → ℕ → Bool
is_near rx ry x y =
    let dx = between rx x in
    let dy = between ry y in leb (if leb dx dy then dx + 3 * dy else dy + 3 * dx) 9

distance_lem : (a b : ℕ) → a < 2 ^ 31 → b < 2 ^ 31 → distance a b ≡ between b a
unfolding distance
distance_lem a b h k = ground arith

pub is_visible_lem :
    (rx ry x y : ℕ)
    → rx < 2 ^ 31
    → ry < 2 ^ 31
    → x < 2 ^ 31
    → y < 2 ^ 31
    → is_visible_region rx ry x y ≡ is_near rx ry x y
unfolding is_visible_region
is_visible_lem rx ry x y a b c d = rw (distance_lem x rx c a, distance_lem y ry d b) refl

pub near_bounds :
    (rx ry x y : ℕ)
    → is_near rx ry x y ≡ true
    → (x ≤ rx + 3) × (rx ≤ x + 3) × (y ≤ ry + 3) × (ry ≤ y + 3)
near_bounds rx ry x y h = ground arith

low_bound_lem : (r : ℕ) → r < 2 ^ 31 → low_bound r ≡ r - 3
unfolding low_bound
low_bound_lem r h = ground arith

high_bound_lem :
    (r size : ℕ)
    → r < size
    → size ≤ 2 ^ 30
    → high_bound r size ≡ (if ltb (r + 3) size then r + 3 else size - 1)
unfolding high_bound
high_bound_lem r size h k = ground arith

-- The rectangle of the loops around a place: the row at the distance three above it, and the last row of the map, are
-- outside.
abbrev pub in_loops : RegionContainer → ℕ → ℕ → ℕ → ℕ → Bool
in_loops c rx ry x y =
    (leb rx (x + 3) && (leb x (rx + 3) && ltb x c.region_width))
    && (leb ry (y + 3) && (ltb y (ry + 3) && ltb (y + 1) c.region_height))

-- What the rectangle of the loops adds to the distance.
abbrev pub is_shown : RegionContainer → ℕ → ℕ → ℕ → ℕ → Bool
is_shown c rx ry x y =
    ltb x c.region_width && (ltb (y + 1) c.region_height && (ltb y (ry + 3) && is_near rx ry x y))

in_loops-near :
    (c : RegionContainer) (rx ry x y : ℕ) (v n : Bool)
    → (x < c.region_width → y + 1 < c.region_height → v ≡ n)
    → (n ≡ true → (x ≤ rx + 3) × (rx ≤ x + 3) × (y ≤ ry + 3) × (ry ≤ y + 3))
    → (in_loops c rx ry x y && v)
      ≡ (ltb x c.region_width && (ltb (y + 1) c.region_height && (ltb y (ry + 3) && n)))
in_loops-near c rx ry x y true true h k = let b = k refl in ground arith
in_loops-near c rx ry x y false true h k = ground (arith, h)
in_loops-near c rx ry x y true false h k = ground (arith, h)
in_loops-near c rx ry x y false false h k = ground arith

is_shown_on : (c : RegionContainer) (rx ry x y : ℕ) → is_shown c rx ry x y ≡ true → OnMap c x y
is_shown_on c rx ry x y e = ground (arith, e)

in_loops_on : (c : RegionContainer) (rx ry x y : ℕ) → in_loops c rx ry x y ≡ true → OnMap c x y
in_loops_on c rx ry x y e = ground (arith, e)

-- The run found these regions, at the places that it visits, each once.
pub record Visits (w : World) (layer : ℕ) (test : ℕ → ℕ → Bool) (run : Option (List ℕ × World))
    : Type 0 where
  pub places : List Place
  pub found : List ℕ
  pub after : World
  pub returns : run ≡ some (found, after)
  pub visited : visit_all layer places w ≡ some (found, after)
  pub objects : after.object ≡ w.object
  pub each_once : (x y : ℕ) → times x y places ≡ (if test x y then 1 else 0)

module _ (w : World) (rx ry layer : ℕ) (s : IsSized w.container) (on : OnMap w.container rx ry)
    (narrow : w.container.region_width ≤ 2 ^ 30) (low : w.container.region_height ≤ 2 ^ 30) where
  abbrev left : ℕ
  left = low_bound rx

  abbrev top : ℕ
  top = low_bound ry

  abbrev cols : ℕ
  cols = high_bound rx w.container.region_width + 1 - low_bound rx

  abbrev rows : ℕ
  rows = high_bound ry w.container.region_height - low_bound ry

  in_columns :
      (x : ℕ)
      → (leb left x && ltb x (left + cols))
        ≡ (leb rx (x + 3) && (leb x (rx + 3) && ltb x w.container.region_width))
  in_columns x =
      rw (low_bound_lem rx (omega arith), high_bound_lem rx w.container.region_width on.0 narrow)
        (ground arith)

  in_rows :
      (y : ℕ) (b : Bool)
      → (leb top y && (ltb y (top + rows) && b))
        ≡ ((leb ry (y + 3) && (ltb y (ry + 3) && ltb (y + 1) w.container.region_height)) && b)
  in_rows y b =
      rw (low_bound_lem ry (omega arith), high_bound_lem ry w.container.region_height on.1 low)
        (ground arith)

  and_assoc : (a b c : Bool) → (a && (b && c)) ≡ ((a && b) && c)
  and_assoc true b c = refl
  and_assoc false b c = refl

  loops_times :
      (seen : ℕ → ℕ → Bool) (x y : ℕ)
      → times x y (columns seen cols left top rows)
        ≡ (if in_loops w.container rx ry x y && seen x y then 1 else 0)
  loops_times seen x y =
      times-columns seen cols left top rows x y
      ∙ ap (λ b. if b then 1 else 0)
          (ap₂ (λ a b. a && b) (in_columns x) (in_rows y (seen x y))
            ∙ and_assoc (leb rx (x + 3) && (leb x (rx + 3) && ltb x w.container.region_width))
                (leb ry (y + 3) && (ltb y (ry + 3) && ltb (y + 1) w.container.region_height))
                (seen x y))

  times_on :
      (seen : ℕ → ℕ → Bool) (x y : ℕ)
      → times x y (columns seen cols left top rows) ≢ 0
      → OnMap w.container x y
  times_on seen x y n =
      let t = loops_times seen x y in
      elim (Bool-cases (in_loops w.container rx ry x y)) [
        | inl e ↦ in_loops_on w.container rx ry x y e
        | inr e ↦ absurd (n (t ∙ rw e refl))
      ]

  loops-Visits :
      (seen test : ℕ → ℕ → Bool)
      → ((x y : ℕ) → (in_loops w.container rx ry x y && seen x y) ≡ test x y)
      → Visits w layer test (visit_columns seen layer cols left top rows w)
  loops-Visits seen test same =
      let ps = columns seen cols left top rows in
      let (found, w', e, o) =
        visit_all_total layer ps w s (AllOn-times w.container ps (times_on seen)) in
      record {
        places = ps;
        found = found;
        after = w';
        returns = visit_columns_lem seen layer cols left top rows w ∙ e;
        visited = e;
        objects = o;
        each_once = λ x y. loops_times seen x y ∙ ap (λ b. if b then 1 else 0) (same x y);
      }

  loops-is_shown :
      (x y : ℕ)
      → (in_loops w.container rx ry x y && is_visible_region rx ry x y)
        ≡ is_shown w.container rx ry x y
  loops-is_shown x y =
      in_loops-near w.container rx ry x y (is_visible_region rx ry x y) (is_near rx ry x y)
        (λ a b. is_visible_lem rx ry x y (omega arith) (omega arith) (omega arith) (omega arith))
        (near_bounds rx ry x y)

  -- Around a place of the map, whose sides have 2^30 regions at most, each region is visited once that is near the
  -- place, but for the one at the distance three above it and those of the map's last row; no other is visited, and
  -- nothing stops.
  pub visible_lem :
      Visits w layer (is_shown w.container rx ry) (do_each_visible_region w rx ry layer)
  unfolding do_each_visible_region
  visible_lem = loops-Visits (is_visible_region rx ry) (is_shown w.container rx ry) loops-is_shown

  new_same :
      (prx pry x y : ℕ)
      → OnMap w.container prx pry
      → (is_shown w.container rx ry x y && not (is_visible_region prx pry x y))
        ≡ (is_shown w.container rx ry x y && not (is_near prx pry x y))
  new_same prx pry x y on' = elim (Bool-cases (is_shown w.container rx ry x y)) [
    | inl e ↦
        let (a, b) = is_shown_on w.container rx ry x y e in
        ap (λ v. is_shown w.container rx ry x y && not v)
          (is_visible_lem prx pry x y (omega arith) (omega arith) (omega arith) (omega arith))
    | inr e ↦ rw e refl
  ]

  -- After a step from another place of the map, each region is visited once that is visited around the new place and
  -- is not near the old one; no other is visited, and nothing stops.
  pub new_lem :
      (prx pry : ℕ)
      → OnMap w.container prx pry
      → Visits w layer
          (λ x y. is_shown w.container rx ry x y && not (is_near prx pry x y))
          (do_each_new_region w rx ry prx pry layer)
  unfolding do_each_new_region
  new_lem prx pry on' =
      loops-Visits (λ x y. is_visible_region rx ry x y && not (is_visible_region prx pry x y))
        (λ x y. is_shown w.container rx ry x y && not (is_near prx pry x y))
        (λ x y.
          and_assoc (in_loops w.container rx ry x y) (is_visible_region rx ry x y)
            (not (is_visible_region prx pry x y))
          ∙ ap (λ b. b && not (is_visible_region prx pry x y)) (loops-is_shown x y)
          ∙ new_same prx pry x y on')

no_columns :
    (r1 r2 size : ℕ)
    → r1 < 3
    → r2 < 3
    → 0 < size
    → size ≤ 2 ^ 30
    → high_bound2 r1 r2 size + 1 - low_bound2 r1 r2 ≡ 0
unfolding high_bound2 low_bound2
no_columns r1 r2 size a b c d = ground arith

-- Around two places in the first three columns of the map nothing is visited, not even their own regions.
pub low_columns_unseen :
    (w : World) (rx1 ry1 rx2 ry2 layer : ℕ)
    → rx1 < 3
    → rx2 < 3
    → 0 < w.container.region_width
    → w.container.region_width ≤ 2 ^ 30
    → do_each_visible_region2 w rx1 ry1 rx2 ry2 layer ≡ some ([], w)
unfolding do_each_visible_region2 visit_columns
low_columns_unseen w rx1 ry1 rx2 ry2 layer a b c d =
    rw (no_columns rx1 rx2 w.container.region_width a b c d) refl
