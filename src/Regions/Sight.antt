-- ===== src/Regions/Sight.antt =====
-- Which regions are visited around a place: IsVisibleRegion, and DoEachVisibleRegion and DoEachNewRegion with a
-- RegionFunctor, of Chihiro/src/Map/RegionContainer.cpp. The regions that `fn.Run` is called for are a list. The loop
-- over `x <= right` runs `right + 1 - left` times, since `right` is less than the width.
use rzemulator.Base.{
  ◌>>=◌, ℕ, zero, suc, ◌+◌, ◌-◌, ◌*◌, ◌%◌, ◌^◌, Bool, not, ◌&&◌, ◌||◌, Option, none, some, List, [],
  ◌∷◌, ◌++◌, ltb, leb, if◌then◌else◌,
}
use rzemulator.Regions.{World, get_region_ptr}

-- `abs((int32_t)(a - b))`.
unfoldable pub distance : ℕ → ℕ → ℕ
distance a b = let d = (a + 2 ^ 32 - b) % 2 ^ 32 in if ltb d (2 ^ 31) then d else 2 ^ 32 - d

unfoldable pub is_visible_region : ℕ → ℕ → ℕ → ℕ → Bool
unfolding distance
is_visible_region rx ry x y =
    let cx = distance x rx in
    let cy = distance y ry in leb (if leb cx cy then cx + 3 * cy else cy + 3 * cx) 9

-- The bounds of the loops around one place.
unfoldable pub low_bound : ℕ → ℕ
low_bound r = if ltb r 3 then 0 else (r + 2 ^ 32 - 3) % 2 ^ 32

unfoldable pub high_bound : ℕ → ℕ → ℕ
high_bound r size =
    let high = (r + 3) % 2 ^ 32 in if leb size high then (size + 2 ^ 32 - 1) % 2 ^ 32 else high

-- The bound around two places; that an unsigned number is `<= 0` sets it to 0 only where it is.
unfoldable pub low_bound2 : ℕ → ℕ → ℕ
low_bound2 r1 r2 =
    let low1 = (r1 + 2 ^ 32 - 3) % 2 ^ 32 in
    let low2 = (r2 + 2 ^ 32 - 3) % 2 ^ 32 in if leb low1 low2 then low1 else low2

unfoldable pub high_bound2 : ℕ → ℕ → ℕ → ℕ
high_bound2 r1 r2 size =
    let high1 = (r1 + 3) % 2 ^ 32 in
    let high2 = (r2 + 3) % 2 ^ 32 in
    let high = if leb high2 high1 then high1 else high2 in
    if leb size high then (size + 2 ^ 32 - 1) % 2 ^ 32 else high

-- The body of the loops, where the region is to be visited.
unfoldable pub run_region : ℕ → ℕ → ℕ → World → Option (List ℕ × World)
unfolding get_region_ptr
run_region layer x y w = do
  (region, w') ← get_region_ptr w x y layer
  elim region [ none ↦ some ([], w') | some r ↦ some (r ∷ [], w') ]

-- The inner loop, over the rounds that are left.
unfoldable pub visit_column : (ℕ → ℕ → Bool) → ℕ → ℕ → ℕ → ℕ → World → Option (List ℕ × World)
unfolding run_region
visit_column seen layer x zero y w = some ([], w)
visit_column seen layer x (suc left) y w = do
  (found, w1) ← (if seen x y then run_region layer x y w else some ([], w))
  (rest, w2) ← visit_column seen layer x left (y + 1) w1
  some (found ++ rest, w2)

-- The outer loop.
unfoldable pub visit_columns : (ℕ → ℕ → Bool) → ℕ → ℕ → ℕ → ℕ → ℕ → World → Option (List ℕ × World)
unfolding visit_column
visit_columns seen layer zero x top rows w = some ([], w)
visit_columns seen layer (suc left) x top rows w = do
  (found, w1) ← visit_column seen layer x rows top w
  (rest, w2) ← visit_columns seen layer left (x + 1) top rows w1
  some (found ++ rest, w2)

unfoldable pub do_each_visible_region : World → ℕ → ℕ → ℕ → Option (List ℕ × World)
unfolding is_visible_region low_bound high_bound visit_columns
do_each_visible_region w rx ry layer =
    let left = low_bound rx in
    let top = low_bound ry in
    let right = high_bound rx w.container.region_width in
    let bottom = high_bound ry w.container.region_height in
    visit_columns (is_visible_region rx ry) layer (right + 1 - left) left top (bottom - top) w

unfoldable pub do_each_visible_region2 : World → ℕ → ℕ → ℕ → ℕ → ℕ → Option (List ℕ × World)
unfolding is_visible_region low_bound2 high_bound2 visit_columns
do_each_visible_region2 w rx1 ry1 rx2 ry2 layer =
    let left = low_bound2 rx1 rx2 in
    let top = low_bound2 ry1 ry2 in
    let right = high_bound2 rx1 rx2 w.container.region_width in
    let bottom = high_bound2 ry1 ry2 w.container.region_height in
    visit_columns (λ x y. is_visible_region rx1 ry1 x y || is_visible_region rx2 ry2 x y) layer
      (right + 1 - left) left top (bottom - top) w

unfoldable pub do_each_new_region : World → ℕ → ℕ → ℕ → ℕ → ℕ → Option (List ℕ × World)
unfolding is_visible_region low_bound high_bound visit_columns
do_each_new_region w rx ry prx pry layer =
    let left = low_bound rx in
    let top = low_bound ry in
    let right = high_bound rx w.container.region_width in
    let bottom = high_bound ry w.container.region_height in
    visit_columns (λ x y. is_visible_region rx ry x y && not (is_visible_region prx pry x y)) layer
      (right + 1 - left) left top (bottom - top) w
