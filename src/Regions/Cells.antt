-- ===== src/Regions/Cells.antt =====
-- One region for each place of the map and each layer (Chihiro/src/Map/RegionBlock.h and RegionContainer.cpp).
use rzemulator.Base.{
  ◌>>=◌, ℕ, suc, ◌+◌, ◌*◌, ◌/◌, ◌%◌, ◌^◌, ◌<◌, ◌≡◌, ◌≢◌, refl, ap, ap₂, ◌∙◌, subst, true, ◌&&◌,
  Option, none, some, [], ◌==◌, ltb, if◌then◌else◌, arith,
}
use rzemulator.Regions.{
  RegionBlock, RegionContainer, World, init_region, is_valid_region, or_new, block_get_region,
  block_index, block_count, in_block, get_region_ptr, make_region, get_region,
}

-- The region that the block `k` has at `cell` of a layer.
pub cell : RegionContainer → ℕ → ℕ → ℕ → Option ℕ
cell c k layer i = do b ← c.blocks k; rb ← b layer; rb i

-- The region of a place, where there is one, made nowhere.
pub region_at : RegionContainer → ℕ → ℕ → ℕ → Option ℕ
unfolding cell
region_at c rx ry layer =
    cell c (rx / 100 + ry / 100 * c.block_width) layer (rx % 100 + 100 * (ry % 100))

-- The blocks cover the map, and their number fits into 32 bits.
pub record IsSized (c : RegionContainer) : Type 0 where
  pub wide : c.block_width ≡ c.region_width / 100 + 1
  pub high : c.block_height ≡ c.region_height / 100 + 1
  pub fits : c.block_height * c.block_width < 2 ^ 32

abbrev pub OnMap : RegionContainer → ℕ → ℕ → Type 0
OnMap c rx ry = (rx < c.region_width) × (ry < c.region_height)

index_in_range : (r c w h : ℕ) → r < h → c < w → c + r * w < h * w
index_in_range r c w h p q = grind arith

small_mod : (a m : ℕ) → a < m → a % m ≡ a
small_mod a m h = grind arith

index_inj_left : (a a' b b' w : ℕ) → a < w → a' < w → b < b' → a + b * w ≢ a' + b' * w
index_inj_left a a' b b' w h h' lt e = grind arith

index_inj : (a a' b b' w : ℕ) → a < w → a' < w → a + b * w ≡ a' + b' * w → (a ≡ a') × (b ≡ b')
index_inj a a' b b' w h h' e =
    ground (arith, index_inj_left a a' b b' w, index_inj_left a' a b' b w)

module _ (c : RegionContainer) (s : IsSized c) where
  pub block_index_lem :
      (rx ry : ℕ)
      → OnMap c rx ry
      → (block_index c (rx / 100) (ry / 100) ≡ rx / 100 + ry / 100 * c.block_width)
        × (ltb (block_index c (rx / 100) (ry / 100)) (block_count c) ≡ true)
  unfolding block_index block_count
  block_index_lem rx ry on =
      let wide = s.wide in
      let high = s.high in
      let below =
        index_in_range (ry / 100) (rx / 100) c.block_width c.block_height (omega arith)
          (omega arith) in
      let e =
        small_mod (rx / 100 + ry / 100 * c.block_width) (2 ^ 32) (let f = s.fits in omega arith) in
      let n = small_mod (c.block_height * c.block_width) (2 ^ 32) s.fits in
      (e, rw (e, n) (ground (arith, below)))

-- What making the region at a place does: the place has the region `r` then, all else is as it was, and `r` is the
-- region that was there, or a new one without objects.
pub record Made (w : World) (k layer i r : ℕ) (w' : World) : Type 0 where
  pub cells :
      (k' layer' i' : ℕ)
      → cell w'.container k' layer' i' ≡ (
          if k == k' && (layer == layer' && (i == i'))
          then some r
          else cell w.container k' layer' i')
  pub widths :
      (w'.container.region_width ≡ w.container.region_width)
      × (w'.container.region_height ≡ w.container.region_height)
      × (w'.container.block_width ≡ w.container.block_width)
      × (w'.container.block_height ≡ w.container.block_height)
  pub objects : w'.object ≡ w.object
  pub kept : (q : ℕ) → q ≢ w.next_region → w'.region q ≡ w.region q
  pub old :
      (q : ℕ)
      → cell w.container k layer i ≡ some q
      → (r ≡ q) × (w'.region ≡ w.region) × (w'.next_region ≡ w.next_region)
  pub new :
      cell w.container k layer i ≡ none
      → (r ≡ w.next_region)
        × (w'.next_region ≡ suc w.next_region)
        × ((w'.region r).static_objects ≡ [])
        × ((w'.region r).movable_objects ≡ [])
        × ((w'.region r).client_objects ≡ [])

-- The block holds what is read at its number.
abbrev IsBlock : World → ℕ → RegionBlock → Type 0
IsBlock w k b = (layer i : ℕ) → (b layer >>= λ rb. rb i) ≡ cell w.container k layer i

module _ (w : World) (k : ℕ) (b : RegionBlock) (rx ry layer : ℕ) (is : IsBlock w k b) where
  in_block_lem :
      (r : ℕ) × (w' : World) × (in_block w k b rx ry layer ≡ (some r, w'))
      × Made w k layer (rx % 100 + 100 * (ry % 100)) r w'
  unfolding in_block block_get_region cell or_new
  in_block_lem =
      let i = rx % 100 + 100 * (ry % 100) in
      let got = block_get_region w b (rx % 100) (ry % 100) layer in
      (
        got.0,
        (in_block w k b rx ry layer).1,
        refl,
        record {
          cells = λ k' layer' i'. ground (arith, is layer' i', is layer i);
          widths = ground arith;
          objects = ground arith;
          kept = λ q ne. ground arith;
          old = λ q e. ground (arith, is layer i);
          new = λ e. ground (arith, is layer i);
        },
      )

same_place :
    (c : RegionContainer) (rx ry x y : ℕ)
    → IsSized c
    → OnMap c rx ry
    → OnMap c x y
    → rx / 100 + ry / 100 * c.block_width ≡ x / 100 + y / 100 * c.block_width
    → rx % 100 + 100 * (ry % 100) ≡ x % 100 + 100 * (y % 100)
    → (rx ≡ x) × (ry ≡ y)
same_place c rx ry x y s on on' e f =
    let wide = s.wide in
    let (g, h) =
      index_inj (rx / 100) (x / 100) (ry / 100) (y / 100) c.block_width (omega arith) (omega arith)
        e in
    (omega arith, omega arith)

same_test :
    (k k' i i' rx x ry y l l' : ℕ)
    → (k ≡ k' → i ≡ i' → (rx ≡ x) × (ry ≡ y))
    → (rx ≡ x → ry ≡ y → (k ≡ k') × (i ≡ i'))
    → (k == k' && (l == l' && (i == i'))) ≡ (rx == x && (ry == y && (l == l')))
same_test k k' i i' rx x ry y l l' there back = ground arith

-- What finding a place's region does: it is `r` then, that of every other place is as it was, and `r` is the
-- region that was there, or a new one without objects.
pub record Found (w : World) (rx ry layer r : ℕ) (w' : World) : Type 0 where
  pub places :
      (x y layer' : ℕ)
      → OnMap w.container x y
      → region_at w'.container x y layer' ≡ (
          if rx == x && (ry == y && (layer == layer'))
          then some r
          else region_at w.container x y layer')
  pub widths :
      (w'.container.region_width ≡ w.container.region_width)
      × (w'.container.region_height ≡ w.container.region_height)
  pub sized : IsSized w'.container
  pub objects : w'.object ≡ w.object
  pub kept : (q : ℕ) → q ≢ w.next_region → w'.region q ≡ w.region q
  pub old :
      (q : ℕ)
      → region_at w.container rx ry layer ≡ some q
      → (r ≡ q) × (w'.region ≡ w.region) × (w'.next_region ≡ w.next_region)
  pub new :
      region_at w.container rx ry layer ≡ none
      → (r ≡ w.next_region)
        × (w'.next_region ≡ suc w.next_region)
        × ((w'.region r).static_objects ≡ [])
        × ((w'.region r).movable_objects ≡ [])
        × ((w'.region r).client_objects ≡ [])

module _ (w w' : World) (rx ry layer r : ℕ) (s : IsSized w.container)
    (on : OnMap w.container rx ry) where
  abbrev block_of : ℕ → ℕ → ℕ
  block_of x y = x / 100 + y / 100 * w.container.block_width

  Made-places :
      (x y layer' : ℕ)
      → Made w (block_of rx ry) layer (rx % 100 + 100 * (ry % 100)) r w'
      → OnMap w.container x y
      → region_at w'.container x y layer' ≡ (
          if rx == x && (ry == y && (layer == layer'))
          then some r
          else region_at w.container x y layer')
  unfolding region_at
  Made-places x y layer' m on' =
      let i = rx % 100 + 100 * (ry % 100) in
      let i' = x % 100 + 100 * (y % 100) in
      ap (λ n. cell w'.container (x / 100 + y / 100 * n) layer' i') m.widths.2
      ∙ m.cells (block_of x y) layer' i'
      ∙ ap (λ b. if b then some r else cell w.container (block_of x y) layer' i')
          (same_test (block_of rx ry) (block_of x y) i i' rx x ry y layer layer'
            (same_place w.container rx ry x y s on on')
            (λ e f. (ap₂ block_of e f, ap₂ (λ a b. a % 100 + 100 * (b % 100)) e f)))

  Made-Found :
      Made w (block_of rx ry) layer (rx % 100 + 100 * (ry % 100)) r w' → Found w rx ry layer r w'
  unfolding region_at
  Made-Found m =
      let (rw_, rh, bw, bh) = m.widths in
      let wide = s.wide in
      let high = s.high in
      record {
        places = λ x y layer' on'. Made-places x y layer' m on';
        widths = (rw_, rh);
        sized = record { wide = omega arith; high = omega arith; fits = rw (bh, bw) s.fits };
        objects = m.objects;
        kept = m.kept;
        old = m.old;
        new = m.new;
      }

blocks-IsBlock : (w : World) (k : ℕ) → IsBlock w k (or_new (w.container.blocks k) (λ l. none))
unfolding cell or_new
blocks-IsBlock w k layer i = ground arith

-- Finding the region of a place on the map stops nowhere and gives one.
pub get_region-Found :
    (w : World) (rx ry layer : ℕ)
    → IsSized w.container
    → OnMap w.container rx ry
    → (r : ℕ) × (w' : World) × (get_region w rx ry layer ≡ some (some r, w'))
      × Found w rx ry layer r w'
unfolding get_region make_region is_valid_region
get_region-Found w rx ry layer s on =
    let (e, inside) = block_index_lem w.container s rx ry on in
    let k = block_index w.container (rx / 100) (ry / 100) in
    let b = or_new (w.container.blocks k) (λ l. none) in
    let (r, w', made, m) = in_block_lem w k b rx ry layer (blocks-IsBlock w k) in
    let valid : is_valid_region w.container rx ry ≡ true = unfold is_valid_region in ground arith in
    (
      r,
      w',
      rw (valid, inside, made),
      Made-Found w w' rx ry layer r s on
          (subst (λ n. Made w n layer (rx % 100 + 100 * (ry % 100)) r w') e m),
    )

-- So does the pointer's search, where the place's block is there.
pub get_region_ptr-Found :
    (w : World) (rx ry layer : ℕ) (b : RegionBlock)
    → IsSized w.container
    → OnMap w.container rx ry
    → w.container.blocks (block_index w.container (rx / 100) (ry / 100)) ≡ some b
    → (r : ℕ) × (w' : World) × (get_region_ptr w rx ry layer ≡ some (some r, w'))
      × Found w rx ry layer r w'
unfolding get_region_ptr
get_region_ptr-Found w rx ry layer b s on there =
    let (e, inside) = block_index_lem w.container s rx ry on in
    let k = block_index w.container (rx / 100) (ry / 100) in
    let is : IsBlock w k b = λ l i. unfold cell in ground (arith, there) in
    let (r, w', made, m) = in_block_lem w k b rx ry layer is in
    (
      r,
      w',
      rw (inside, there) (ap some made),
      Made-Found w w' rx ry layer r s on
          (subst (λ n. Made w n layer (rx % 100 + 100 * (ry % 100)) r w') e m),
    )

pub get_region_off :
    (w : World) (rx ry layer : ℕ)
    → ¬ OnMap w.container rx ry
    → get_region w rx ry layer ≡ some (none, w)
unfolding get_region is_valid_region
get_region_off w rx ry layer off = ground arith

-- The map that InitRegion makes has no region yet.
pub init_region-IsSized :
    (width height : ℕ)
    → (height / 100 + 1) * (width / 100 + 1) < 2 ^ 32
    → IsSized (init_region width height)
unfolding init_region
init_region-IsSized width height h = record { wide = refl; high = refl; fits = h }

pub init_region_empty :
    (width height x y layer : ℕ) → region_at (init_region width height) x y layer ≡ none
unfolding region_at cell init_region
init_region_empty width height x y layer = refl
