-- ===== src/Regions/Visits.antt =====
-- The loops that visit regions (Chihiro/src/Map/RegionContainer.cpp), and the places that they visit.
use rzemulator.Base.{
  ◌>>=◌, ℕ, zero, suc, ◌+◌, ◌/◌, ◌≡◌, ◌≢◌, refl, sym, ap, ap₂, ◌∙◌, inl, inr, Bool, ◌&&◌, Option,
  none, some, List, [], ◌∷◌, ◌++◌, ◌==◌, ltb, leb, if◌then◌else◌, arith, Bool-cases, Option-cases,
}
use mathlib.Core.List.{append-nil, append_assoc}
use rzemulator.Regions.{World, RegionContainer, get_region_ptr, block_index}
use rzemulator.Regions.Cells.{IsSized, OnMap, block_index_lem, get_region_ptr-Found}
use rzemulator.Regions.Sight.{run_region, visit_column, visit_columns}

abbrev pub Place : Type 0
Place = ℕ × ℕ

-- The places of a column, and of a rectangle, that are seen.
abbrev pub column : (ℕ → ℕ → Bool) → ℕ → ℕ → ℕ → List Place
column seen x zero y = []
column seen x (suc left) y = (if seen x y then (x, y) ∷ [] else []) ++ column seen x left (y + 1)

abbrev pub columns : (ℕ → ℕ → Bool) → ℕ → ℕ → ℕ → ℕ → List Place
columns seen zero x top rows = []
columns seen (suc left) x top rows = column seen x rows top ++ columns seen left (x + 1) top rows

-- Visiting the places of a list, one after the other.
pub visit_all : ℕ → List Place → World → Option (List ℕ × World)
visit_all layer [] w = some ([], w)
visit_all layer ((x, y) ∷ places) w = do
  (found, w1) ← run_region layer x y w
  (rest, w2) ← visit_all layer places w1
  some (found ++ rest, w2)

abbrev Outcome : Type 0
Outcome = Option (List ℕ × World)

-- What was visited before stands in front.
abbrev after_visits : List ℕ → Outcome → Outcome
after_visits found o = o >>= λ r. some (found ++ r.0, r.1)

after_none : (o : Outcome) → after_visits [] o ≡ o
after_none none = refl
after_none (some (rest, w)) = refl

after_after :
    (f g : List ℕ) (o : Outcome) → after_visits (f ++ g) o ≡ after_visits f (after_visits g o)
after_after f g none = refl
after_after f g (some (rest, w)) = ap (λ us. some (us, w)) (append_assoc f g rest)

-- The places of a list, after what has happened.
abbrev then_all : ℕ → List Place → Outcome → Outcome
then_all layer places o = o >>= λ r. after_visits r.0 (visit_all layer places r.1)

then_all-after :
    (layer : ℕ) (qs : List Place) (f : List ℕ) (o : Outcome)
    → then_all layer qs (after_visits f o) ≡ after_visits f (then_all layer qs o)
then_all-after layer qs f none = refl
then_all-after layer qs f (some (g, w)) = after_after f g (visit_all layer qs w)

then_all-visit_all :
    (layer : ℕ) (ps qs : List Place) (w : World)
    → then_all layer qs (visit_all layer ps w) ≡ visit_all layer (ps ++ qs) w
unfolding visit_all
then_all-visit_all layer [] qs w = after_none (visit_all layer qs w)
then_all-visit_all layer ((x, y) ∷ ps) qs w = elim (Option-cases (run_region layer x y w)) [
  | inl e ↦ rw e refl
  | inr ((f, w1), e) ↦ rw e (
      then_all-after layer qs f (visit_all layer ps w1)
      ∙ ap (after_visits f) (then_all-visit_all layer ps qs w1))
]

visit_one : (layer x y : ℕ) (w : World) → run_region layer x y w ≡ visit_all layer ((x, y) ∷ []) w
unfolding visit_all
visit_one layer x y w = elim (Option-cases (run_region layer x y w)) [
  | inl e ↦ rw e refl
  | inr ((f, w1), e) ↦ rw e (ap (λ us. some (us, w1)) (sym (append-nil f)))
]

visit_place :
    (seen : ℕ → ℕ → Bool) (layer x y : ℕ) (w : World)
    → (if seen x y then run_region layer x y w else some ([], w))
      ≡ visit_all layer (if seen x y then (x, y) ∷ [] else []) w
unfolding visit_all
visit_place seen layer x y w = elim (Bool-cases (seen x y)) [
  | inl e ↦ rw e (visit_one layer x y w)
  | inr e ↦ rw e refl
]

bind_then :
    (layer : ℕ) (rest : List Place) (g : World → Outcome) (o : Outcome)
    → ((w : World) → g w ≡ visit_all layer rest w)
    → (o >>= λ r. after_visits r.0 (g r.1)) ≡ then_all layer rest o
bind_then layer rest g none h = refl
bind_then layer rest g (some (f, w)) h = ap (after_visits f) (h w)

visit_column_lem :
    (seen : ℕ → ℕ → Bool) (layer x left y : ℕ) (w : World)
    → visit_column seen layer x left y w ≡ visit_all layer (column seen x left y) w
unfolding visit_column visit_all
visit_column_lem seen layer x zero y w = refl
visit_column_lem seen layer x (suc left) y w =
    let here = if seen x y then (x, y) ∷ [] else [] in
    let rest = column seen x left (y + 1) in
    bind_then layer rest (visit_column seen layer x left (y + 1))
      (if seen x y then run_region layer x y w else some ([], w))
      (visit_column_lem seen layer x left (y + 1))
    ∙ ap (then_all layer rest) (visit_place seen layer x y w)
    ∙ then_all-visit_all layer here rest w

-- The loops visit the places of the rectangle that are seen, in order.
pub visit_columns_lem :
    (seen : ℕ → ℕ → Bool) (layer left x top rows : ℕ) (w : World)
    → visit_columns seen layer left x top rows w ≡ visit_all layer (columns seen left x top rows) w
unfolding visit_columns visit_all
visit_columns_lem seen layer zero x top rows w = refl
visit_columns_lem seen layer (suc left) x top rows w =
    let rest = columns seen left (x + 1) top rows in
    bind_then layer rest (visit_columns seen layer left (x + 1) top rows)
      (visit_column seen layer x rows top w) (visit_columns_lem seen layer left (x + 1) top rows)
    ∙ ap (then_all layer rest) (visit_column_lem seen layer x rows top w)
    ∙ then_all-visit_all layer (column seen x rows top) rest w

-- How often a place stands in a list.
abbrev pub times : ℕ → ℕ → List Place → ℕ
times x y [] = 0
times x y ((a, b) ∷ ps) = (if a == x && b == y then 1 else 0) + times x y ps

times-append : (x y : ℕ) (ps qs : List Place) → times x y (ps ++ qs) ≡ times x y ps + times x y qs
times-append x y [] qs = omega arith
times-append x y ((a, b) ∷ ps) qs = omega (arith, times-append x y ps qs)

times-column :
    (seen : ℕ → ℕ → Bool) (a n b x y : ℕ)
    → times x y (column seen a n b)
      ≡ (if a == x && (leb b y && (ltb y (b + n) && seen x y)) then 1 else 0)
times-column seen a zero b x y = ground arith
times-column seen a (suc n) b x y =
    let split = times-append x y (if seen a b then (a, b) ∷ [] else []) (column seen a n (b + 1)) in
    let later = times-column seen a n (b + 1) x y in
    elim (Bool-cases (a == x && b == y)) [
      | inl here ↦
          let same : seen a b ≡ seen x y = ap₂ seen (ground (arith, here)) (ground (arith, here)) in
          ground (arith, split, later, here, same)
      | inr other ↦ ground (arith, split, later, other)
    ]

pub times-columns :
    (seen : ℕ → ℕ → Bool) (n a b m x y : ℕ)
    → times x y (columns seen n a b m)
      ≡ (if (leb a x && ltb x (a + n)) && (leb b y && (ltb y (b + m) && seen x y)) then 1 else 0)
times-columns seen zero a b m x y = ground arith
times-columns seen (suc n) a b m x y = ground (
  arith,
  times-append x y (column seen a m b) (columns seen n (a + 1) b m),
  times-column seen a m b x y,
  times-columns seen n (a + 1) b m x y,
)

-- Visiting a place of the map stops nowhere, and the map keeps its size.
run_region_total :
    (layer x y : ℕ) (w : World)
    → IsSized w.container
    → OnMap w.container x y
    → (found : List ℕ) × (w' : World) × (run_region layer x y w ≡ some (found, w'))
      × IsSized w'.container
      × (w'.container.region_width ≡ w.container.region_width)
      × (w'.container.region_height ≡ w.container.region_height)
      × (w'.object ≡ w.object)
unfolding run_region get_region_ptr
run_region_total layer x y w s on =
    let (e, inside) = block_index_lem w.container s x y on in
    let k = block_index w.container (x / 100) (y / 100) in
    elim (Option-cases (w.container.blocks k)) [
      | inl none_there ↦ ([], w, rw (inside, none_there) refl, s, refl, refl, refl)
      | inr (b, there) ↦
          let (r, w', got, f) = get_region_ptr-Found w x y layer b s on there in
          (r ∷ [], w', rw got refl, f.sized, f.widths.0, f.widths.1, f.objects)
    ]

abbrev pub AllOn : RegionContainer → List Place → Type 0
AllOn c [] = Unit {0}
AllOn c ((x, y) ∷ ps) = OnMap c x y × AllOn c ps

AllOn-widths :
    (c c' : RegionContainer) (ps : List Place)
    → c'.region_width ≡ c.region_width
    → c'.region_height ≡ c.region_height
    → AllOn c ps
    → AllOn c' ps
AllOn-widths c c' [] e f a = tt
AllOn-widths c c' ((x, y) ∷ ps) e f (on, a) =
    ((omega arith, omega arith), AllOn-widths c c' ps e f a)

-- So does visiting places of the map.
pub visit_all_total :
    (layer : ℕ) (ps : List Place) (w : World)
    → IsSized w.container
    → AllOn w.container ps
    → (found : List ℕ) × (w' : World) × (visit_all layer ps w ≡ some (found, w'))
      × (w'.object ≡ w.object)
unfolding visit_all
visit_all_total layer [] w s a = ([], w, refl, refl)
visit_all_total layer ((x, y) ∷ ps) w s (on, a) =
    let (f, w1, e, s1, rw_, rh, o) = run_region_total layer x y w s on in
    let (g, w2, e', o') =
      visit_all_total layer ps w1 s1 (AllOn-widths w.container w1.container ps rw_ rh a) in
    (f ++ g, w2, rw (e, e') refl, o' ∙ o)

pub AllOn-times :
    (c : RegionContainer) (ps : List Place)
    → ((x y : ℕ) → times x y ps ≢ 0 → OnMap c x y)
    → AllOn c ps
AllOn-times c [] h = tt
AllOn-times c ((x, y) ∷ ps) h =
    (h x y (ground arith), AllOn-times c ps (λ a b n. h a b (ground arith)))
