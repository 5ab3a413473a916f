-- ===== src/Base/Counts.antt =====
-- How often a number stands in a list, under writes and exchanges of entries.
use rzemulator.Base.Tests.{◌==◌, if◌then◌else◌}
use rzemulator.Base.Lists.{length, get_or, set, length-set, get_or-set}
use Prim.Native.Nat.{ℕ, zero, suc, ◌+◌, ◌≤◌, ◌<◌}
use mathlib.Core.Path.{◌≡◌, refl}
use mathlib.Core.List.{List, [], ◌∷◌}
use native.Mathlib.Omega.{arith}

abbrev pub hit : ℕ → ℕ → ℕ
hit a x = if x == a then 1 else 0

pub count : ℕ → List ℕ → ℕ
count a [] = 0
count a (x ∷ xs) = hit a x + count a xs

pub count-set :
    (a : ℕ) (xs : List ℕ) (i v : ℕ)
    → i < length xs
    → count a (set xs i v) + hit a (get_or xs i 0) ≡ count a xs + hit a v
unfolding count
count-set a [] i v h = absurd (omega arith)
count-set a (x ∷ xs) zero v h = omega arith
count-set a (x ∷ xs) (suc i) v h = omega (arith, count-set a xs i v (omega arith))

-- `std::swap` of two entries.
abbrev pub exchange : List ℕ → ℕ → ℕ → List ℕ
exchange s i j = set (set s i (get_or s j 0)) j (get_or s i 0)

pub count-exchange :
    (a : ℕ) (s : List ℕ) (i j : ℕ)
    → i < length s
    → j < length s
    → count a (exchange s i j) ≡ count a s
count-exchange a s i j p q = ground (
  arith,
  count-set a s i (get_or s j 0),
  count-set a (set s i (get_or s j 0)) j (get_or s i 0),
  get_or-set s i j (get_or s j 0) 0,
  length-set s i (get_or s j 0),
)

pub length-exchange : (s : List ℕ) (i j : ℕ) → length (exchange s i j) ≡ length s
length-exchange s i j =
    omega
      (arith, length-set s i (get_or s j 0), length-set (set s i (get_or s j 0)) j (get_or s i 0))

-- The numbers from `i` on, `n` of them.
unfoldable pub iota : ℕ → ℕ → List ℕ
iota zero i = []
iota (suc n) i = i ∷ iota n (i + 1)

count-iota_below : (a n i : ℕ) → a < i → count a (iota n i) ≡ 0
unfolding count iota
count-iota_below a zero i p = refl
count-iota_below a (suc n) i p = ground (arith, count-iota_below a n (i + 1))

pub length-iota : (n i : ℕ) → length (iota n i) ≡ n
unfolding iota
length-iota zero i = refl
length-iota (suc n) i = omega (arith, length-iota n (i + 1))

pub count-iota : (a n i : ℕ) → i ≤ a → a < i + n → count a (iota n i) ≡ 1
unfolding count iota
count-iota a zero i p q = absurd (omega arith)
count-iota a (suc n) i p q = ground (arith, count-iota a n (i + 1), count-iota_below a n (i + 1))
