-- ===== src/Base/Vectors.antt =====
-- The end of a `std::vector`, and the entry that moves from there into a hole.
use Prim.Native.Nat.{ℕ, zero, suc, ◌+◌, ◌-◌, ◌<◌}
use mathlib.Core.Path.{◌≡◌, refl}
use mathlib.Core.Logic.{◌≢◌}
use mathlib.Core.Bool.{Bool, true, false, ◌&&◌}
use mathlib.Core.List.{List, [], ◌∷◌, ◌++◌}
use mathlib.Core.Option.{Option, none, some}
use native.Mathlib.Omega.{arith}
use rzemulator.Base.Tests.{◌==◌, ltb, if◌then◌else◌}
use rzemulator.Base.Lists.{length, get_elem?, set, length-set}

-- `back` and `pop_back`.
unfoldable pub last? : List ℕ → Option ℕ
last? [] = none
last? (p ∷ []) = some p
last? (p ∷ q ∷ ps) = last? (q ∷ ps)

unfoldable pub drop_last : List ℕ → List ℕ
drop_last [] = []
drop_last (p ∷ []) = []
drop_last (p ∷ q ∷ ps) = p ∷ drop_last (q ∷ ps)

pub get_elem?-lt : (xs : List ℕ) (i p : ℕ) → get_elem? xs i ≡ some p → i < length xs
get_elem?-lt [] i p e = cc
get_elem?-lt (x ∷ xs) zero p e = omega arith
get_elem?-lt (x ∷ xs) (suc i) p e = omega (arith, get_elem?-lt xs i p e)

pub get_elem?-snoc :
    (xs : List ℕ) (x i : ℕ)
    → get_elem? (xs ++ x ∷ []) i ≡ (if i == length xs then some x else get_elem? xs i)
get_elem?-snoc [] x zero = refl
get_elem?-snoc [] x (suc i) = ground arith
get_elem?-snoc (y ∷ xs) x zero = ground arith
get_elem?-snoc (y ∷ xs) x (suc i) = ground (arith, get_elem?-snoc xs x i)

pub get_elem?-set :
    (xs : List ℕ) (i j v : ℕ)
    → i < length xs
    → get_elem? (set xs i v) j ≡ (if i == j then some v else get_elem? xs j)
get_elem?-set [] i j v h = absurd (omega arith)
get_elem?-set (x ∷ xs) zero zero v h = refl
get_elem?-set (x ∷ xs) zero (suc j) v h = ground arith
get_elem?-set (x ∷ xs) (suc i) zero v h = ground arith
get_elem?-set (x ∷ xs) (suc i) (suc j) v h = ground (arith, get_elem?-set xs i j v)

length-drop_last : (xs : List ℕ) → length (drop_last xs) ≡ length xs - 1
unfolding drop_last
length-drop_last [] = refl
length-drop_last (x ∷ []) = refl
length-drop_last (x ∷ y ∷ xs) = omega (arith, length-drop_last (y ∷ xs))

get_elem?-drop_last :
    (xs : List ℕ) (i : ℕ)
    → get_elem? (drop_last xs) i ≡ (if ltb (i + 1) (length xs) then get_elem? xs i else none)
unfolding drop_last
get_elem?-drop_last [] i = ground arith
get_elem?-drop_last (x ∷ []) i = ground arith
get_elem?-drop_last (x ∷ y ∷ xs) zero = ground arith
get_elem?-drop_last (x ∷ y ∷ xs) (suc i) = ground (arith, get_elem?-drop_last (y ∷ xs) i)

pub last?-get_elem? :
    (xs : List ℕ) (b : ℕ) → last? xs ≡ some b → get_elem? xs (length xs - 1) ≡ some b
unfolding last?
last?-get_elem? [] b e = cc
last?-get_elem? (x ∷ []) b e = e
last?-get_elem? (x ∷ y ∷ xs) b e = ground (arith, last?-get_elem? (y ∷ xs) b e)

-- The entries after the last one has moved into the hole.
pub get_elem?-moved :
    (xs : List ℕ) (moves : Bool) (i b j : ℕ)
    → i < length xs
    → get_elem? (drop_last (if moves then set xs i b else xs)) j ≡ (
        if ltb (j + 1) (length xs)
        then (if moves && (i == j) then some b else get_elem? xs j)
        else none)
get_elem?-moved xs true i b j h =
    ground (arith, get_elem?-drop_last (set xs i b) j, length-set xs i b, get_elem?-set xs i j b)
get_elem?-moved xs false i b j h = get_elem?-drop_last xs j

pub length-moved :
    (xs : List ℕ) (moves : Bool) (i b : ℕ)
    → length (drop_last (if moves then set xs i b else xs)) ≡ length xs - 1
length-moved xs true i b = omega (arith, length-drop_last (set xs i b), length-set xs i b)
length-moved xs false i b = length-drop_last xs

-- The list has the entry.
abbrev pub Holds : List ℕ → ℕ → Type 0
Holds list p = (i : ℕ) × (get_elem? list i ≡ some p)

pub last?-ne-none : (xs : List ℕ) (i p : ℕ) → get_elem? xs i ≡ some p → last? xs ≢ none
unfolding last?
last?-ne-none [] i p e h = cc
last?-ne-none (x ∷ []) i p e h = cc
last?-ne-none (x ∷ y ∷ xs) i p e h = last?-ne-none (y ∷ xs) 0 y refl h
