-- ===== src/Scrambled/Inverse.antt =====
-- Deciphering takes back what enciphering does (shared/Server/Packets/EncodingScrambled.cpp).
use rzemulator.Base.{
  ℕ, zero, suc, ◌/◌, ◌%◌, ◌^◌, ◌<◌, ◌≡◌, refl, ap, sym, subst, ◌∙◌, Bool, true, false, ◌&&◌, ◌||◌,
  List, [], ◌∷◌, ltb, ◌==◌, if◌then◌else◌, bit_or, arith, Bool-cases, ◌⊎◌, inl, inr,
}
use rzemulator.Scrambled.{
  Maps, zeroed, identity_loop, exchange_loop, invert_loop, init, place_bits, encode_scrambled,
  decode_scrambled,
}
use rzemulator.Scrambled.Bits.{
  test_bit, test_bit-zero, test_bit-bit_or, Small, below-Small, Small-below, zero-Small,
  bit_or-Small, test_bit_ext,
}

-- Whether some digit of the number is placed at `j`.
abbrev placed : List ℕ → ℕ → ℕ → Bool
placed [] v j = false
placed (place ∷ places) v j = (v % 2 == 1 && place == j) || placed places (v / 2) j

or_shuffle : (a b c : Bool) → (c || (a || b)) ≡ ((a || c) || b)
or_shuffle true true true = refl
or_shuffle true true false = refl
or_shuffle true false true = refl
or_shuffle true false false = refl
or_shuffle false true true = refl
or_shuffle false true false = refl
or_shuffle false false true = refl
or_shuffle false false false = refl

test_bit-place_bits :
    (places : List ℕ) (v result j : ℕ)
    → test_bit (place_bits places v result) j ≡ (placed places v j || test_bit result j)
unfolding place_bits
test_bit-place_bits [] v result j = refl
test_bit-place_bits (place ∷ places) v result j = elim (Bool-cases (v % 2 == 1)) [
  | inl e ↦ rw e (
      test_bit-place_bits places (v / 2) (bit_or result (2 ^ place)) j
      ∙ ap (λ b. placed places (v / 2) j || b) (test_bit-bit_or result place j)
      ∙ or_shuffle (place == j) (test_bit result j) (placed places (v / 2) j))
  | inr ne ↦ rw ne (test_bit-place_bits places (v / 2) result j)
]

abbrev all_below : ℕ → List ℕ → Bool
all_below w [] = true
all_below w (place ∷ places) = ltb place w && all_below w places

place_bits-Small :
    (places : List ℕ) (w v result : ℕ)
    → all_below w places ≡ true
    → Small w result
    → Small w (place_bits places v result)
unfolding place_bits
place_bits-Small [] w v result a s = s
place_bits-Small (place ∷ places) w v result a s =
    let first : ltb place w ≡ true = ground (arith, a) in
    let others : all_below w places ≡ true = ground (arith, a) in
    elim (Bool-cases (v % 2 == 1)) [
      | inl e ↦ rw e (
          place_bits-Small places w (v / 2) (bit_or result (2 ^ place)) others
            (bit_or-Small w result place (ground arith) s))
      | inr ne ↦ rw ne (place_bits-Small places w (v / 2) result others s)
    ]

-- Whether a place stands nowhere in the map, or once only, and where it stands.
abbrev nowhere : ℕ → List ℕ → Bool
nowhere j [] = true
nowhere j (place ∷ places) = if place == j then false else nowhere j places

abbrev once : ℕ → List ℕ → Bool
once j [] = false
once j (place ∷ places) = if place == j then nowhere j places else once j places

abbrev index_of : ℕ → List ℕ → ℕ
index_of j [] = 0
index_of j (place ∷ places) = if place == j then 0 else suc (index_of j places)

not_here : (b : Bool) (rest : Bool) → b ≡ false → ((rest && b) || false) ≡ false
not_here b true e = rw e refl
not_here b false e = refl

and_false : (a : Bool) → (a && false) ≡ false
and_false true = refl
and_false false = refl

and_true : (a : Bool) → ((a && true) || false) ≡ a
and_true true = refl
and_true false = refl

placed-nowhere : (places : List ℕ) (v j : ℕ) → nowhere j places ≡ true → placed places v j ≡ false
placed-nowhere [] v j n = refl
placed-nowhere (place ∷ places) v j n = elim (Bool-cases (place == j)) [
  | inl e ↦ absurd (ground (arith, n, e))
  | inr ne ↦
      let others : nowhere j places ≡ true = ground (arith, n, ne) in
      rw (ne, placed-nowhere places (v / 2) j others) (not_here false (v % 2 == 1) refl)
]

placed_once :
    (places : List ℕ) (v j : ℕ)
    → once j places ≡ true
    → placed places v j ≡ test_bit v (index_of j places)
placed_once [] v j o = absurd (ground (arith, o))
placed_once (place ∷ places) v j o = elim (Bool-cases (place == j)) [
  | inl e ↦
      let others : nowhere j places ≡ true = ground (arith, o, e) in
      rw (e, placed-nowhere places (v / 2) j others) (and_true (v % 2 == 1))
  | inr ne ↦
      let later : once j places ≡ true = ground (arith, o, ne) in
      rw (ne, placed_once places (v / 2) j later, and_false (v % 2 == 1)) refl
]

-- The second map takes each place below `n` back to where the first has it from.
abbrev takes_back : ℕ → List ℕ → List ℕ → Bool
takes_back zero m d = true
takes_back (suc k) m d =
    (once k d && (once (index_of k d) m && (index_of (index_of k d) m == k))) && takes_back k m d

record TakenBack (k : ℕ) (m d : List ℕ) : Type 0 where
  once_back : once k d ≡ true
  once_there : once (index_of k d) m ≡ true
  back : index_of (index_of k d) m ≡ k

same_or_below : (j k : ℕ) → j < suc k → (j ≡ k) ⊎ (j < k)
same_or_below j k h = omega arith

takes_back_lem : (n : ℕ) (m d : List ℕ) (k : ℕ) → takes_back n m d ≡ true → k < n → TakenBack k m d
takes_back_lem zero m d k t h = absurd (omega arith)
takes_back_lem (suc n) m d k t h = elim (same_or_below k n h) [
  | inl e ↦
      subst (λ i. TakenBack i m d) (sym e)
        (record {
          once_back = ground (arith, t);
          once_there = ground (arith, t);
          back = ground (arith, t);
        })
  | inr lt ↦ takes_back_lem n m d k (ground (arith, t)) lt
]

or_false : (a : Bool) → (a || false) ≡ a
or_false true = refl
or_false false = refl

bit_of_placed :
    (places : List ℕ) (v j : ℕ)
    → once j places ≡ true
    → test_bit (place_bits places v 0) j ≡ test_bit v (index_of j places)
bit_of_placed places v j o =
    test_bit-place_bits places v 0 j
    ∙ ap (λ b. placed places v j || b) (test_bit-zero j)
    ∙ or_false (placed places v j)
    ∙ placed_once places v j o

place_bits-place_bits :
    (w : ℕ) (m d : List ℕ) (v : ℕ)
    → takes_back w m d ≡ true
    → all_below w d ≡ true
    → v < 2 ^ w
    → place_bits d (place_bits m v 0) 0 ≡ v
place_bits-place_bits w m d v t a h =
    let out = place_bits m v 0 in
    test_bit_ext w (place_bits d out 0) v (place_bits-Small d w out 0 a (zero-Small w))
      (below-Small w v h)
      (λ j lt.
        let tb = takes_back_lem w m d j t lt in
        bit_of_placed d out j tb.once_back
        ∙ bit_of_placed m v (index_of j d) tb.once_there
        ∙ ap (test_bit v) tb.back)

init-takes_back : takes_back 32 (init zeroed).encode_map (init zeroed).decode_map ≡ true
unfolding init identity_loop exchange_loop invert_loop
init-takes_back = refl

init_below : all_below 32 (init zeroed).decode_map ≡ true
unfolding init identity_loop exchange_loop invert_loop
init_below = refl

init-init : init (init zeroed) ≡ init zeroed
unfolding init
init-init = refl

-- The state of the static members before the first call of EncodingScrambled, or after it.
abbrev pub IsUsed : Maps → Type 0
IsUsed s = (s ≡ zeroed) ⊎ (s ≡ init zeroed)

init-IsUsed : (s : Maps) → IsUsed s → init s ≡ init zeroed
init-IsUsed s (inl e) = ap init e
init-IsUsed s (inr e) = ap init e ∙ init-init

init_encode_below : all_below 32 (init zeroed).encode_map ≡ true
unfolding init identity_loop exchange_loop invert_loop
init_encode_below = refl

pub encode_scrambled-below : (s : Maps) (v : ℕ) → IsUsed s → (encode_scrambled s v).0 < 2 ^ 32
unfolding encode_scrambled
encode_scrambled-below s v u =
    let m = init s in
    let a : all_below 32 m.encode_map ≡ true =
      ap (λ (t : Maps). all_below 32 t.encode_map) (init-IsUsed s u) ∙ init_encode_below in
    let out = place_bits m.encode_map v 0 in
    Small-below 32 out (place_bits-Small m.encode_map 32 v 0 a (zero-Small 32))

-- A 32 bit number that is enciphered and then deciphered is the number itself, whether the two sides' maps were
-- built before, and both end with the maps of the first call.
pub decode_scrambled-encode_scrambled :
    (s t : Maps) (v : ℕ)
    → IsUsed s
    → IsUsed t
    → v < 2 ^ 32
    → (decode_scrambled t (encode_scrambled s v).0 ≡ (v, init zeroed))
      × ((encode_scrambled s v).1 ≡ init zeroed)
unfolding encode_scrambled decode_scrambled
decode_scrambled-encode_scrambled s t v u u' h = (
  rw (init-IsUsed s u, init-IsUsed t u')
      (ap (λ out. (out, init zeroed))
        (place_bits-place_bits 32 (init zeroed).encode_map (init zeroed).decode_map v
          init-takes_back init_below h)),
  init-IsUsed s u,
)
