-- ===== src/Scrambled/Bits.antt =====
-- The binary digits of a number, after EncodingScrambled.cpp has set one of them.
use Prim.Native.Nat.{digits, bit_or-bitwise}
use rzemulator.Base.{
  ℕ, zero, suc, ◌+◌, ◌-◌, ◌*◌, ◌/◌, ◌%◌, ◌^◌, ◌≤◌, ◌<◌, ◌≡◌, ◌≢◌, refl, ap, sym, subst, ◌∙◌, Bool,
  false, ◌||◌, max, ◌==◌, if◌then◌else◌, bit_or, arith, ◌⊎◌, inl, inr,
}

-- The digits of `bit_or`, over `k` digits.
abbrev join : ℕ → ℕ → ℕ → ℕ
join k a b = digits (λ y. y) max k a b

unroll :
    (k a b : ℕ)
    → a ≤ k
    → join k a b ≡ (if a == 0 then b else join (k - 1) (a / 2) (b / 2) * 2 + max (a % 2) (b % 2))
unroll zero a b h = ground arith
unroll (suc k) zero b h = refl
unroll (suc k) (suc a) b h = ground arith

dec_zero : (a : ℕ) → (a ≡ 0) ⊎ (a ≢ 0)
dec_zero a = omega arith

join_any : (k k' a b : ℕ) → a ≤ k → a ≤ k' → join k a b ≡ join k' a b
join_any zero k' a b h h' = ground (arith, unroll k' a b h')
join_any (suc k) k' a b h h' = elim (dec_zero a) [
  | inl z ↦ ground (arith, unroll (suc k) a b h, unroll k' a b h')
  | inr nz ↦
      let rest = join_any k (k' - 1) (a / 2) (b / 2) (omega arith) (omega arith) in
      ground (arith, unroll (suc k) a b h, unroll k' a b h', rest)
]

join_zero : (k a : ℕ) → a ≤ k → join k a 0 ≡ a
join_zero zero a h = omega arith
join_zero (suc k) zero h = refl
join_zero (suc k) (suc a) h =
    let rest = join_zero k (suc a / 2) (omega arith) in
    ground (arith, unroll (suc k) (suc a) 0 h, rest)

-- The lowest digit and the others.
pub bit_or_step : (a b : ℕ) → bit_or a b ≡ bit_or (a / 2) (b / 2) * 2 + max (a % 2) (b % 2)
bit_or_step a b = elim (dec_zero a) [
  | inl z ↦
      let e = bit_or-bitwise a b ∙ unroll a a b (omega arith) in
      let f = bit_or-bitwise (a / 2) (b / 2) ∙ unroll (a / 2) (a / 2) (b / 2) (omega arith) in
      ground (arith, e, f)
  | inr nz ↦
      let e = bit_or-bitwise a b ∙ unroll a a b (omega arith) in
      let f = bit_or-bitwise (a / 2) (b / 2) in
      let g = join_any (a / 2) (a - 1) (a / 2) (b / 2) (omega arith) (omega arith) in
      ground (arith, e, f, g)
]

-- The digit at a place.
abbrev pub test_bit : ℕ → ℕ → Bool
test_bit v zero = v % 2 == 1
test_bit v (suc j) = test_bit (v / 2) j

pub test_bit-zero : (j : ℕ) → test_bit 0 j ≡ false
test_bit-zero zero = refl
test_bit-zero (suc j) = test_bit-zero j

bit_or_half : (a b : ℕ) → bit_or a b / 2 ≡ bit_or (a / 2) (b / 2)
bit_or_half a b = ground (arith, bit_or_step a b)

bit_or_low : (a b : ℕ) → bit_or a b % 2 ≡ max (a % 2) (b % 2)
bit_or_low a b = ground (arith, bit_or_step a b)

test_bit-bit_or_zero : (a j : ℕ) → test_bit (bit_or a 0) j ≡ test_bit a j
test_bit-bit_or_zero a zero = ground (arith, bit_or_low a 0)
test_bit-bit_or_zero a (suc j) =
    ap (λ v. test_bit v j) (bit_or_half a 0) ∙ test_bit-bit_or_zero (a / 2) j

pub bit_or_zero : (a : ℕ) → bit_or a 0 ≡ a
bit_or_zero a = bit_or-bitwise a 0 ∙ join_zero a a (omega arith)

twice_half : (p : ℕ) → 2 ^ suc p / 2 ≡ 2 ^ p
twice_half p = omega arith

twice_low : (p : ℕ) → 2 ^ suc p % 2 ≡ 0
twice_low p = omega arith

zero_ne_suc : (j : ℕ) → (0 == suc j) ≡ false
zero_ne_suc j = ground arith

suc_eq_suc : (p j : ℕ) → (p == j) ≡ (suc p == suc j)
suc_eq_suc p j = ground arith

-- Setting the digit at `p` changes no other.
pub test_bit-bit_or : (r p j : ℕ) → test_bit (bit_or r (2 ^ p)) j ≡ ((p == j) || test_bit r j)
test_bit-bit_or r zero zero = ground (arith, bit_or_low r 1)
test_bit-bit_or r zero (suc j) =
    ap (λ v. test_bit v j) (bit_or_half r 1)
    ∙ test_bit-bit_or_zero (r / 2) j
    ∙ ap (λ e. e || test_bit r (suc j)) (sym (zero_ne_suc j))
test_bit-bit_or r (suc p) zero = ground (arith, bit_or_low r (2 ^ suc p), twice_low p)
test_bit-bit_or r (suc p) (suc j) =
    ap (λ v. test_bit v j) (bit_or_half r (2 ^ suc p) ∙ ap (λ b. bit_or (r / 2) b) (twice_half p))
    ∙ test_bit-bit_or (r / 2) p j
    ∙ ap (λ e. e || test_bit r (suc j)) (suc_eq_suc p j)

-- A number of at most `w` digits.
abbrev pub Small : ℕ → ℕ → Type 0
Small zero v = v ≡ 0
Small (suc w) v = Small w (v / 2)

pub below-Small : (w v : ℕ) → v < 2 ^ w → Small w v
below-Small zero v h = omega arith
below-Small (suc w) v h = below-Small w (v / 2) (omega arith)

pub Small-below : (w v : ℕ) → Small w v → v < 2 ^ w
Small-below zero v s = omega (arith, s)
Small-below (suc w) v s = omega (arith, Small-below w (v / 2) s)

pub zero-Small : (w : ℕ) → Small w 0
zero-Small zero = refl
zero-Small (suc w) = zero-Small w

same-Small : (w : ℕ) {u v : ℕ} → u ≡ v → Small w v → Small w u
same-Small w e s = subst (Small w) (sym e) s

bit_or_zero-Small : (w a : ℕ) → Small w a → Small w (bit_or a 0)
bit_or_zero-Small zero a s = ground (arith, bit_or_step a 0)
bit_or_zero-Small (suc w) a s = same-Small w (bit_or_half a 0) (bit_or_zero-Small w (a / 2) s)

pub bit_or-Small : (w r p : ℕ) → p < w → Small w r → Small w (bit_or r (2 ^ p))
bit_or-Small zero r p h s = absurd (omega arith)
bit_or-Small (suc w) r zero h s = same-Small w (bit_or_half r 1) (bit_or_zero-Small w (r / 2) s)
bit_or-Small (suc w) r (suc p) h s =
    same-Small w (bit_or_half r (2 ^ suc p) ∙ ap (λ b. bit_or (r / 2) b) (twice_half p))
      (bit_or-Small w (r / 2) p (omega arith) s)

low_digit : (u v : ℕ) → (u % 2 == 1) ≡ (v % 2 == 1) → u / 2 ≡ v / 2 → u ≡ v
low_digit u v e h = ground arith

-- Numbers of at most `w` digits whose digits are the same.
pub test_bit_ext :
    (w u v : ℕ) → Small w u → Small w v → ((j : ℕ) → j < w → test_bit u j ≡ test_bit v j) → u ≡ v
test_bit_ext zero u v su sv same = su ∙ sym sv
test_bit_ext (suc w) u v su sv same =
    low_digit u v (same 0 (omega arith))
      (test_bit_ext w (u / 2) (v / 2) su sv (λ j h. same (suc j) (omega arith)))
