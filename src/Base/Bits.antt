-- ===== src/Base/Bits.antt =====
-- `bit_xor` as the mask of a byte: the same mask twice gives the byte back.
use Prim.Native.Nat.{
  ℕ, zero, suc, ◌+◌, ◌-◌, ◌*◌, ◌/◌, ◌%◌, ◌≤◌, ◌<◌, bit_xor, digits, differ, bit_xor-bitwise,
}
use mathlib.Core.Path.{◌≡◌, refl, ◌∙◌}
use mathlib.Core.Logic.{◌≢◌, ◌⊎◌, inl, inr}
use native.Mathlib.Omega.{arith}
use rzemulator.Base.Tests.{◌==◌, if◌then◌else◌}

-- The exclusive or over `k` digits.
abbrev mix : ℕ → ℕ → ℕ → ℕ
mix k c b = digits (λ y. y) differ k c b

unroll :
    (k c b : ℕ)
    → c ≤ k
    → mix k c b ≡ (if c == 0 then b else mix (k - 1) (c / 2) (b / 2) * 2 + differ (c % 2) (b % 2))
unroll zero c b h = ground arith
unroll (suc k) zero b h = refl
unroll (suc k) (suc c) b h = ground arith

dec_zero : (a : ℕ) → (a ≡ 0) ⊎ (a ≢ 0)
dec_zero a = omega arith

-- On two digits the operation is the sum without its carry.
differ_sum : (x y : ℕ) → x < 2 → y < 2 → differ x y ≡ (x + y) % 2
differ_sum zero y p q = omega arith
differ_sum (suc x) zero p q = omega arith
differ_sum (suc x) (suc y) p q = ground arith

mix_self : (k b : ℕ) → b ≤ k → mix k b b ≡ 0
mix_self zero b h = omega (arith, unroll zero b b h)
mix_self (suc k) b h =
    ground (arith, unroll (suc k) b b h, differ_sum (b % 2) (b % 2), mix_self k (b / 2))

-- The digits of `b` mixed with those of `a` twice, counted in digits to go.
mix_twice : (n k a b c : ℕ) → c ≡ mix n a b → a ≤ n → c ≤ k → mix k c b ≡ a
mix_twice zero k a b c e p q =
    let same : c ≡ b = e ∙ unroll zero a b p ∙ ground arith in ground (arith, mix_self k b)
mix_twice (suc n) k a b c e p q =
    let first = e ∙ unroll (suc n) a b p in
    let digit = differ_sum (a % 2) (b % 2) (omega arith) (omega arith) in
    elim (dec_zero a) [
      | inl z ↦ let same : c ≡ b = first ∙ ground arith in ground (arith, mix_self k b)
      | inr nz ↦
          let both : c ≡ mix n (a / 2) (b / 2) * 2 + differ (a % 2) (b % 2) =
            first ∙ ground arith in
          let rest = mix_twice n (k - 1) (a / 2) (b / 2) (c / 2) (omega arith) (omega arith) in
          let fewer = unroll (k - 1) (c / 2) (b / 2) in
          ground (arith, unroll k c b q, fewer, differ_sum (c % 2) (b % 2), rest)
    ]

-- Applying a mask twice gives the number back.
pub bit_xor_cancel : (a b : ℕ) → bit_xor (bit_xor a b) b ≡ a
bit_xor_cancel a b =
    bit_xor-bitwise (bit_xor a b) b
    ∙ mix_twice a (bit_xor a b) a b (bit_xor a b) (bit_xor-bitwise a b) (omega arith) (omega arith)
