-- ===== src/Scrambled/Words.antt =====
-- shared/Server/Packets/EncodingRandomized.h, and the templates of EncodingScrambled.h that stand on it. A packet buffer
-- gives the 64 bits back that it was given; here they are the four words of the union.
use rzemulator.Base.{
  ℕ, zero, suc, ◌+◌, ◌-◌, ◌*◌, ◌/◌, ◌%◌, ◌^◌, ◌<◌, ◌≡◌, ap, ap₂, ◌∙◌, bit_or, max, arith,
}
use rzemulator.Scrambled.{Maps, zeroed, init, encode_scrambled, decode_scrambled}
use rzemulator.Scrambled.Bits.{bit_or_step, bit_or_zero}
use rzemulator.Scrambled.Inverse.{IsUsed, encode_scrambled-below, decode_scrambled-encode_scrambled}

-- `SerializedValue`.
pub record Words : Type 0 where
  pub word0 : ℕ
  pub word1 : ℕ
  pub word2 : ℕ
  pub word3 : ℕ

unfoldable pub serialize_randomized : ℕ → Words
serialize_randomized value = record {
  word0 = 0;
  word1 = value / 2 ^ 16 % 2 ^ 16;
  word2 = 0;
  word3 = value % 2 ^ 16;
}

-- The differences are those of an `int`, cut to 16 bits: four times 2^16 keeps them from going below 0.
pub deserialize_randomized : Words → ℕ
deserialize_randomized sv =
    let high = (sv.word1 + 4 * 2 ^ 16 + 2 * sv.word0 - 2 * sv.word2) % 2 ^ 16 in
    let low = (sv.word3 + 2 * (sv.word2 + sv.word0)) % 2 ^ 16 in bit_or (high * 2 ^ 16) low

-- The templates of EncodingScrambled.
pub serialize_scrambled : Maps → ℕ → Words × Maps
serialize_scrambled s value = let r = encode_scrambled s value in (serialize_randomized r.0, r.1)

pub deserialize_scrambled : Maps → Words → ℕ × Maps
deserialize_scrambled s sv = decode_scrambled s (deserialize_randomized sv)

twice_product : (a p : ℕ) → a * (p * 2) ≡ a * p * 2
twice_product a p = grind arith

bit_or-apart : (k a b : ℕ) → b < 2 ^ k → bit_or (a * 2 ^ k) b ≡ a * 2 ^ k + b
bit_or-apart zero a b h = ap (bit_or (a * 1)) (omega arith) ∙ bit_or_zero (a * 1) ∙ omega arith
bit_or-apart (suc k) a b h =
    let rest = bit_or-apart k a (b / 2) (omega arith) in
    let double : 2 ^ suc k ≡ 2 ^ k * 2 = omega arith in
    let t : a * 2 ^ suc k ≡ a * 2 ^ k * 2 = ap (λ p. a * p) double ∙ twice_product a (2 ^ k) in
    let e : a * 2 ^ suc k / 2 ≡ a * 2 ^ k = omega (arith, t) in
    let f : a * 2 ^ suc k % 2 ≡ 0 = omega (arith, t) in
    let step : bit_or (a * 2 ^ suc k) b
        ≡ bit_or (a * 2 ^ k) (b / 2) * 2 + max (a * 2 ^ suc k % 2) (b % 2) =
      bit_or_step (a * 2 ^ suc k) b
      ∙ ap (λ c. bit_or c (b / 2) * 2 + max (a * 2 ^ suc k % 2) (b % 2)) e in
    let low : max (a * 2 ^ suc k % 2) (b % 2) ≡ b % 2 = ground (arith, f) in
    omega (arith, t, step, rest, low)

-- The words that `serialize` of EncodingRandomized writes, masked with two numbers as in its comment, where its own
-- are 0.
abbrev pub masked : ℕ → ℕ → ℕ → Words
masked value r0 r2 = record {
  word0 = r0;
  word1 = (value / 2 ^ 16 + 4 * 2 ^ 16 + 2 * r2 - 2 * r0) % 2 ^ 16;
  word2 = r2;
  word3 = (value % 2 ^ 16 + 4 * 2 ^ 16 - 2 * (r2 + r0)) % 2 ^ 16;
}

halves :
    (high low value : ℕ)
    → high ≡ value / 2 ^ 16
    → low ≡ value % 2 ^ 16
    → bit_or (high * 2 ^ 16) low ≡ value
halves high low value e f = bit_or-apart 16 high low (omega arith) ∙ omega arith

deserialize_randomized-masked :
    (value r0 r2 : ℕ)
    → value < 2 ^ 32
    → r0 < 2 ^ 16
    → r2 < 2 ^ 16
    → deserialize_randomized (masked value r0 r2) ≡ value
unfolding deserialize_randomized
deserialize_randomized-masked value r0 r2 h h0 h2 =
    let high = (value / 2 ^ 16 + 4 * 2 ^ 16 + 2 * r2 - 2 * r0) % 2 ^ 16 in
    let low = (value % 2 ^ 16 + 4 * 2 ^ 16 - 2 * (r2 + r0)) % 2 ^ 16 in
    halves ((high + 4 * 2 ^ 16 + 2 * r0 - 2 * r2) % 2 ^ 16) ((low + 2 * (r2 + r0)) % 2 ^ 16) value
      (omega arith) (omega arith)

serialize_randomized_lem :
    (value : ℕ) → value < 2 ^ 32 → serialize_randomized value ≡ masked value 0 0
unfolding serialize_randomized
serialize_randomized_lem value h =
    ap₂ (λ high low. record { word0 = 0; word1 = high; word2 = 0; word3 = low }) (omega arith)
      (omega arith)

-- A 32 bit number that one side enciphers and writes to a packet is read back and deciphered by the other as the
-- number itself, whether their maps were built before; so it is where the writer masks the words with two of its
-- own choice.
pub deserialize-serialize :
    (s t : Maps) (v r0 r2 : ℕ)
    → IsUsed s
    → IsUsed t
    → v < 2 ^ 32
    → r0 < 2 ^ 16
    → r2 < 2 ^ 16
    → (deserialize_scrambled t (serialize_scrambled s v).0 ≡ (v, init zeroed))
      × (deserialize_scrambled t (masked (encode_scrambled s v).0 r0 r2) ≡ (v, init zeroed))
unfolding serialize_scrambled deserialize_scrambled
deserialize-serialize s t v r0 r2 u u' h h0 h2 =
    let out = (encode_scrambled s v).0 in
    let small = encode_scrambled-below s v u in
    let back = (decode_scrambled-encode_scrambled s t v u u' h).0 in
    let plain : deserialize_randomized (serialize_randomized out) ≡ out =
      ap deserialize_randomized (serialize_randomized_lem out small)
      ∙ deserialize_randomized-masked out 0 0 small (omega arith) (omega arith) in
    (
      ap (decode_scrambled t) plain ∙ back,
      ap (decode_scrambled t) (deserialize_randomized-masked out r0 r2 small h0 h2) ∙ back,
    )
