-- ===== src/ByteBuffer/Fields.antt =====
-- Numbers and strings that are written into a ByteBuffer (shared/Encryption/ByteBuffer.h) and read back.
use rzemulator.Base.{
  ℕ, zero, suc, ◌+◌, ◌-◌, ◌/◌, ◌<◌, ◌≡◌, refl, ap, ap₂, sym, ◌∙◌, true, List, [], ◌∷◌, ◌++◌, ltb,
  ◌==◌, length, take, drop, replicate, arith, length-append, length-take, length-replicate,
  length-drop, Bool-cases, inl, inr,
}
use mathlib.Core.List.{append-nil, append_assoc}
use rzemulator.Base.Slices.{take-append, take_all, length_zero}
use rzemulator.Socket.Buffer.{vector_resize}
use rzemulator.Socket.Space.{copy_lem}
use rzemulator.ByteBuffer.{
  Result, done, ◌>>=◌, ByteBuffer, append_raw, copy_or_fault, le_bytes, from_le, flush_bits,
  append_value, append_text, read_value, read_text,
}

-- The value has no more than that many bytes.
abbrev pub Fits : ℕ → ℕ → Type 0
Fits zero v = v ≡ 0
Fits (suc k) v = Fits k (v / 256)

pub from-le_bytes : (k v : ℕ) → Fits k v → from_le (le_bytes k v) ≡ v
unfolding from_le le_bytes
from-le_bytes zero v f = sym f
from-le_bytes (suc k) v f = omega (arith, from-le_bytes k (v / 256) f)

pub length-le_bytes : (k v : ℕ) → length (le_bytes k v) ≡ k
unfolding le_bytes
length-le_bytes zero v = refl
length-le_bytes (suc k) v = ap suc (length-le_bytes k (v / 256))

-- The write position is the end of the storage, and no bits wait.
pub record AtEnd (b : ByteBuffer) : Type 0 where
  pub at_end : b.wpos ≡ length b.storage
  pub no_bits : b.bitpos ≡ 8

abbrev pub extended : ByteBuffer → List ℕ → ByteBuffer
extended b bytes = record b { wpos = b.wpos + length bytes; storage = b.storage ++ bytes }

extended-AtEnd : (b : ByteBuffer) (bytes : List ℕ) → AtEnd b → AtEnd (extended b bytes)
extended-AtEnd b bytes a = record {
  at_end = let e = a.at_end in omega (arith, length-append b.storage bytes);
  no_bits = a.no_bits;
}

extended-extended :
    (b : ByteBuffer) (us vs : List ℕ) → extended (extended b us) vs ≡ extended b (us ++ vs)
extended-extended b us vs =
    ap₂ (λ (w : ℕ) (s : List ℕ). record b { wpos = w; storage = s })
      (omega (arith, length-append us vs)) (append_assoc b.storage us vs)

extended_nil : (b : ByteBuffer) → b ≡ extended b []
extended_nil b =
    ap₂ (λ (w : ℕ) (s : List ℕ). record b { wpos = w; storage = s }) (omega arith)
      (sym (append-nil b.storage))

append_raw_lem :
    (b : ByteBuffer) (bytes : List ℕ)
    → AtEnd b
    → length b.storage < 10000000
    → append_raw b bytes ≡ done (extended b bytes)
unfolding append_raw copy_or_fault vector_resize
append_raw_lem b bytes a small = elim (Bool-cases (length bytes == 0)) [
  | inl e ↦
      let none_new : bytes ≡ [] = length_zero bytes (ground arith) in
      rw (append_raw, e)
        (ap₂ (λ (w : ℕ) (s : List ℕ). done (record b { wpos = w; storage = s })) (ground arith)
          (sym (ap (λ us. b.storage ++ us) none_new ∙ append-nil b.storage)))
  | inr ne ↦
      let z = a.at_end in
      let blank : ℕ = 0 in
      let n = b.wpos + length bytes in
      let more : ltb (length b.storage) n ≡ true = ground arith in
      let ok : ltb (length b.storage) 10000000 ≡ true = ground arith in
      let s = take n b.storage ++ replicate (n - length b.storage) 0 in
      let whole : take n b.storage ≡ b.storage = take_all n b.storage (omega arith) in
      let size : length s ≡ n = omega (
        arith,
        length-append (take n b.storage) (replicate (n - length b.storage) 0),
        length-take n b.storage,
        length-replicate (n - length b.storage) blank,
      ) in
      let front : take b.wpos s ≡ b.storage =
        ap (λ us. take b.wpos (us ++ replicate (n - length b.storage) 0)) whole
        ∙ take-append b.wpos b.storage (replicate (n - length b.storage) 0) z in
      let back : drop n s ≡ [] = length_zero (drop n s) (omega (arith, length-drop n s)) in
      rw (append_raw, ne, ok, more, copy_or_fault, copy_lem s b.wpos bytes (omega arith))
        (ap (λ us. done (record b { wpos = n; storage = us }))
          (ap₂ (λ us ws. us ++ (bytes ++ ws)) front back
            ∙ ap (λ us. b.storage ++ us) (append-nil bytes)))
]

append_value_lem :
    (b : ByteBuffer) (width v : ℕ)
    → AtEnd b
    → length b.storage < 10000000
    → append_value b width v ≡ done (extended b (le_bytes width v))
unfolding append_value flush_bits
append_value_lem b width v a small =
    let none_wait : (b.bitpos == 8) ≡ true = let e = a.no_bits in ground arith in
    rw none_wait (append_raw_lem b (le_bytes width v) a small)

-- A field of a packet.
pub data Field : Type 0 where
  number : ℕ → ℕ → Field
  text : List ℕ → Field

unfoldable pub field_bytes : Field → List ℕ
field_bytes (number width v) = le_bytes width v
field_bytes (text bytes) = bytes ++ 0 ∷ []

unfoldable pub fields_bytes : List Field → List ℕ
fields_bytes [] = []
fields_bytes (f ∷ fields) = field_bytes f ++ fields_bytes fields

unfoldable pub write_field : ByteBuffer → Field → Result ByteBuffer
write_field b (number width v) = append_value b width v
write_field b (text bytes) = append_text b bytes

unfoldable pub write_fields : ByteBuffer → List Field → Result ByteBuffer
write_fields b [] = done b
write_fields b (f ∷ fields) = write_field b f >>= λ b'. write_fields b' fields

-- Reads a field of the same kind.
unfoldable pub read_field : ByteBuffer → Field → Result (Field × ByteBuffer)
read_field b (number width v) = read_value b width >>= λ r. done (number width r.0, r.1)
read_field b (text bytes) = read_text b >>= λ r. done (text r.0, r.1)

unfoldable pub read_fields : ByteBuffer → List Field → Result (List Field × ByteBuffer)
read_fields b [] = done ([], b)
read_fields b (f ∷ fields) =
    read_field b f >>= λ r. read_fields r.1 fields >>= λ rest. done (r.0 ∷ rest.0, rest.1)

write_field_lem :
    (b : ByteBuffer) (f : Field)
    → AtEnd b
    → length b.storage + length (field_bytes f) < 10000000
    → write_field b f ≡ done (extended b (field_bytes f))
unfolding write_field field_bytes append_text le_bytes
write_field_lem b (number width v) a small = append_value_lem b width v a (omega arith)
write_field_lem b (text bytes) a small =
    let l = length-append bytes (0 ∷ []) in
    let m = length-append b.storage bytes in
    rw (append_raw_lem b bytes a (omega arith)) (
      append_value_lem (extended b bytes) 1 0 (extended-AtEnd b bytes a) (omega arith)
      ∙ ap done (extended-extended b bytes (0 ∷ [])))

pub write_fields_lem :
    (b : ByteBuffer) (fields : List Field)
    → AtEnd b
    → length b.storage + length (fields_bytes fields) < 10000000
    → write_fields b fields ≡ done (extended b (fields_bytes fields))
unfolding write_fields fields_bytes
write_fields_lem b [] a small = ap done (extended_nil b)
write_fields_lem b (f ∷ fields) a small =
    let l = length-append (field_bytes f) (fields_bytes fields) in
    let m = length-append b.storage (field_bytes f) in
    rw (write_field_lem b f a (omega arith)) (
      write_fields_lem (extended b (field_bytes f)) fields (extended-AtEnd b (field_bytes f) a)
        (omega arith)
      ∙ ap done (extended-extended b (field_bytes f) (fields_bytes fields)))
