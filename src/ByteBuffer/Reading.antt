-- ===== src/ByteBuffer/Reading.antt =====
-- Reading numbers and strings from a ByteBuffer (shared/Encryption/ByteBuffer.h).
use rzemulator.Base.{
  ℕ, zero, suc, ◌+◌, ◌<◌, ◌≡◌, ◌≢◌, refl, ap, ap₂, sym, ◌∙◌, true, false, List, [], ◌∷◌, ◌++◌, ltb,
  ◌==◌, length, take, drop, arith, length-append,
}
use mathlib.Core.List.{append-nil, append_assoc}
use rzemulator.Base.Slices.{take-append, drop-append}
use rzemulator.ByteBuffer.{
  done, position_exception, ByteBuffer, le_bytes, from_le, read_at, read_value, read_text,
  read_text_loop,
}
use rzemulator.ByteBuffer.Fields.{
  Fits, from-le_bytes, length-le_bytes, AtEnd, extended, Field, number, text, field_bytes,
  fields_bytes, write_fields, write_fields_lem, read_field, read_fields,
}

abbrev moved : ByteBuffer → ℕ → ByteBuffer
moved b n = record b { rpos = b.rpos + n }

window :
    (pre bytes post : List ℕ) (at n : ℕ)
    → at ≡ length pre
    → n ≡ length bytes
    → take n (drop at (pre ++ (bytes ++ post))) ≡ bytes
window pre bytes post at n e f =
    ap (take n) (drop-append at pre (bytes ++ post) e) ∙ take-append n bytes post f

read_bytes_at :
    (b : ByteBuffer) (pre bytes post : List ℕ) (n : ℕ)
    → b.storage ≡ pre ++ (bytes ++ post)
    → b.rpos ≡ length pre
    → n ≡ length bytes
    → read_value b n ≡ done (from_le bytes, moved b n)
unfolding read_value read_at
read_bytes_at b pre bytes post n e at f =
    let l = ap (length {A = ℕ}) e in
    let size = length-append pre (bytes ++ post) in
    let size' = length-append bytes post in
    let inside : ltb (length b.storage) (b.rpos + n) ≡ false = ground arith in
    let got : take n (drop b.rpos b.storage) ≡ bytes =
      ap (λ s. take n (drop b.rpos s)) e ∙ window pre bytes post b.rpos n at f in
    rw (read_value, inside, got) refl

-- Where fewer bytes are left than the value has, an exception is thrown.
pub read_value_short :
    (b : ByteBuffer) (width : ℕ)
    → length b.storage < b.rpos + width
    → read_value b width ≡ position_exception
unfolding read_value read_at
read_value_short b width h = ground arith

abbrev pub NoZero : List ℕ → Type 0
NoZero [] = Unit {0}
NoZero (c ∷ bytes) = (c ≢ 0) × NoZero bytes

read_text_loop_lem :
    (fuel : ℕ) (b : ByteBuffer) (pre bytes post : List ℕ)
    → b.storage ≡ pre ++ ((bytes ++ 0 ∷ []) ++ post)
    → b.rpos ≡ length pre
    → NoZero bytes
    → length bytes < fuel
    → read_text_loop fuel b ≡ done (bytes, moved b (length bytes + 1))
unfolding read_text_loop from_le
read_text_loop_lem zero b pre bytes post e at z h = absurd (omega arith)
read_text_loop_lem (suc fuel) b pre [] post e at z h =
    let l = ap (length {A = ℕ}) e in
    let size = length-append pre (0 ∷ post) in
    let inside : ltb b.rpos (length b.storage) ≡ true = ground arith in
    rw (read_text_loop, inside, read_bytes_at b pre (0 ∷ []) post 1 e at refl) refl
read_text_loop_lem (suc fuel) b pre (c ∷ bytes) post e at (nz, z) h =
    let l = ap (length {A = ℕ}) e in
    let size = length-append pre (c ∷ ((bytes ++ 0 ∷ []) ++ post)) in
    let inside : ltb b.rpos (length b.storage) ≡ true = ground arith in
    let value : from_le (c ∷ []) ≡ c = omega arith in
    let go : (c == 0) ≡ false = ground arith in
    let rest = (bytes ++ 0 ∷ []) ++ post in
    let later =
      read_text_loop_lem fuel (moved b 1) (pre ++ c ∷ []) bytes post
        (e ∙ sym (append_assoc pre (c ∷ []) rest))
        (let m = length-append pre (c ∷ []) in omega arith) z (omega arith) in
    rw (read_text_loop, inside, read_bytes_at b pre (c ∷ []) rest 1 e at refl, value, go, later)
      (ap₂ (λ (x n : ℕ). done (x ∷ bytes, record b { rpos = n })) (omega arith) (omega arith))

-- Fields that can be read back: numbers that fit their width, strings without a zero byte.
abbrev pub AllReadable : List Field → Type 0
AllReadable [] = Unit {0}
AllReadable (number width v ∷ fields) = Fits width v × AllReadable fields
AllReadable (text bytes ∷ fields) = NoZero bytes × AllReadable fields

read_fields_lem :
    (b : ByteBuffer) (pre post : List ℕ) (fields : List Field)
    → AllReadable fields
    → b.storage ≡ pre ++ (fields_bytes fields ++ post)
    → b.rpos ≡ length pre
    → read_fields b fields ≡ done (fields, moved b (length (fields_bytes fields)))
unfolding read_fields read_field fields_bytes field_bytes read_text
read_fields_lem b pre post [] a e at = ap (λ n. done ([], record b { rpos = n })) (omega arith)
read_fields_lem b pre post (number width v ∷ fields) (f, a) e at =
    let bytes = le_bytes width v in
    let rest = fields_bytes fields in
    let size = length-le_bytes width v in
    let split : b.storage ≡ pre ++ (bytes ++ (rest ++ post)) =
      e ∙ ap (λ us. pre ++ us) (append_assoc bytes rest post) in
    let later =
      read_fields_lem (moved b width) (pre ++ bytes) post fields a
        (split ∙ sym (append_assoc pre bytes (rest ++ post)))
        (let m = length-append pre bytes in omega arith) in
    rw
      (
        read_bytes_at b pre bytes (rest ++ post) width split at (sym size),
        from-le_bytes width v f,
        later,
      )
      (ap (λ n. done (number width v ∷ fields, record b { rpos = n }))
        (let m = length-append bytes rest in omega arith))
read_fields_lem b pre post (text bytes ∷ fields) (f, a) e at =
    let ended = bytes ++ 0 ∷ [] in
    let rest = fields_bytes fields in
    let size = length-append bytes (0 ∷ []) in
    let split : b.storage ≡ pre ++ (ended ++ (rest ++ post)) =
      e ∙ ap (λ us. pre ++ us) (append_assoc ended rest post) in
    let l = ap (length {A = ℕ}) split in
    let m1 = length-append pre (ended ++ (rest ++ post)) in
    let m2 = length-append ended (rest ++ post) in
    let later =
      read_fields_lem (moved b (length bytes + 1)) (pre ++ ended) post fields a
        (split ∙ sym (append_assoc pre ended (rest ++ post)))
        (let m = length-append pre ended in omega arith) in
    rw
      (
        read_text_loop_lem (suc (length b.storage)) b pre bytes (rest ++ post) split at f
            (omega arith),
        later,
      )
      (ap (λ n. done (text bytes ∷ fields, record b { rpos = n }))
        (let m = length-append ended rest in omega arith))

-- Numbers that fit their width and strings without a zero byte, written one after the other at the end of a buffer
-- in which nothing is unread, are read back as they were, in order, and then nothing is unread again. No bits
-- wait in the buffer, and its size stays below the limit that is asserted.
pub write-read :
    (b : ByteBuffer) (fields : List Field)
    → AtEnd b
    → b.rpos ≡ length b.storage
    → AllReadable fields
    → length b.storage + length (fields_bytes fields) < 10000000
    → (b' : ByteBuffer) × (b'' : ByteBuffer) × (write_fields b fields ≡ done b')
      × (read_fields b' fields ≡ done (fields, b''))
      × (b''.rpos ≡ length b''.storage)
      × (b''.storage ≡ b.storage ++ fields_bytes fields)
write-read b fields a at r small =
    let b' = extended b (fields_bytes fields) in
    (
      b',
      moved b' (length (fields_bytes fields)),
      write_fields_lem b fields a small,
      read_fields_lem b' b.storage [] fields r
          (ap (λ us. b.storage ++ us) (sym (append-nil (fields_bytes fields)))) at,
      (let m = length-append b.storage (fields_bytes fields) in omega arith),
      refl,
    )
