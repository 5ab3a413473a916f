-- ===== src/ByteBuffer.antt =====
-- shared/Encryption/ByteBuffer.h, on a machine whose lowest byte comes first, where EndianConvert does nothing. A byte is a
-- number below 256, a C++ string the list of its bytes. Positions and sizes add without wrapping.
pub mod Fields
pub mod Reading
pub mod Tests
use rzemulator.Base.{
  true, false, ℕ, zero, suc, ◌+◌, ◌-◌, ◌*◌, ◌/◌, ◌%◌, List, [], ◌∷◌, ◌++◌, Option, none, some, ltb,
  leb, ◌==◌, if◌then◌else◌, length, take, drop, replicate,
}
use rzemulator.Socket.Buffer.{vector_resize, copy_to}

-- The exceptions that are thrown, an assertion that fails, and an access outside the storage.
pub data Result (A : Type 0) : Type 0 where
  done : A → Result A
  position_exception : Result A
  assertion_failed : Result A
  outside : Result A

infixl 5 ◌>>=◌
abbrev pub ◌>>=◌ : {A B : Type 0} → Result A → (A → Result B) → Result B
done a >>= f = f a
position_exception >>= f = position_exception
assertion_failed >>= f = assertion_failed
outside >>= f = outside

pub record ByteBuffer : Type 0 where
  pub rpos : ℕ
  pub wpos : ℕ
  pub bitpos : ℕ
  pub curbitval : ℕ
  pub storage : List ℕ

abbrev pub no_bytes : ByteBuffer
no_bytes = record { rpos = 0; wpos = 0; bitpos = 8; curbitval = 0; storage = [] }

unfoldable clear_buffer : ByteBuffer → ByteBuffer
clear_buffer b = record b { storage = []; rpos = 0; wpos = 0 }

unfoldable resize_buffer : ByteBuffer → ℕ → ByteBuffer
unfolding vector_resize
resize_buffer b newsize = record b {
  storage = vector_resize b.storage newsize;
  rpos = 0;
  wpos = newsize;
}

-- `memcpy` to the index `at`.
pub copy_or_fault : List ℕ → ℕ → List ℕ → Result (List ℕ)
copy_or_fault storage at bytes = elim (copy_to storage at bytes) [
  | none ↦ outside
  | some s ↦ done s
]

pub append_raw : ByteBuffer → List ℕ → Result ByteBuffer
append_raw b bytes =
    let n = b.wpos + length bytes in
    let s = if ltb (length b.storage) n then vector_resize b.storage n else b.storage in
    let copied =
      copy_or_fault s b.wpos bytes >>= λ s'. done (record b { wpos = n; storage = s' }) in
    if length bytes == 0
    then done b
    else (if ltb (length b.storage) 10000000 then copied else assertion_failed)

-- The bytes of a value of that many bytes, and back.
pub le_bytes : ℕ → ℕ → List ℕ
le_bytes zero v = []
le_bytes (suc k) v = v % 256 ∷ le_bytes k (v / 256)

pub from_le : List ℕ → ℕ
from_le [] = 0
from_le (b ∷ bytes) = b + 256 * from_le bytes

pub flush_bits : ByteBuffer → Result ByteBuffer
flush_bits b =
    let flushed = append_raw b (b.curbitval ∷ []) in
    if b.bitpos == 8
    then done b
    else (flushed >>= λ b'. done (record b' { curbitval = 0; bitpos = 8 }))

pub append_value : ByteBuffer → ℕ → ℕ → Result ByteBuffer
append_value b width v = flush_bits b >>= λ b'. append_raw b' (le_bytes width v)

-- `operator<<` of a string.
pub append_text : ByteBuffer → List ℕ → Result ByteBuffer
append_text b text = append_raw b text >>= λ b'. append_value b' 1 0

-- `WriteString`.
unfoldable write_string : ByteBuffer → List ℕ → Result ByteBuffer
write_string b text = append_raw b text

-- The loop of `fill`, over the zeros to come.
unfoldable pad : ℕ → ByteBuffer → Result ByteBuffer
pad zero b = done b
pad (suc missing) b = append_value b 1 0 >>= pad missing

unfoldable fill : ByteBuffer → List ℕ → ℕ → Result ByteBuffer
unfolding pad
fill b src cnt = append_raw b src >>= pad (cnt - length src)

unfoldable put_value : ByteBuffer → ℕ → ℕ → ℕ → Result ByteBuffer
put_value b at width v =
    let copied =
      copy_or_fault b.storage at (le_bytes width v) >>= λ s. done (record b { storage = s }) in
    if ltb (length b.storage) (at + width) then position_exception else copied

pub read_at : ByteBuffer → ℕ → ℕ → Result ℕ
read_at b at width =
    if ltb (length b.storage) (at + width)
    then position_exception
    else done (from_le (take width (drop at b.storage)))

pub read_value : ByteBuffer → ℕ → Result (ℕ × ByteBuffer)
unfolding read_at
read_value b width = read_at b b.rpos width >>= λ v. done (v, record b { rpos = b.rpos + width })

unfoldable skip_bytes : ByteBuffer → ℕ → Result ByteBuffer
skip_bytes b n =
    if ltb (length b.storage) (b.rpos + n)
    then position_exception
    else done (record b { rpos = b.rpos + n })

unfoldable read_array : ByteBuffer → ℕ → Result (List ℕ × ByteBuffer)
read_array b n =
    if ltb (length b.storage) (b.rpos + n)
    then position_exception
    else done (take n (drop b.rpos b.storage), record b { rpos = b.rpos + n })

-- `operator>>` of a string; each round moves the read position, so that the size is enough fuel.
pub read_text_loop : ℕ → ByteBuffer → Result (List ℕ × ByteBuffer)
read_text_loop zero b = outside
read_text_loop (suc fuel) b = elim (ltb b.rpos (length b.storage)) [
  | false ↦ done ([], b)
  | true ↦ elim (read_value b 1) [
    | position_exception ↦ position_exception
    | assertion_failed ↦ assertion_failed
    | outside ↦ outside
    | done (c, b') ↦ elim (c == 0) [
      | true ↦ done ([], b')
      | false ↦ read_text_loop fuel b' >>= λ r. done (c ∷ r.0, r.1)
    ]
  ]
]

pub read_text : ByteBuffer → Result (List ℕ × ByteBuffer)
read_text b = read_text_loop (suc (length b.storage)) b
