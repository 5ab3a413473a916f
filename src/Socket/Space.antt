-- ===== src/Socket/Space.antt =====
-- The positions and the contents of a MessageBuffer (shared/Server/ASIO/MessageBuffer.cpp).
use rzemulator.Base.{
  ℕ, ◌+◌, ◌-◌, ◌^◌, ◌≤◌, ◌<◌, ◌≡◌, refl, ap, ◌∙◌, some, List, [], ◌++◌, ◌==◌, length, take, drop,
  arith, Bool-cases, inl, inr, length-append, length-take, length-drop,
}
use rzemulator.Base.Slices.{take-append, take_split, drop-drop, length_zero}
use rzemulator.Socket.Buffer.{
  MessageBuffer, sub64, get_active_size, get_remaining_space, read_completed, read_bytes, copy_to,
  write,
}
use mathlib.Core.List.{append_assoc, append-nil}

-- The positions are in order and the storage is small enough to be indexed.
pub record IsSound (b : MessageBuffer) : Type 0 where
  pub ordered : b.rpos ≤ b.wpos
  pub within : b.wpos ≤ length b.storage
  pub indexed : length b.storage < 2 ^ 64

-- What has been written, and what of it has not been read.
abbrev pub written : MessageBuffer → List ℕ
written b = take b.wpos b.storage

abbrev pub contents : MessageBuffer → List ℕ
contents b = take (b.wpos - b.rpos) (drop b.rpos b.storage)

pub sub64_lem : (a b : ℕ) → b ≤ a → a < 2 ^ 64 → sub64 a b ≡ a - b
unfolding sub64
sub64_lem a b p q = omega arith

pub active_lem : (b : MessageBuffer) → IsSound b → get_active_size b ≡ b.wpos - b.rpos
unfolding get_active_size
active_lem b v = sub64_lem b.wpos b.rpos v.ordered (omega arith)

pub remaining_lem :
    (b : MessageBuffer) → IsSound b → get_remaining_space b ≡ length b.storage - b.wpos
unfolding get_remaining_space
remaining_lem b v = sub64_lem (length b.storage) b.wpos v.within v.indexed

pub length-contents : (b : MessageBuffer) → IsSound b → length (contents b) ≡ b.wpos - b.rpos
length-contents b v =
    omega
      (arith, length-take (b.wpos - b.rpos) (drop b.rpos b.storage), length-drop b.rpos b.storage)

pub length-written : (b : MessageBuffer) → IsSound b → length (written b) ≡ b.wpos
length-written b v = omega (arith, length-take b.wpos b.storage)

module _ (storage : List ℕ) (at : ℕ) (bytes : List ℕ)
    (fits : at + length bytes ≤ length storage) where
  abbrev pub pasted : List ℕ
  pasted = take at storage ++ (bytes ++ drop (at + length bytes) storage)

  pub copy_lem : copy_to storage at bytes ≡ some pasted
  unfolding copy_to
  copy_lem = ground arith

  pub length-pasted : length pasted ≡ length storage
  length-pasted = omega (
    arith,
    length-append (take at storage) (bytes ++ drop (at + length bytes) storage),
    length-append bytes (drop (at + length bytes) storage),
    length-take at storage,
    length-drop (at + length bytes) storage,
  )

  pub take-pasted : take (at + length bytes) pasted ≡ take at storage ++ bytes
  take-pasted = rw (← append_assoc (take at storage) bytes (drop (at + length bytes) storage)) (
      take-append (at + length bytes) (take at storage ++ bytes) (drop (at + length bytes) storage)
        (omega (arith, length-append (take at storage) bytes, length-take at storage)))

-- A write that fits adds its bytes at the end and leaves the read position and the size.
pub write_lem :
    (b : MessageBuffer) (bytes : List ℕ)
    → IsSound b
    → b.wpos + length bytes ≤ length b.storage
    → (b' : MessageBuffer) × (write b bytes ≡ some b')
      × (IsSound b')
      × (b'.wpos ≡ b.wpos + length bytes)
      × (b'.rpos ≡ b.rpos)
      × (length b'.storage ≡ length b.storage)
      × (written b' ≡ written b ++ bytes)
unfolding write
write_lem b bytes v fits = elim (Bool-cases (length bytes == 0)) [
  | inl e ↦
      let z : bytes ≡ [] = length_zero bytes (ground arith) in
      (b, rw e refl, v, ground arith, refl, refl, rw (z, append-nil (written b)) refl)
  | inr ne ↦
      let s = pasted b.storage b.wpos bytes fits in
      let len = length-pasted b.storage b.wpos bytes fits in
      (
        record b { wpos = b.wpos + length bytes; storage = s },
        rw (ne, copy_lem b.storage b.wpos bytes fits) refl,
        record { ordered = omega (arith); within = omega arith; indexed = omega arith },
        refl,
        refl,
        len,
        take-pasted b.storage b.wpos bytes fits,
      )
]

-- Reading takes bytes off the front of the contents.
pub read_bytes_lem :
    (b : MessageBuffer) (n : ℕ)
    → IsSound b
    → n ≤ b.wpos - b.rpos
    → (bytes : List ℕ) × (read_bytes b n ≡ some bytes)
      × (length bytes ≡ n)
      × (contents b ≡ bytes ++ contents (read_completed b n))
      × (IsSound (read_completed b n))
unfolding read_bytes read_completed
read_bytes_lem b n v h = (
  take n (drop b.rpos b.storage),
  ground arith,
  omega (arith, length-take n (drop b.rpos b.storage), length-drop b.rpos b.storage),
  let e : b.wpos - b.rpos - n ≡ b.wpos - (b.rpos + n) = omega arith in
      take_split n (b.wpos - b.rpos) (drop b.rpos b.storage) h
      ∙ ap (◌++◌ (take n (drop b.rpos b.storage))) (rw (e, drop-drop n b.rpos b.storage) refl),
  record { ordered = omega arith; within = v.within; indexed = v.indexed },
)

pub contents_start : (b : MessageBuffer) → b.rpos ≡ 0 → contents b ≡ written b
contents_start b z =
    ap (λ r. take (b.wpos - r) (drop r b.storage)) z ∙ ap (λ n. take n b.storage) (omega arith)
