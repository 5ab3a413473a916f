-- ===== src/Cipher/Stream.antt =====
-- Encoding and decoding over a stream (`codeBlock`, `Encode`, `Decode`), shared/Encryption.
use rzemulator.Base.{ℕ, suc, ◌≡◌, refl, ap, true, false, List, [], ◌∷◌, ◌++◌, length, arith}
use rzemulator.Base.Bits.{bit_xor_cancel}
use rzemulator.Cipher.{
  State, advance, skip_for, mask, code_block, encode, decode, try_cipher, do_cipher,
}
use mathlib.Core.List.{flatten}

-- `codeBlock` moves the state as `skipFor` does over as many bytes, whatever the bytes are.
pub code_block-skip_for :
    (st : State) (bs : List ℕ) → (code_block st bs).0 ≡ skip_for st (length bs)
unfolding code_block skip_for
code_block-skip_for st [] = refl
code_block-skip_for st (b ∷ bs) = code_block-skip_for (advance st) bs

-- The same state decodes what it encoded, and both sides end in one state.
pub code_block_twice :
    (st : State) (bs : List ℕ) → code_block st (code_block st bs).1 ≡ ((code_block st bs).0, bs)
unfolding code_block
code_block_twice st [] = refl
code_block_twice st (b ∷ bs) =
    ground (arith, code_block_twice (advance st) bs, bit_xor_cancel b (mask st))

pub code_block-append :
    (st : State) (us vs : List ℕ)
    → code_block st (us ++ vs) ≡ (
      (code_block (code_block st us).0 vs).0,
      (code_block st us).1 ++ (code_block (code_block st us).0 vs).1,
    )
unfolding code_block
code_block-append st [] vs = refl
code_block-append st (u ∷ us) vs = ground (arith, code_block-append (advance st) us vs)

length-code_block : (st : State) (bs : List ℕ) → length (code_block st bs).1 ≡ length bs
unfolding code_block
length-code_block st [] = refl
length-code_block st (b ∷ bs) = ap suc (length-code_block (advance st) bs)

pub length-decode : (st : State) (bs : List ℕ) → length (decode st bs false).1 ≡ length bs
unfolding decode do_cipher
length-decode st bs = length-code_block st bs

pub length-encode : (st : State) (bs : List ℕ) → length (encode st bs false).1 ≡ length bs
unfolding encode do_cipher
length-encode st bs = length-code_block st bs

pub decode-encode :
    (st : State) (bs : List ℕ)
    → decode st (encode st bs false).1 false ≡ ((encode st bs false).0, bs)
unfolding encode decode do_cipher
decode-encode st bs = code_block_twice st bs

pub encode-append :
    (st : State) (us vs : List ℕ)
    → encode st (us ++ vs) false ≡ (
      (encode (encode st us false).0 vs false).0,
      (encode st us false).1 ++ (encode (encode st us false).0 vs false).1,
    )
unfolding encode do_cipher
encode-append st us vs = code_block-append st us vs

-- Several calls that are no peeks, one after the other.
unfoldable pub encode_all : State → List (List ℕ) → List (List ℕ)
unfolding encode do_cipher try_cipher
encode_all st [] = []
encode_all st (m ∷ ms) = let (st', out) = encode st m false in out ∷ encode_all st' ms

pub decode_all : State → List (List ℕ) → List (List ℕ)
unfolding decode do_cipher try_cipher
decode_all st [] = []
decode_all st (m ∷ ms) = let (st', out) = decode st m false in out ∷ decode_all st' ms

flatten-encode_all :
    (st : State) (ms : List (List ℕ)) → flatten (encode_all st ms) ≡ (code_block st (flatten ms)).1
unfolding encode_all encode do_cipher flatten
flatten-encode_all st [] = unfold code_block in refl
flatten-encode_all st (m ∷ ms) =
    rw (code_block-append st m (flatten ms))
      (ap (◌++◌ (code_block st m).1) (flatten-encode_all (code_block st m).0 ms))

flatten-decode_all :
    (st : State) (ms : List (List ℕ)) → flatten (decode_all st ms) ≡ (code_block st (flatten ms)).1
unfolding decode_all decode do_cipher flatten
flatten-decode_all st [] = unfold code_block in refl
flatten-decode_all st (m ∷ ms) =
    rw (code_block-append st m (flatten ms))
      (ap (◌++◌ (code_block st m).1) (flatten-decode_all (code_block st m).0 ms))

-- Two ciphers that start in the same state: whatever blocks the encoded stream arrives in, the
-- decoded blocks joined are the messages joined.
pub decode_all-encode_all :
    (st : State) (messages blocks : List (List ℕ))
    → flatten blocks ≡ flatten (encode_all st messages)
    → flatten (decode_all st blocks) ≡ flatten messages
decode_all-encode_all st messages blocks e =
    rw (flatten-decode_all st blocks, e, flatten-encode_all st messages)
      (ap (λ r. r.1) (code_block_twice st (flatten messages)))

-- A peek leaves the cipher as it was and gives the bytes that the call without it gives, for both
-- directions; without it the state moves as `skipFor` does.
pub peek_lem :
    (st : State) (source : List ℕ)
    → (encode st source true ≡ (st, (encode st source false).1))
      × (decode st source true ≡ (st, (decode st source false).1))
      × ((encode st source false).0 ≡ skip_for st (length source))
      × ((decode st source false).0 ≡ skip_for st (length source))
unfolding encode decode try_cipher do_cipher
peek_lem st source = (refl, refl, code_block-skip_for st source, code_block-skip_for st source)
