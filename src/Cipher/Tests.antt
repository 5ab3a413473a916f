-- ===== src/Cipher/Tests.antt =====
-- The cipher at concrete keys and messages.
use rzemulator.Base.{ℕ, ◌≡◌, refl, true, false, some, none, List, [], ◌∷◌, arith}
use rzemulator.Base.Counts.{iota, length-iota}
use rzemulator.Cipher.{
  State, code_block, prepare_key, default_key, is_empty_key, skip_for, encode, decode,
}
use rzemulator.Cipher.{advance, mask, do_cipher}
use rzemulator.Cipher.Stream.{encode_all, decode_all, decode_all-encode_all, peek_lem}
use rzemulator.Cipher.Schedule.{IsReady, prepare_key-IsReady, prepare_key_refused}
use mathlib.Core.List.{flatten}

abbrev start : State
start = record { x = 0; y = 0; s = iota 256 0 }

abbrev messages : List (List ℕ)
messages = (72 ∷ 105 ∷ []) ∷ (33 ∷ []) ∷ []

abbrev blocks : List (List ℕ)
blocks = (74 ∷ []) ∷ (108 ∷ 38 ∷ []) ∷ []

encoded : flatten (encode_all start messages) ≡ 74 ∷ 108 ∷ 38 ∷ []
unfolding encode_all encode do_cipher code_block advance mask iota flatten
encoded = refl

decode_all-encode_all_example : flatten (decode_all start blocks) ≡ flatten messages
unfolding encode_all encode do_cipher code_block advance mask iota flatten
decode_all-encode_all_example = decode_all-encode_all start messages blocks refl

peek_lem_run :
    (encode start (1 ∷ 2 ∷ []) true ≡ (start, (encode start (1 ∷ 2 ∷ []) false).1))
    × (decode start (1 ∷ 2 ∷ []) true ≡ (start, (decode start (1 ∷ 2 ∷ []) false).1))
    × ((encode start (1 ∷ 2 ∷ []) false).0 ≡ skip_for start 2)
    × ((decode start (1 ∷ 2 ∷ []) false).0 ≡ skip_for start 2)
peek_lem_run = peek_lem start (1 ∷ 2 ∷ [])

prepare_key-IsReady_run :
    (st' : State) × (prepare_key start (some default_key) 0 ≡ some (st', true))
    × ((bytes : List ℕ) → IsReady (code_block st' bytes).0)
unfolding is_empty_key
prepare_key-IsReady_run =
    prepare_key-IsReady start default_key 0 (length-iota 256 0) refl (omega arith)

no_key :
    (prepare_key start (some []) 0 ≡ some (start, false))
    × (prepare_key start none 0 ≡ some (start, false))
unfolding is_empty_key
no_key = prepare_key_refused start [] 0 refl
