-- ===== src/Cipher.antt =====
-- shared/Encryption/rc4_cipher.h (RC4Cipher) and shared/Encryption/XRc4Cipher.cpp (XRC4Cipher).
-- `& 0xff` on an `int` that is not negative is `% 256`. A C string is the list of its bytes before
-- the terminator; an array is a list, read and written at indices that the masks keep in range.
-- Source and target of one call are the same buffer or do not overlap.
pub mod Schedule
pub mod Stream
pub mod Tests
use rzemulator.Base.{
  ◌>>=◌, ℕ, zero, suc, ◌+◌, ◌%◌, Bool, true, false, Option, none, some, List, [], ◌∷◌, length,
  get_or, get_elem?, set, ◌==◌, leb, if◌then◌else◌, bit_xor,
}
use rzemulator.Base.Counts.{exchange}

-- `RC4Cipher::State`.
pub record State : Type 0 where
  pub x : ℕ
  pub y : ℕ
  pub s : List ℕ

-- `pKey[j]`: the terminator is a zero byte, and what lies behind it must not be read.
pub read_key : List ℕ → ℕ → Option ℕ
read_key key j = if j == length key then some 0 else get_elem? key j

-- `for (i = 0; i < 256; i++) m_state.s[i] = i`, at index `i` with `left` rounds to go.
pub fill_identity : ℕ → ℕ → List ℕ → List ℕ
fill_identity zero i s = s
fill_identity (suc left) i s = fill_identity left (i + 1) (set s i i)

-- The loop that repeats the key over 256 bytes: the bytes of its last `left` rounds.
pub expand_key : List ℕ → ℕ → ℕ → ℕ → Option (List ℕ)
expand_key key key_len zero j = some []
expand_key key key_len (suc left) j = do
  b ← read_key key j
  rest ← expand_key key key_len left (if leb key_len (j + 1) then 0 else j + 1)
  some (b ∷ rest)

-- The loop that exchanges `s[i]` and `s[j]`.
pub mix_key : List ℕ → ℕ → ℕ → ℕ → List ℕ → List ℕ
mix_key key zero i j s = s
mix_key key (suc left) i j s =
    let j' = (j + (get_or s j 0 + get_or key j 0)) % 256 in
    mix_key key left (i + 1) j' (exchange s i j')

-- One round of `skipFor` and of `codeBlock`.
pub advance : State → State
advance st =
    let x = (st.x + 1) % 256 in
    let sx = get_or st.s x 0 in
    let y = (st.y + sx) % 256 in
    record { x = x; y = y; s = set (set st.s x (get_or st.s y 0)) y sx }

pub skip_for : State → ℕ → State
skip_for st zero = st
skip_for st (suc len) = skip_for (advance st) len

-- The byte that masks the next one: `s[(sx + sy) & 0xff]` after the exchange.
pub mask : State → ℕ
unfolding advance
mask st =
    let x = (st.x + 1) % 256 in
    let sx = get_or st.s x 0 in
    let sy = get_or st.s ((st.y + sx) % 256) 0 in get_or (advance st).s ((sx + sy) % 256) 0

pub code_block : State → List ℕ → State × List ℕ
unfolding advance mask
code_block st [] = (st, [])
code_block st (b ∷ bs) =
    let (st', out) = code_block (advance st) bs in (st', bit_xor b (mask st) ∷ out)

pub is_empty_key : List ℕ → Bool
is_empty_key [] = true
is_empty_key (b ∷ bs) = b == 0

-- `prepareKey`: the flag is what it returns, and `none` is a read behind the key's terminator.
-- A null pointer is no key.
pub prepare_key : State → Option (List ℕ) → ℕ → Option (State × Bool)
prepare_key st none key_len = some (st, false)
prepare_key st (some text) key_len = if is_empty_key text then some (st, false) else (do
  key ← expand_key text (if key_len == 0 then length text else key_len) 256 0
  some (
    skip_for (record { x = 0; y = 0; s = mix_key key 256 0 0 (fill_identity 256 0 st.s) }) 1013,
    true,
  ))

-- `XRC4Cipher::tryCipher` puts the state back, `doCipher` keeps the new one.
pub try_cipher : State → List ℕ → State × List ℕ
try_cipher st source = let (used, target) = code_block st source in (st, target)

pub do_cipher : State → List ℕ → State × List ℕ
do_cipher st source = code_block st source

pub encode : State → List ℕ → Bool → State × List ℕ
encode st source is_peek = if is_peek then try_cipher st source else do_cipher st source

pub decode : State → List ℕ → Bool → State × List ℕ
decode st source is_peek = if is_peek then try_cipher st source else do_cipher st source

-- `XRC4Cipher::SetKey`, which hands no length over and drops the flag.
set_key : State → Option (List ℕ) → Option State
set_key st key = do r ← prepare_key st key 0; some r.0

-- "Neat & Simple"
abbrev pub default_key : List ℕ
default_key = 78 ∷ 101 ∷ 97 ∷ 116 ∷ 32 ∷ 38 ∷ 32 ∷ 83 ∷ 105 ∷ 109 ∷ 112 ∷ 108 ∷ 101 ∷ []

-- `XRC4Cipher::Clear`.
unfoldable clear : State → Option State
unfolding set_key
clear st = set_key st (some default_key)
