-- ===== src/Scrambled.antt =====
-- shared/Server/Packets/EncodingScrambled.cpp. A shift of a 32 bit number to the right is a division by 2; the maps have
-- 32 places, and the loops stay inside them.
pub mod Bits
pub mod Inverse
pub mod Words
pub mod Tests
use rzemulator.Base.{
  ℕ, zero, suc, ◌+◌, ◌/◌, ◌%◌, ◌^◌, Bool, true, false, List, [], ◌∷◌, get_or, set, replicate, ◌==◌,
  if◌then◌else◌, bit_or,
}
use rzemulator.Base.Counts.{exchange}

-- The static members.
pub record Maps : Type 0 where
  pub map_initialized : Bool
  pub encode_map : List ℕ
  pub decode_map : List ℕ

-- The static members before the first call.
abbrev pub zeroed : Maps
zeroed = record {
  map_initialized = false;
  encode_map = replicate 32 0;
  decode_map = replicate 32 0;
}

-- `encodeMap[i] = i`, with `left` rounds to go.
unfoldable pub identity_loop : ℕ → ℕ → List ℕ → List ℕ
identity_loop zero i m = m
identity_loop (suc left) i m = identity_loop left (i + 1) (set m i i)

-- The loop that exchanges two places.
unfoldable pub exchange_loop : ℕ → ℕ → ℕ → List ℕ → List ℕ
exchange_loop zero i j m = m
exchange_loop (suc left) i j m = exchange_loop left (i + 1) ((j + i + 3) % 32) (exchange m i j)

-- `decodeMap[encodeMap[i]] = i`.
unfoldable pub invert_loop : ℕ → ℕ → List ℕ → List ℕ → List ℕ
invert_loop zero i m d = d
invert_loop (suc left) i m d = invert_loop left (i + 1) m (set d (get_or m i 0) i)

unfoldable pub init : Maps → Maps
unfolding identity_loop exchange_loop invert_loop
init s =
    let m = exchange_loop 32 0 3 (identity_loop 32 0 s.encode_map) in
    let d = invert_loop 32 0 m s.decode_map in
    if s.map_initialized
    then s
    else (record { map_initialized = true; encode_map = m; decode_map = d })

-- The loop of `encode` and of `decode`, over the places of the map to come.
pub place_bits : List ℕ → ℕ → ℕ → ℕ
place_bits [] v result = result
place_bits (place ∷ places) v result =
    place_bits places (v / 2) (if v % 2 == 1 then bit_or result (2 ^ place) else result)

pub encode_scrambled : Maps → ℕ → ℕ × Maps
encode_scrambled s v = let s' = init s in (place_bits s'.encode_map v 0, s')

pub decode_scrambled : Maps → ℕ → ℕ × Maps
decode_scrambled s v = let s' = init s in (place_bits s'.decode_map v 0, s')
