-- ===== src/Scrambled/Tests.antt =====
-- The id of a monster, written to a packet before the maps were built.
use rzemulator.Base.{◌≡◌, refl, arith, inl, inr}
use rzemulator.Scrambled.{zeroed, init, encode_scrambled}
use rzemulator.Scrambled.Words.{
  masked, serialize_scrambled, deserialize_scrambled, deserialize-serialize,
}

deserialize-serialize_example :
    (deserialize_scrambled (init zeroed) (serialize_scrambled zeroed 7001).0 ≡ (7001, init zeroed))
    × (deserialize_scrambled (init zeroed) (masked (encode_scrambled zeroed 7001).0 5 60000)
        ≡ (7001, init zeroed))
deserialize-serialize_example =
    deserialize-serialize zeroed (init zeroed) 7001 5 60000 (inl refl) (inr refl) (omega arith)
      (omega arith) (omega arith)
