-- ===== src/ByteBuffer/Tests.antt =====
-- Three fields in an empty buffer.
use rzemulator.Base.{◌≡◌, refl, List, [], ◌∷◌, ◌++◌, length, arith}
use rzemulator.ByteBuffer.{ByteBuffer, done, no_bytes, le_bytes}
use rzemulator.ByteBuffer.Fields.{
  Field, number, text, field_bytes, fields_bytes, write_fields, read_fields,
}
use rzemulator.ByteBuffer.Reading.{write-read}

abbrev three_fields : List Field
three_fields = number 4 70000 ∷ text (65 ∷ 66 ∷ []) ∷ number 2 513 ∷ []

few : length (fields_bytes three_fields) ≡ 9
unfolding fields_bytes field_bytes le_bytes
few = refl

write-read_example :
    (b' : ByteBuffer) × (b'' : ByteBuffer) × (write_fields no_bytes three_fields ≡ done b')
    × (read_fields b' three_fields ≡ done (three_fields, b''))
    × (b''.rpos ≡ length b''.storage)
    × (b''.storage ≡ [] ++ fields_bytes three_fields)
write-read_example =
    write-read no_bytes three_fields (record { at_end = refl; no_bits = refl }) refl
      (refl, ((λ e. absurd (omega arith), (λ e. absurd (omega arith), tt)), (refl, tt)))
      (let f = few in omega arith)
