-- ===== src/Socket/Queued.antt =====
-- What `XSocket::Update` (shared/Server/ASIO/XSocket.cpp) puts on the write queue.
use rzemulator.Base.{
  ◌>>=◌, ℕ, ◌+◌, ◌/◌, ◌%◌, ◌^◌, ◌≤◌, ◌<◌, ◌≡◌, refl, ap, sym, ◌∙◌, true, false, some, List, [], ◌∷◌,
  ◌++◌, ltb, leb, length, arith, length-append,
}
use mathlib.Core.List.{append-nil, append_assoc}
use rzemulator.Cipher.{State}
use rzemulator.Socket.Buffer.{MessageBuffer, vector_resize, get_remaining_space, copy_to, write}
use rzemulator.Socket.Space.{IsSound, written, remaining_lem, write_lem, copy_lem}
use rzemulator.Socket.Message.{header_size, size_of, id_of, get_checksum}
use rzemulator.Socket.Reader.{Session}
use rzemulator.Socket.Delivery.{cipher, wire, length-cipher}
use rzemulator.Socket.Writer.{
  XPacket, bytes16, bytes32, new_packet, append_bytes, finalize_packet, EncryptablePacket, Sending,
  write_packet_to_buffer, place_packet, send_one, send_all,
}

-- The header of a packet with this id and this many bytes.
abbrev pub header_of : ℕ → ℕ → List ℕ
header_of id size = bytes32 size ++ (bytes16 id ++ get_checksum id size ∷ [])

-- A packet as it is built: the constructor and what is appended.
abbrev pub built : ℕ → List ℕ → XPacket
built id body = record {
  packet_id = id;
  storage = 0 ∷ 0 ∷ 0 ∷ 0 ∷ id % 256 ∷ id / 2 ^ 8 % 256 ∷ 0 ∷ body;
}

pub build_lem :
    (id : ℕ) (body : List ℕ) → (do p ← new_packet id; append_bytes p body) ≡ some (built id body)
unfolding new_packet append_bytes copy_to vector_resize
build_lem id [] = refl
build_lem id (b ∷ body) = refl

finalize_lem :
    (id : ℕ) (body : List ℕ)
    → finalize_packet (built id body)
      ≡ some (record { packet_id = id; storage = header_of id (header_size + length body) ++ body })
unfolding finalize_packet
finalize_lem id body =
    let st = (built id body).storage in
    let s1 = bytes32 (length st) ++ (bytes16 id ++ 0 ∷ body) in
    let size : length st ≡ header_size + length body = omega arith in
    rw
      (
        copy_lem st 0 (bytes32 (length st)) (omega arith),
        ◌>>=◌,
        copy_lem s1 6 (get_checksum id (length st) ∷ []) (omega arith),
      )
      (ap (λ n. some (record { packet_id = id; storage = header_of id n ++ body })) size)

-- The header says what the packet is.
pub header_lem :
    (id size : ℕ)
    → id < 2 ^ 16
    → size < 2 ^ 32
    → (length (header_of id size) ≡ header_size)
      × (size_of (header_of id size) ≡ size)
      × (id_of (header_of id size) ≡ id)
unfolding size_of id_of
header_lem id size p q = (refl, omega arith, omega arith)

-- Several packets, as their ids and what follows the header.
abbrev pub Bodies : Type 0
Bodies = List (ℕ × List ℕ)

-- The bytes of them all.
unfoldable pub total : Bodies → ℕ
total [] = 0
total ((id, body) ∷ bodies) = header_size + length body + total bodies

-- Each as its header and its payload.
unfoldable pub framed : Bodies → List (List ℕ × List ℕ)
framed [] = []
framed ((id, body) ∷ bodies) = (header_of id (header_size + length body), body) ∷ framed bodies

module _ {H : Type 0} (session : Session H) where
  -- As `SendPacket` queues them.
  unfoldable pub queued : Bodies → List EncryptablePacket
  queued [] = []
  queued ((id, body) ∷ bodies) =
      record { packet = built id body; needs_encryption = session.is_encrypted } ∷ queued bodies

  pub write_any :
      (b : MessageBuffer) (bytes : List ℕ) → write_packet_to_buffer bytes b ≡ write b bytes
  unfolding write_packet_to_buffer write
  write_any b bytes = ground arith

  place_lem :
      (size : ℕ) (s : Sending) (bytes : List ℕ) (b : MessageBuffer)
      → IsSound s.buffer
      → s.buffer.wpos + length bytes + header_size ≤ length s.buffer.storage
      → write s.buffer bytes ≡ some b
      → place_packet size s bytes ≡ some (record s { buffer = b })
  unfolding place_packet
  place_lem size s bytes b v fits put =
      let room = remaining_lem s.buffer v in
      let enough : ltb (get_remaining_space s.buffer) (length bytes) ≡ false = ground arith in
      let together : leb (length bytes + header_size) (get_remaining_space s.buffer) ≡ true =
        ground arith in
      rw (enough, together, write_any s.buffer bytes, put) refl

  -- The bytes of one packet on the wire.
  abbrev one : State → ℕ → List ℕ → State × List ℕ
  one key id body = cipher session key (header_of id (header_size + length body) ++ body)

  length-one :
      (key : State) (id : ℕ) (body : List ℕ)
      → length (one key id body).1 ≡ header_size + length body
  length-one key id body =
      let head = header_of id (header_size + length body) in
      omega (arith, length-cipher session key (head ++ body), length-append head body)

  send_one_lem :
      (size : ℕ) (s : Sending) (id : ℕ) (body : List ℕ) (b : MessageBuffer)
      → IsSound s.buffer
      → s.buffer.wpos + (header_size + length body) + header_size ≤ length s.buffer.storage
      → write s.buffer (one s.encryption id body).1 ≡ some b
      → send_one size s (record { packet = built id body; needs_encryption = session.is_encrypted })
        ≡ some (record s { encryption = (one s.encryption id body).0; buffer = b })
  unfolding send_one
  send_one_lem size s id body b v fits put =
      let l = length-one s.encryption id body in
      rw (finalize_lem id body, ◌>>=◌)
        (place_lem size (record s { encryption = (one s.encryption id body).0 })
          (one s.encryption id body).1 b v (omega arith) put)

  -- The sender's cipher after several packets.
  pub wire_key : State → List (List ℕ × List ℕ) → State
  wire_key key [] = key
  wire_key key ((head, payload) ∷ packets) =
      wire_key (cipher session key (head ++ payload)).0 packets

  pub send_all_lem :
      (size : ℕ) (s : Sending) (bodies : Bodies)
      → IsSound s.buffer
      → s.buffer.wpos + total bodies + header_size ≤ length s.buffer.storage
      → (s' : Sending) × (send_all size s (queued bodies) ≡ some s')
        × (IsSound s'.buffer)
        × (s'.buffer.rpos ≡ s.buffer.rpos)
        × (written s'.buffer ≡ written s.buffer ++ wire session s.encryption (framed bodies))
        × (s'.write_queue ≡ s.write_queue)
        × (s'.encryption ≡ wire_key s.encryption (framed bodies))
  unfolding send_all queued total framed wire wire_key
  send_all_lem size s [] v fits =
      (s, refl, v, refl, sym (append-nil (written s.buffer)), refl, refl)
  send_all_lem size s ((id, body) ∷ bodies) v fits =
      let bytes = (one s.encryption id body).1 in
      let l = length-one s.encryption id body in
      let (b, put, sound, wpos, rpos, room, all) = write_lem s.buffer bytes v (omega arith) in
      let s1 = record s { encryption = (one s.encryption id body).0; buffer = b } in
      let (s', runs, sound', rpos', all', queue, key) =
        send_all_lem size s1 bodies sound (omega arith) in
      (
        s',
        rw (send_all, send_one_lem size s id body b v (omega arith) put) runs,
        sound',
        rpos' ∙ rpos,
        all'
            ∙ ap (λ us. us ++ wire session s1.encryption (framed bodies)) all
            ∙ append_assoc (written s.buffer) bytes (wire session s1.encryption (framed bodies)),
        queue,
        key,
      )
