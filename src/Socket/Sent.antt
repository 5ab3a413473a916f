-- ===== src/Socket/Sent.antt =====
-- The write queue after `XSocket::Update` (shared/Server/ASIO/XSocket.cpp), and the other side of the connection.
use rzemulator.Base.{
  ◌>>=◌, ℕ, ◌+◌, ◌^◌, ◌≤◌, ◌<◌, ◌≡◌, refl, ap, sym, ◌∙◌, false, some, List, [], ◌∷◌, ◌++◌, map, ltb,
  leb, length, take, arith, Bool-cases, inl, inr, length-replicate,
}
use mathlib.Core.List.{flatten, append-nil, append_assoc}
use rzemulator.Base.Slices.{length_zero}
use rzemulator.Cipher.{State}
use rzemulator.Socket.Buffer.{MessageBuffer, sized, get_active_size, get_remaining_space}
use rzemulator.Socket.Space.{
  IsSound, written, contents, active_lem, remaining_lem, write_lem, contents_start, length-contents,
}
use rzemulator.Socket.Message.{header_size}
use rzemulator.Socket.Reader.{Session}
use rzemulator.Socket.Delivery.{wire}
use rzemulator.Socket.Writer.{Sending, queue_packet, place_packet, update}
use rzemulator.Socket.Queued.{Bodies, total, framed, queued, wire_key, send_all_lem, write_any}

-- The bytes of the buffers of a write queue, in the order in which they are sent.
abbrev pub queue_bytes : List MessageBuffer → List ℕ
queue_bytes queue = flatten (map contents queue)

queue_bytes_snoc :
    (queue : List MessageBuffer) (b : MessageBuffer)
    → queue_bytes (queue ++ b ∷ []) ≡ queue_bytes queue ++ contents b
unfolding flatten
queue_bytes_snoc [] b = append-nil (contents b)
queue_bytes_snoc (m ∷ queue) b =
    ap (λ us. contents m ++ us) (queue_bytes_snoc queue b)
    ∙ sym (append_assoc (contents m) (queue_bytes queue) (contents b))

sized-IsSound : (n : ℕ) → n < 2 ^ 64 → IsSound (sized n)
unfolding sized
sized-IsSound n h =
    let blank : ℕ = 0 in
    let l = length-replicate n blank in
    record { ordered = omega arith; within = omega arith; indexed = omega arith }

length-sized : (n : ℕ) → length (sized n).storage ≡ n
unfolding sized
length-sized n = let blank : ℕ = 0 in length-replicate n blank

-- Both places where a read or write position starts.
sized_start : (n : ℕ) → ((sized n).wpos ≡ 0) × ((sized n).rpos ≡ 0)
unfolding sized
sized_start n = (refl, refl)

module _ {H : Type 0} (session : Session H) where
  -- Packets that fit together into one buffer, with the room of a header left, are queued behind what is
  -- queued already as the bytes of all of them in order, each finalized and enciphered after the one before,
  -- and the cipher state is the one after them.
  pub update_lem :
      (size : ℕ) (key : State) (queue : List MessageBuffer) (bodies : Bodies)
      → total bodies + header_size ≤ size
      → size < 2 ^ 64
      → (queue' : List MessageBuffer) × (update size key queue (queued session bodies)
          ≡ some (wire_key session key (framed bodies), queue'))
        × (queue_bytes queue' ≡ queue_bytes queue ++ wire session key (framed bodies))
  unfolding update queue_packet
  update_lem size key queue bodies fits small =
      let start : Sending = record { encryption = key; buffer = sized size; write_queue = queue } in
      let l = length-sized size in
      let z = sized_start size in
      let (s', runs, sound, rpos, all, same, key') =
        send_all_lem session size start bodies (sized-IsSound size small) (omega arith) in
      let all_of : contents s'.buffer ≡ wire session key (framed bodies) =
        contents_start s'.buffer (rpos ∙ z.1)
        ∙ all
        ∙ ap (λ n. take n (sized size).storage ++ wire session key (framed bodies)) z.0 in
      let active = active_lem s'.buffer sound in
      elim (Bool-cases (ltb 0 (get_active_size s'.buffer))) [
        | inl more ↦ (
          queue ++ s'.buffer ∷ [],
          rw (runs, ◌>>=◌, more, key', same) refl,
          queue_bytes_snoc queue s'.buffer ∙ ap (λ us. queue_bytes queue ++ us) all_of,
        )
        | inr nothing ↦
            let none_left : contents s'.buffer ≡ [] =
              length_zero (contents s'.buffer) (length-contents s'.buffer sound ∙ ground arith) in
            (
              queue,
              rw (runs, ◌>>=◌, nothing, key', same) refl,
              sym (append-nil (queue_bytes queue))
                  ∙ ap (λ us. queue_bytes queue ++ us) (sym none_left ∙ all_of),
            )
      ]

  -- A packet that fits into what is left of the buffer, but not with seven more bytes, is put on the queue by
  -- itself while the packets before it stay in the buffer: its bytes go out before theirs.
  pub overtake_lem :
      (size : ℕ) (s : Sending) (bytes : List ℕ)
      → IsSound s.buffer
      → s.buffer.wpos + length bytes ≤ length s.buffer.storage
      → length s.buffer.storage < s.buffer.wpos + length bytes + header_size
      → length bytes + header_size < 2 ^ 64
      → (s' : Sending) × (place_packet size s bytes ≡ some s')
        × (queue_bytes s'.write_queue ≡ queue_bytes s.write_queue ++ bytes)
        × (s'.buffer ≡ s.buffer)
  unfolding place_packet queue_packet
  overtake_lem size s bytes v fits close small =
      let n = length bytes + header_size in
      let room = remaining_lem s.buffer v in
      let enough : ltb (get_remaining_space s.buffer) (length bytes) ≡ false = ground arith in
      let alone : leb (length bytes + header_size) (get_remaining_space s.buffer) ≡ false =
        ground arith in
      let l = length-sized n in
      let z = sized_start n in
      let (b, put, sound, wpos, rpos, len, all) =
        write_lem (sized n) bytes (sized-IsSound n small) (let w = z.0 in omega arith) in
      let start : written (sized n) ≡ [] = ap (λ k. take k (sized n).storage) z.0 in
      (
        record s { write_queue = s.write_queue ++ b ∷ [] },
        rw (enough, alone, write_any session (sized n) bytes, put) refl,
        queue_bytes_snoc s.write_queue b
            ∙ ap (λ us. queue_bytes s.write_queue ++ us)
                (contents_start b (rpos ∙ z.1) ∙ all ∙ ap (λ us. us ++ bytes) start),
        refl,
      )
