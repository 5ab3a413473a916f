-- ===== src/Socket/Loopback.antt =====
-- Both ends of a connection: what `XSocket::Update` queues on one side, and what the session on the other side gets
-- from `XSocket::ReadHandler` (shared/Server/ASIO/XSocket.cpp).
use rzemulator.Base.{
  ℕ, ◌+◌, ◌^◌, ◌≤◌, ◌<◌, ◌≡◌, refl, ap, ap₂, sym, ◌∙◌, true, some, List, [], ◌∷◌, ◌++◌, length,
  arith, inl, inr, ◌⊎◌,
}
use mathlib.Core.List.{flatten}
use rzemulator.Cipher.{State}
use rzemulator.Socket.Buffer.{MessageBuffer}
use rzemulator.Socket.Message.{header_size, id_of}
use rzemulator.Socket.Reader.{
  Session, Socket, Flags, ReadResult, ok, error, waiting_for_query, is_open, stopped,
}
use rzemulator.Socket.Stream.{View, in_header, over, after}
use rzemulator.Socket.Delivery.{
  wire, AllFormed, AllFit, KeepsFlags, hand_over, hand_over_all, first_lem, hand_over_all_over,
}
use rzemulator.Socket.Standing.{view, space, ReadResult-cases}
use rzemulator.Socket.Events.{IsEmpty, receive}
use rzemulator.Socket.Connection.{connection_lem, view_start}
use rzemulator.Socket.Writer.{update}
use rzemulator.Socket.Queued.{Bodies, total, framed, queued, header_of, header_lem}
use rzemulator.Socket.Sent.{queue_bytes, update_lem}

-- Ids of 16 bits, and packets that the receiver does not refuse.
abbrev pub AllShort : Bodies → Type 0
AllShort [] = Unit
AllShort ((id, body) ∷ bodies) =
    (id < 2 ^ 16) × (header_size + length body ≤ 4098) × AllShort bodies

nothing_queued : (bytes : List ℕ) → queue_bytes [] ++ bytes ≡ bytes
unfolding flatten
nothing_queued bytes = refl

module _ {H : Type 0} (session : Session H) where
  abbrev serve_next : ReadResult → H → H → H
  serve_next ok h next = next
  serve_next error h next = h
  serve_next waiting_for_query h next = h

  -- The state of a session that handles packets in order until one's result is not `Ok`.
  pub served : Flags → H → Bodies → H
  served f h [] = h
  served f h ((id, body) ∷ bodies) =
      let r = session.process_incoming f h id body in serve_next r.2 r.1 (served r.0 r.1 bodies)

  formed_lem : (bodies : Bodies) → AllShort bodies → AllFormed session (framed bodies)
  unfolding framed
  formed_lem [] a = tt
  formed_lem ((id, body) ∷ bodies) (small, short, a) =
      let (len, size, same) = header_lem id (header_size + length body) small (omega arith) in
      (len, size, (let e = size in omega arith), formed_lem bodies a)

  hand_over-reading :
      (v : View H) (id : ℕ) (head body : List ℕ)
      → id_of head ≡ id
      → (hand_over session v head body).reading
        ≡ after (session.process_incoming v.flags v.handler id body).2
  unfolding hand_over
  hand_over-reading v id head body e =
      ap (λ i. after (session.process_incoming v.flags v.handler i body).2) e

  hand_over-flags :
      (v : View H) (id : ℕ) (head body : List ℕ)
      → id_of head ≡ id
      → (hand_over session v head body).flags
        ≡ (session.process_incoming v.flags v.handler id body).0
  unfolding hand_over
  hand_over-flags v id head body e =
      ap (λ i. (session.process_incoming v.flags v.handler i body).0) e

  hand_over-handler :
      (v : View H) (id : ℕ) (head body : List ℕ)
      → id_of head ≡ id
      → (hand_over session v head body).handler
        ≡ (session.process_incoming v.flags v.handler id body).1
  unfolding hand_over
  hand_over-handler v id head body e =
      ap (λ i. (session.process_incoming v.flags v.handler i body).1) e

  stop_lem :
      (r : ReadResult) (h next : H)
      → (r ≡ error) ⊎ (r ≡ waiting_for_query)
      → (serve_next r h next ≡ h) × (after r ≡ over stopped)
  stop_lem r h next (inl e) = (ap (λ x. serve_next x h next) e, ap after e)
  stop_lem r h next (inr e) = (ap (λ x. serve_next x h next) e, ap after e)

  served_lem :
      (v : View H) (bodies : Bodies)
      → v.reading ≡ in_header []
      → AllShort bodies
      → (hand_over_all session v (framed bodies)).handler ≡ served v.flags v.handler bodies
  unfolding served framed
  served_lem v [] e a = unfold hand_over_all in refl
  served_lem v ((id, body) ∷ bodies) e (small, short, a) =
      let head = header_of id (header_size + length body) in
      let w = hand_over session v head body in
      let same = (header_lem id (header_size + length body) small (omega arith)).2 in
      let r = session.process_incoming v.flags v.handler id body in
      let reading = hand_over-reading v id head body same in
      let handler = hand_over-handler v id head body same in
      let flags = hand_over-flags v id head body same in
      let next = served r.0 r.1 bodies in
      ap (λ u. u.handler) (first_lem session v head body (framed bodies) e)
      ∙ elim (ReadResult-cases r.2) [
        | inl good ↦
            served_lem w bodies (reading ∙ ap after good) a
            ∙ ap₂ (λ f h. served f h bodies) flags handler
            ∙ sym (ap (λ x. serve_next x r.1 next) good)
        | inr bad ↦
            let (kept, end) = stop_lem r.2 r.1 next bad in
            ap (λ u. u.handler)
              (hand_over_all_over session w stopped (framed bodies) (reading ∙ end))
            ∙ handler
            ∙ sym kept
      ]

  -- The packets of one `Update` that fit together into its buffer reach the session of an open socket that
  -- awaits a header and whose cipher is where the sender's was, however the queued bytes are cut into reads
  -- that fit: the session ends in the state in which it is after it has handled their ids and payloads in
  -- order, up to one whose result is not `Ok`. The session leaves the flags of the socket alone, ids have 16
  -- bits, and no packet is larger than 4098 bytes.
  pub loopback_lem :
      (keeps : KeepsFlags session) (s : Socket H) (bodies : Bodies) (size : ℕ)
      (chunks : List (List ℕ)) (key' : State) (queue : List MessageBuffer)
      → IsEmpty s
      → is_open s.flags ≡ true
      → s.header.wpos ≡ 0
      → AllShort bodies
      → total bodies + header_size ≤ size
      → size < 2 ^ 64
      → update size s.decryption [] (queued session bodies) ≡ some (key', queue)
      → AllFit (space s) chunks
      → flatten chunks ≡ queue_bytes queue
      → (s' : Socket H) × (receive session s chunks ≡ some s')
        × (s'.handler ≡ served s.flags s.handler bodies)
  loopback_lem keeps s bodies size chunks key' queue e i z a room small sends fits same =
      let (q, runs, bytes) = update_lem session size s.decryption [] bodies room small in
      let one_queue : q ≡ queue = cc in
      let sent : flatten chunks ≡ wire session s.decryption (framed bodies) =
        same ∙ ap queue_bytes (sym one_queue) ∙ bytes ∙ nothing_queued _ in
      let (s', reads, handler, flags, key) =
        connection_lem session keeps s (framed bodies) chunks e i z (formed_lem bodies a) fits
          sent in
      (s', reads, handler ∙ served_lem (view s) bodies (view_start s z) a)
