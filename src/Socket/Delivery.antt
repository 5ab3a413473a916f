-- ===== src/Socket/Delivery.antt =====
-- From the bytes that one side enciphers to the packets that the other side's session gets, however the bytes are
-- cut into reads (shared/Server/ASIO/XSocket.cpp).
use rzemulator.Base.{
  ℕ, ◌+◌, ◌≤◌, ◌≡◌, ◌⊎◌, refl, ap, sym, ◌∙◌, false, List, [], ◌∷◌, ◌++◌, ◌==◌, ltb, length, arith,
  if◌then◌else◌, Bool-cases, inl, inr,
}
use rzemulator.Cipher.{State, encode}
use rzemulator.Cipher.Stream.{encode-append, decode-encode, length-encode}
use rzemulator.Socket.Message.{header_size, size_of, id_of}
use rzemulator.Socket.Reader.{
  Session, Flags, Outcome, stopped, ReadResult, ok, error, waiting_for_query, sub32,
}
use rzemulator.Socket.Stream.{
  Reading, in_header, in_payload, over, View, after, deliver, arrived, got_header, feed,
  feed-append, feed_over, feed_header_end, feed_payload_end, decipher,
}

abbrev pub AllFit : ℕ → List (List ℕ) → Type 0
AllFit room [] = Unit
AllFit room (bytes ∷ chunks) = (length bytes ≤ room) × AllFit room chunks

after_cases : (r : ReadResult) → (after r ≡ in_header []) ⊎ (after r ≡ over stopped)
after_cases ok = inl refl
after_cases error = inr refl
after_cases waiting_for_query = inr refl

module _ {H : Type 0} (session : Session H) where
  abbrev pub KeepsFlags : Type 0
  KeepsFlags =
      (f : Flags) (h : H) (id : ℕ) (bytes : List ℕ) → (session.process_incoming f h id bytes).0 ≡ f

  -- The sender's cipher, `XSocket::Update`: a packet that needs encryption is enciphered whole.
  abbrev pub cipher : State → List ℕ → State × List ℕ
  cipher key bytes = if session.is_encrypted then encode key bytes false else (key, bytes)

  -- The bytes of several packets, each a header and a payload.
  unfoldable pub wire : State → List (List ℕ × List ℕ) → List ℕ
  wire key [] = []
  wire key ((head, payload) ∷ packets) =
      let (key', bytes) = cipher key (head ++ payload) in bytes ++ wire key' packets

  abbrev pub AllFormed : List (List ℕ × List ℕ) → Type 0
  AllFormed [] = Unit
  AllFormed ((head, payload) ∷ packets) =
      (length head ≡ header_size)
      × (size_of head ≡ header_size + length payload)
      × (size_of head ≤ 4098)
      × AllFormed packets

  -- The session gets a packet in the clear.
  unfoldable pub hand_over : View H → List ℕ → List ℕ → View H
  hand_over v head payload =
      let (flags, handler, result) =
        session.process_incoming v.flags v.handler (id_of head) payload in
      record {
        reading = after result;
        flags = flags;
        handler = handler;
        key = (cipher v.key (head ++ payload)).0;
      }

  abbrev unless_over : Reading → View H → View H → View H
  unless_over (over o) v next = v
  unless_over (in_header bytes) v next = next
  unless_over (in_payload n head bytes) v next = next

  -- The session gets the packets in order, up to one whose result is not `Ok`.
  unfoldable pub hand_over_all : View H → List (List ℕ × List ℕ) → View H
  hand_over_all v [] = v
  hand_over_all v ((head, payload) ∷ packets) =
      unless_over v.reading v (hand_over_all (hand_over v head payload) packets)

  cipher-append :
      (key : State) (us vs : List ℕ)
      → cipher key (us ++ vs)
        ≡ ((cipher (cipher key us).0 vs).0, (cipher key us).1 ++ (cipher (cipher key us).0 vs).1)
  cipher-append key us vs = elim (Bool-cases session.is_encrypted) [
    | inl e ↦ rw e (encode-append key us vs)
    | inr e ↦ rw e refl
  ]

  decipher-cipher :
      (key : State) (us : List ℕ) → decipher session key (cipher key us).1 ≡ ((cipher key us).0, us)
  unfolding decipher
  decipher-cipher key us = elim (Bool-cases session.is_encrypted) [
    | inl e ↦ rw e (decode-encode key us)
    | inr e ↦ rw e refl
  ]

  pub length-cipher : (key : State) (us : List ℕ) → length (cipher key us).1 ≡ length us
  length-cipher key us = elim (Bool-cases session.is_encrypted) [
    | inl e ↦ rw e (length-encode key us)
    | inr e ↦ rw e refl
  ]

  feed-arrived :
      (v : View H) (n : ℕ) (head us : List ℕ)
      → length us ≡ n
      → feed session (arrived session v n head []) us ≡ deliver session v head us
  unfolding arrived feed
  feed-arrived v n head [] e = rw (← e) refl
  feed-arrived v n head (u ∷ us) e =
      let partly : (length {A = ℕ} [] == n) ≡ false = ground arith in
      rw partly (feed_payload_end session v n head [] (u ∷ us) (omega arith) (omega arith))

  -- One packet.
  packet_lem :
      (v : View H) (head payload : List ℕ)
      → v.reading ≡ in_header []
      → length head ≡ header_size
      → size_of head ≡ header_size + length payload
      → size_of head ≤ 4098
      → feed session v (cipher v.key (head ++ payload)).1 ≡ hand_over v head payload
  unfolding got_header hand_over deliver sub32
  packet_lem v head payload e len size limit =
      let key = (cipher v.key head).0 in
      let first = (cipher v.key head).1 in
      let second = (cipher key payload).1 in
      let small : ltb 4098 (size_of head) ≡ false = ground arith in
      let rest : sub32 (size_of head) header_size ≡ length payload = omega arith in
      let header : feed session v first ≡ got_header session v first =
        ap (λ r. feed session (record v { reading = r }) first) e
        ∙ feed_header_end session v [] first (let l = length-cipher v.key head in omega arith)
            (omega arith) in
      let payload_size : length second ≡ sub32 (size_of head) header_size =
        length-cipher key payload ∙ sym rest in
      rw (cipher-append v.key head payload) (
        feed-append session v first second
        ∙ ap (λ w. feed session w second) header
        ∙ rw (decipher-cipher v.key head, small)
            (feed-arrived (record v { key = key }) (sub32 (size_of head) header_size) head second
                payload_size
              ∙ rw (decipher-cipher key payload) refl))

  pub hand_over_all_over :
      (v : View H) (o : Outcome) (packets : List (List ℕ × List ℕ))
      → v.reading ≡ over o
      → hand_over_all v packets ≡ v
  unfolding hand_over_all
  hand_over_all_over v o [] e = refl
  hand_over_all_over v o ((head, payload) ∷ packets) e =
      ap (λ r. unless_over r v (hand_over_all (hand_over v head payload) packets)) e

  pub first_lem :
      (v : View H) (head payload : List ℕ) (packets : List (List ℕ × List ℕ))
      → v.reading ≡ in_header []
      → hand_over_all v ((head, payload) ∷ packets)
        ≡ hand_over_all (hand_over v head payload) packets
  unfolding hand_over_all
  first_lem v head payload packets e =
      ap (λ r. unless_over r v (hand_over_all (hand_over v head payload) packets)) e

  -- After a packet the next header is awaited, or nothing more.
  next_reading :
      (v : View H) (head payload : List ℕ)
      → ((hand_over v head payload).reading ≡ in_header [])
        ⊎ ((hand_over v head payload).reading ≡ over stopped)
  unfolding hand_over
  next_reading v head payload =
      after_cases (session.process_incoming v.flags v.handler (id_of head) payload).2

  key_lem :
      (v : View H) (head payload : List ℕ)
      → (hand_over v head payload).key ≡ (cipher v.key (head ++ payload)).0
  unfolding hand_over
  key_lem v head payload = refl

  pub stream_lem :
      (v : View H) (packets : List (List ℕ × List ℕ))
      → v.reading ≡ in_header []
      → AllFormed packets
      → feed session v (wire v.key packets) ≡ hand_over_all v packets
  unfolding feed wire
  stream_lem v [] e f = unfold hand_over_all in refl
  stream_lem v ((head, payload) ∷ packets) e (len, size, limit, f) =
      let w = hand_over v head payload in
      let rest = wire (cipher v.key (head ++ payload)).0 packets in
      let later = λ (next : w.reading ≡ in_header []). stream_lem w packets next f in
      feed-append session v (cipher v.key (head ++ payload)).1 rest
      ∙ ap (λ u. feed session u rest) (packet_lem v head payload e len size limit)
      ∙ elim (next_reading v head payload) [
        | inl next ↦
            ap (λ k. feed session w (wire k packets)) (sym (key_lem v head payload)) ∙ later next
        | inr stop ↦
            feed_over session w stopped rest stop ∙ sym (hand_over_all_over w stopped packets stop)
      ]
      ∙ sym (first_lem v head payload packets e)
