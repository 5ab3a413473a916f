-- ===== src/Socket/Stream.antt =====
-- What a receiving socket is for: it takes single bytes, cuts them into headers and payloads, deciphers each and
-- hands the packets to the session. This is the specification of `XSocket::ReadHandler`; it has no buffers.
use rzemulator.Base.{
  ℕ, ◌+◌, ◌≡◌, refl, true, false, List, [], ◌∷◌, ◌++◌, ◌==◌, ltb, if◌then◌else◌, length, arith, ◌<◌,
  length-append,
}
use rzemulator.Cipher.{State, decode}
use rzemulator.Socket.Message.{header_size, size_of, id_of}
use rzemulator.Socket.Reader.{
  Flags, Session, ReadResult, ok, error, waiting_for_query, Outcome, refused, stopped, sub32,
}
use mathlib.Core.List.{append_assoc, append-nil}

pub data Reading : Type 0 where
  in_header : List ℕ → Reading
  in_payload : ℕ → List ℕ → List ℕ → Reading
  over : Outcome → Reading

pub record View (H : Type 0) : Type 0 where
  pub reading : Reading
  pub flags : Flags
  pub handler : H
  pub key : State

abbrev pub after : ReadResult → Reading
after ok = in_header []
after error = over stopped
after waiting_for_query = over stopped

module _ {H : Type 0} (session : Session H) where
  unfoldable pub decipher : State → List ℕ → State × List ℕ
  decipher st bytes = if session.is_encrypted then decode st bytes false else (st, bytes)

  -- A whole packet.
  unfoldable pub deliver : View H → List ℕ → List ℕ → View H
  deliver v head payload =
      let (key, plain) = decipher v.key payload in
      let (flags, handler, result) =
        session.process_incoming v.flags v.handler (id_of head) plain in
      record { reading = after result; flags = flags; handler = handler; key = key }

  -- The payload so far, of `n` bytes.
  unfoldable pub arrived : View H → ℕ → List ℕ → List ℕ → View H
  arrived v n head payload =
      if length payload == n
      then deliver v head payload
      else record v { reading = in_payload n head payload }

  unfoldable pub refuse_header : View H → View H
  refuse_header v = if v.flags.closed then record v { reading = over refused } else record v {
    reading = over refused;
    flags = record { closed = true; closing = v.flags.closing };
    handler = session.on_close v.handler;
  }

  -- The header so far.
  unfoldable pub got_header : View H → List ℕ → View H
  got_header v bytes =
      let (key, head) = decipher v.key bytes in
      if ltb 4098 (size_of head)
      then refuse_header (record v { key = key })
      else arrived (record v { key = key }) (sub32 (size_of head) header_size) head []

  unfoldable pub feed_at : Reading → View H → ℕ → View H
  feed_at (in_header bytes) v b =
      let more = bytes ++ b ∷ [] in
      if length more == header_size
      then got_header v more
      else record v { reading = in_header more }
  feed_at (in_payload n head payload) v b = arrived v n head (payload ++ b ∷ [])
  feed_at (over outcome) v b = v

  unfoldable pub feed : View H → List ℕ → View H
  feed v [] = v
  feed v (b ∷ bytes) = feed (feed_at v.reading v b) bytes

  pub feed-append : (v : View H) (us vs : List ℕ) → feed v (us ++ vs) ≡ feed (feed v us) vs
  unfolding feed
  feed-append v [] vs = refl
  feed-append v (u ∷ us) vs = feed-append (feed_at v.reading v u) us vs

  pub feed_over :
      (v : View H) (o : Outcome) (bytes : List ℕ) → v.reading ≡ over o → feed v bytes ≡ v
  unfolding feed feed_at
  feed_over v o [] e = refl
  feed_over v o (b ∷ bytes) e =
      let same : feed_at v.reading v b ≡ v = rw e refl in rw same (feed_over v o bytes e)

  -- What was being read when a part is complete does not matter.
  deliver_reading :
      (v : View H) (r : Reading) (head payload : List ℕ)
      → deliver (record v { reading = r }) head payload ≡ deliver v head payload
  unfolding deliver
  deliver_reading v r head payload = refl

  got_header_reading :
      (v : View H) (r : Reading) (bytes : List ℕ)
      → got_header (record v { reading = r }) bytes ≡ got_header v bytes
  unfolding got_header arrived refuse_header deliver
  got_header_reading v r bytes = refl

  -- Part of a header.
  pub feed_header :
      (v : View H) (bytes us : List ℕ)
      → length bytes + length us < header_size
      → feed (record v { reading = in_header bytes }) us
        ≡ record v { reading = in_header (bytes ++ us) }
  unfolding feed feed_at
  feed_header v bytes [] h = rw (append-nil bytes) refl
  feed_header v bytes (u ∷ us) h =
      let short : (length (bytes ++ u ∷ []) == header_size) ≡ false =
        ground (arith, length-append bytes (u ∷ [])) in
      rw (short, ← append_assoc bytes (u ∷ []) us)
        (feed_header v (bytes ++ u ∷ []) us (omega (arith, length-append bytes (u ∷ []))))

  -- The rest of a header.
  pub feed_header_end :
      (v : View H) (bytes us : List ℕ)
      → length bytes + length us ≡ header_size
      → length bytes < header_size
      → feed (record v { reading = in_header bytes }) us ≡ got_header v (bytes ++ us)
  unfolding feed feed_at
  feed_header_end v bytes [] h p = absurd (omega arith)
  feed_header_end v bytes (u ∷ []) h p =
      let full : (length (bytes ++ u ∷ []) == header_size) ≡ true =
        ground (arith, length-append bytes (u ∷ [])) in
      rw full (got_header_reading v (in_header bytes) (bytes ++ u ∷ []))
  feed_header_end v bytes (u ∷ w ∷ us) h p =
      let short : (length (bytes ++ u ∷ []) == header_size) ≡ false =
        ground (arith, length-append bytes (u ∷ [])) in
      let len = length-append bytes (u ∷ []) in
      rw (short, ← append_assoc bytes (u ∷ []) (w ∷ us))
        (feed_header_end v (bytes ++ u ∷ []) (w ∷ us) (omega arith) (omega arith))

  -- Part of a payload.
  pub feed_payload :
      (v : View H) (n : ℕ) (head bytes us : List ℕ)
      → length bytes + length us < n
      → feed (record v { reading = in_payload n head bytes }) us
        ≡ record v { reading = in_payload n head (bytes ++ us) }
  unfolding feed feed_at arrived
  feed_payload v n head bytes [] h = rw (append-nil bytes) refl
  feed_payload v n head bytes (u ∷ us) h =
      let short : (length (bytes ++ u ∷ []) == n) ≡ false =
        ground (arith, length-append bytes (u ∷ [])) in
      rw (short, ← append_assoc bytes (u ∷ []) us)
        (feed_payload v n head (bytes ++ u ∷ []) us (omega (arith, length-append bytes (u ∷ []))))

  -- The rest of a payload.
  pub feed_payload_end :
      (v : View H) (n : ℕ) (head bytes us : List ℕ)
      → length bytes + length us ≡ n
      → length bytes < n
      → feed (record v { reading = in_payload n head bytes }) us ≡ deliver v head (bytes ++ us)
  unfolding feed feed_at arrived
  feed_payload_end v n head bytes [] h p = absurd (omega arith)
  feed_payload_end v n head bytes (u ∷ []) h p =
      let full : (length (bytes ++ u ∷ []) == n) ≡ true =
        ground (arith, length-append bytes (u ∷ [])) in
      rw full (deliver_reading v (in_payload n head bytes) head (bytes ++ u ∷ []))
  feed_payload_end v n head bytes (u ∷ w ∷ us) h p =
      let short : (length (bytes ++ u ∷ []) == n) ≡ false =
        ground (arith, length-append bytes (u ∷ [])) in
      let len = length-append bytes (u ∷ []) in
      rw (short, ← append_assoc bytes (u ∷ []) (w ∷ us))
        (feed_payload_end v n head (bytes ++ u ∷ []) (w ∷ us) (omega arith) (omega arith))
