-- ===== src/Socket/Connection.antt =====
-- All reads of a connection (shared/Server/ASIO/XSocket.cpp and Socket.h).
use rzemulator.Base.{
  ℕ, ◌≡◌, ◌⊎◌, refl, ap, sym, subst, ◌∙◌, true, some, List, [], ◌∷◌, ◌++◌, ◌==◌, ltb, length, arith,
  if◌then◌else◌, Bool-cases, inl, inr, take,
}
use mathlib.Core.List.{flatten}
use rzemulator.Socket.Message.{header_size, size_of, id_of}
use rzemulator.Socket.Reader.{
  Session, Socket, Outcome, drained, refused, stopped, is_open, sub32, read_handler_internal,
}
use rzemulator.Socket.Stream.{
  Reading, in_header, in_payload, over, View, deliver, arrived, got_header, refuse_header, feed,
  feed_at, feed-append, feed_over, decipher,
}
use rzemulator.Socket.Standing.{view_with, view, out_view, space}
use rzemulator.Socket.Events.{IsEmpty, next_read, read_lem, receive}
use rzemulator.Socket.Delivery.{AllFit, KeepsFlags, AllFormed, wire, hand_over_all, stream_lem}

module _ {H : Type 0} where
  out_handler : (o : Outcome) (s : Socket H) → (out_view o s).handler ≡ s.handler
  out_handler drained s = refl
  out_handler refused s = refl
  out_handler stopped s = refl

  out_flags : (o : Outcome) (s : Socket H) → (out_view o s).flags ≡ s.flags
  out_flags drained s = refl
  out_flags refused s = refl
  out_flags stopped s = refl

  out_key : (o : Outcome) (s : Socket H) → (out_view o s).key ≡ s.decryption
  out_key drained s = refl
  out_key refused s = refl
  out_key stopped s = refl

module _ {H : Type 0} where
  -- A socket that has read nothing of a header.
  pub view_start : (s : Socket H) → s.header.wpos ≡ 0 → (view s).reading ≡ in_header []
  view_start s z =
      ap
        (λ n.
          if n == 7
          then in_payload (length s.packet.storage) s.header.storage
              (take s.packet.wpos s.packet.storage)
          else in_header (take n s.header.storage))
        z

module _ {H : Type 0} (session : Session H) (keeps : KeepsFlags session) where
  -- The flags change only where a header is refused.
  abbrev Keeps : View H → View H → Type 0
  Keeps v w = (w.flags ≡ v.flags) ⊎ (w.reading ≡ over refused)

  flags-deliver :
      (v : View H) (head payload : List ℕ) → (deliver session v head payload).flags ≡ v.flags
  unfolding deliver
  flags-deliver v head payload =
      keeps v.flags v.handler (id_of head) (decipher session v.key payload).1

  flags-arrived :
      (v : View H) (n : ℕ) (head payload : List ℕ)
      → (arrived session v n head payload).flags ≡ v.flags
  unfolding arrived
  flags-arrived v n head payload = elim (Bool-cases (length payload == n)) [
    | inl e ↦ rw e (flags-deliver v head payload)
    | inr e ↦ rw e refl
  ]

  refuse_over : (v : View H) → (refuse_header session v).reading ≡ over refused
  unfolding refuse_header
  refuse_over v = ground arith

  got_header-Keeps : (v : View H) (bytes : List ℕ) → Keeps v (got_header session v bytes)
  unfolding got_header
  got_header-Keeps v bytes =
      let key = (decipher session v.key bytes).0 in
      let head = (decipher session v.key bytes).1 in
      elim (Bool-cases (ltb 4098 (size_of head))) [
        | inl e ↦ inr (rw e (refuse_over (record v { key = key })))
        | inr e ↦ inl (
            rw e
              (flags-arrived (record v { key = key }) (sub32 (size_of head) header_size) head []))
      ]

  feed_at-Keeps : (r : Reading) (v : View H) (b : ℕ) → Keeps v (feed_at session r v b)
  unfolding feed_at
  feed_at-Keeps (in_header bytes) v b =
      elim (Bool-cases (length (bytes ++ b ∷ []) == header_size)) [
        | inl e ↦ rw e (got_header-Keeps v (bytes ++ b ∷ []))
        | inr e ↦ inl (rw e refl)
      ]
  feed_at-Keeps (in_payload n head payload) v b = inl (flags-arrived v n head (payload ++ b ∷ []))
  feed_at-Keeps (over o) v b = inl refl

  feed-Keeps : (v : View H) (bytes : List ℕ) → Keeps v (feed session v bytes)
  unfolding feed
  feed-Keeps v [] = inl refl
  feed-Keeps v (b ∷ bytes) =
      let w = feed_at session v.reading v b in
      elim (feed_at-Keeps v.reading v b) [
        | inl same ↦ elim (feed-Keeps w bytes) [ inl e ↦ inl (e ∙ same) | inr e ↦ inr e ]
        | inr stop ↦ inr (ap (λ u. u.reading) (feed_over session w refused bytes stop) ∙ stop)
      ]

  -- A socket whose read has ended by emptying its buffer is as open as before.
  still_open :
      (v : View H) (bytes : List ℕ) (s' : Socket H)
      → feed session v bytes ≡ view s'
      → is_open v.flags ≡ true
      → is_open s'.flags ≡ true
  still_open v bytes s' e i = elim (feed-Keeps v bytes) [
    | inl same ↦ subst (λ f. is_open f ≡ true) (sym same ∙ ap (λ u. u.flags) e) i
    | inr stop ↦
        let wrong : (view s').reading ≡ over refused = ap (λ u. u.reading) (sym e) ∙ stop in
        ground arith
  ]

  abbrev Received : Socket H → List (List ℕ) → View H → Type 0
  Received s chunks w =
      (s' : Socket H) × (o : Outcome) × (receive session s chunks ≡ some s') × (w ≡ out_view o s')

  proceed :
      (s s' : Socket H) (o : Outcome) (bytes : List ℕ) (chunks : List (List ℕ))
      → read_handler_internal session s (some bytes) ≡ some (s', next_read o s')
      → feed session (view s) bytes ≡ out_view o s'
      → is_open s.flags ≡ true
      → (o ≡ drained
          → is_open s'.flags ≡ true
          → Received s' chunks (feed session (view s') (flatten chunks)))
      → Received s (bytes ∷ chunks) (feed session (view s) (flatten (bytes ∷ chunks)))
  unfolding receive flatten
  proceed s s' drained bytes chunks runs fed i next =
      let i' = still_open (view s) bytes s' fed i in
      let (end, o, all, w) = next refl i' in
      (
        end,
        o,
        rw (receive, runs, i') all,
        feed-append session (view s) bytes (flatten chunks)
            ∙ ap (λ v. feed session v (flatten chunks)) fed
            ∙ w,
      )
  proceed s s' refused bytes chunks runs fed i next = (
    s',
    refused,
    rw (receive, runs) refl,
    feed-append session (view s) bytes (flatten chunks)
        ∙ ap (λ v. feed session v (flatten chunks)) fed
        ∙ feed_over session (view_with (over refused) s') refused (flatten chunks) refl,
  )
  proceed s s' stopped bytes chunks runs fed i next = (
    s',
    stopped,
    rw (receive, runs) refl,
    feed-append session (view s) bytes (flatten chunks)
        ∙ ap (λ v. feed session v (flatten chunks)) fed
        ∙ feed_over session (view_with (over stopped) s') stopped (flatten chunks) refl,
  )

  -- On an open socket with a read posted, and a session that leaves the flags of the socket alone, the reads
  -- do not fault, end in a socket, and do what the specification does with the bytes joined: how the bytes
  -- are cut into reads that fit makes no difference.
  pub receive_lem :
      (s : Socket H) (chunks : List (List ℕ))
      → IsEmpty s
      → is_open s.flags ≡ true
      → AllFit (space s) chunks
      → (s' : Socket H) × (o : Outcome) × (receive session s chunks ≡ some s')
        × (feed session (view s) (flatten chunks) ≡ out_view o s')
  unfolding receive
  receive_lem s [] e i f = (s, drained, refl, unfold feed flatten in refl)
  receive_lem s (bytes ∷ chunks) e i (fits, f) =
      let k = read_lem session s bytes e i fits in
      proceed s k.socket k.outcome bytes chunks k.returns k.fed i (λ d i'.
        receive_lem k.socket chunks (k.empty d i') i'
          (subst (λ room. AllFit room chunks) (sym (k.same_room d)) f))

  -- An open socket that awaits a header gets what the sender enciphers with the same cipher state. However
  -- the bytes of the packets are cut into reads that fit, the reads end in a socket whose session has been
  -- handed the packets themselves, in order, up to one whose result is not `Ok`; flags and cipher state are
  -- those after these packets. The session leaves the flags of the socket alone, and no packet is larger than
  -- 4098 bytes.
  pub connection_lem :
      (s : Socket H) (packets : List (List ℕ × List ℕ)) (chunks : List (List ℕ))
      → IsEmpty s
      → is_open s.flags ≡ true
      → s.header.wpos ≡ 0
      → AllFormed session packets
      → AllFit (space s) chunks
      → flatten chunks ≡ wire session s.decryption packets
      → (s' : Socket H) × (receive session s chunks ≡ some s')
        × (s'.handler ≡ (hand_over_all session (view s) packets).handler)
        × (s'.flags ≡ (hand_over_all session (view s) packets).flags)
        × (s'.decryption ≡ (hand_over_all session (view s) packets).key)
  connection_lem s packets chunks e i z f fits same =
      let (s', o, runs, fed) = receive_lem s chunks e i fits in
      let start = view_start s z in
      let all : hand_over_all session (view s) packets ≡ out_view o s' =
        sym (stream_lem session (view s) packets start f)
        ∙ ap (feed session (view s)) (sym same)
        ∙ fed in
      (
        s',
        runs,
        sym (ap (λ v. v.handler) all ∙ out_handler o s'),
        sym (ap (λ v. v.flags) all ∙ out_flags o s'),
        sym (ap (λ v. v.key) all ∙ out_key o s'),
      )
