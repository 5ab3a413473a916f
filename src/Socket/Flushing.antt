-- ===== src/Socket/Flushing.antt =====
-- The write queue of shared/Server/ASIO/Socket.h while it is written out.
use rzemulator.Base.{
  ℕ, ◌≤◌, ◌≡◌, refl, ap, sym, ◌∙◌, true, List, [], ◌∷◌, ◌++◌, ◌==◌, ltb, if◌then◌else◌, length,
  take, arith, Bool-cases, inl, inr,
}
use mathlib.Core.List.{flatten, append-nil, append_assoc}
use rzemulator.Base.Slices.{take-append, take_all}
use rzemulator.Socket.Buffer.{MessageBuffer, get_active_size, read_completed}
use rzemulator.Socket.Space.{IsSound, contents, active_lem, read_bytes_lem, length-contents}
use rzemulator.Socket.Reader.{Session, close_state}
use rzemulator.Socket.Writer.{
  Answer, sent, would_block, failed, Outbox, async_process_queue, pop_message, handle_front,
  handle_queue, flush,
}
use rzemulator.Socket.Sent.{queue_bytes}

abbrev pub AllSound : List MessageBuffer → Type 0
AllSound [] = Unit {0}
AllSound (m ∷ queue) = IsSound m × AllSound queue

-- What `write_some` may answer without an error that does not pass: it takes at most what it is given, and nothing
-- only of nothing.
abbrev pub Serves : List MessageBuffer → Answer → Type 0
Serves queue would_block = Unit {0}
Serves queue failed = ⊥
Serves [] (sent n) = Unit {0}
Serves (m ∷ queue) (sent n) = (n ≤ length (contents m)) × (n ≡ 0 → contents m ≡ [])

-- The bytes that the network takes with an answer.
abbrev pub taken : List MessageBuffer → Answer → List ℕ
taken [] answer = []
taken (m ∷ queue) would_block = []
taken (m ∷ queue) failed = []
taken (m ∷ queue) (sent n) = take n (contents m)

module _ {H : Type 0} (session : Session H) where
  pop_queue :
      (o : Outbox H) (rest : List MessageBuffer) → (pop_message session o rest).write_queue ≡ rest
  unfolding pop_message close_state
  pop_queue o rest = ground arith

  wait_queue : (o : Outbox H) → (async_process_queue session o).0.write_queue ≡ o.write_queue
  unfolding async_process_queue
  wait_queue o = ground arith

  -- The bytes are conserved, and stay in order.
  abbrev Conserves : List MessageBuffer → Answer → List MessageBuffer → Type 0
  Conserves before answer after =
      (taken before answer ++ queue_bytes after ≡ queue_bytes before) × AllSound after

  front_lem :
      (o : Outbox H) (m : MessageBuffer) (rest : List MessageBuffer) (answer : Answer)
      → o.write_queue ≡ m ∷ rest
      → IsSound m
      → AllSound rest
      → Serves (m ∷ rest) answer
      → Conserves (m ∷ rest) answer (handle_front session o m rest answer).0.write_queue
  unfolding handle_front flatten
  front_lem o m rest would_block e v a ok = rw (wait_queue o, e) (refl, (v, a))
  front_lem o m rest failed e v a ok = elim ok [ ]
  front_lem o m rest (sent n) e v a (small, nothing) =
      let active = active_lem m v ∙ sym (length-contents m v) in
      elim (Bool-cases (n == 0)) [
        | inl z ↦
            let none_left : contents m ≡ [] = nothing (ground arith) in
            let whole : length (contents m) ≤ n = omega (arith, ap (length {A = ℕ}) none_left) in
            rw (z, pop_queue o rest, take_all n (contents m) whole) (refl, a)
        | inr nz ↦ elim (Bool-cases (ltb n (get_active_size m))) [
          | inl part ↦
              let (bytes, got, len, split, sound) =
                read_bytes_lem m n v (let l = length-contents m v in omega arith) in
              let first : take n (contents m) ≡ bytes =
                ap (take n) split ∙ take-append n bytes (contents (read_completed m n)) (sym len) in
              let later = queue_bytes rest in
              rw
                (nz, part, wait_queue (record o { write_queue = read_completed m n ∷ rest }), first)
                (
                  sym (append_assoc bytes (contents (read_completed m n)) later)
                      ∙ ap (λ us. us ++ later) (sym split),
                  (sound, a),
                )
          | inr all ↦
              let whole : length (contents m) ≤ n = ground arith in
              rw (nz, all, pop_queue o rest, take_all n (contents m) whole) (refl, a)
        ]
      ]

  queue_lem :
      (o : Outbox H) (queue : List MessageBuffer) (answer : Answer)
      → o.write_queue ≡ queue
      → AllSound queue
      → Serves queue answer
      → Conserves queue answer (handle_queue session o answer).0.write_queue
  unfolding handle_queue
  queue_lem o [] answer e a ok = rw (handle_queue, e, e) (refl, tt)
  queue_lem o (m ∷ rest) answer e (v, a) ok =
      rw (handle_queue, e) (front_lem o m rest answer e v a ok)

  -- The answers that the loop asks for, each after what the answers before it have left.
  abbrev pub ServesAll : Outbox H → List Answer → Type 0
  ServesAll o [] = Unit {0}
  ServesAll o (answer ∷ answers) =
      Serves o.write_queue answer
      × (((handle_queue session o answer).1 ≡ true)
          → ServesAll (handle_queue session o answer).0 answers)

  -- What the network takes in the loop.
  pub all_taken : Outbox H → List Answer → List ℕ
  all_taken o [] = []
  all_taken o (answer ∷ answers) =
      let (o', more) = handle_queue session o answer in
      let rest = all_taken o' answers in taken o.write_queue answer ++ (if more then rest else [])

  -- While the network answers without an error that does not pass, and takes nothing only of nothing, the bytes
  -- that it has taken and those that are still queued are the bytes that were queued, in order.
  pub flush_lem :
      (o : Outbox H) (answers : List Answer)
      → AllSound o.write_queue
      → ServesAll o answers
      → (all_taken o answers ++ queue_bytes (flush session o answers).write_queue
          ≡ queue_bytes o.write_queue)
        × AllSound (flush session o answers).write_queue
  unfolding flush all_taken
  flush_lem o [] a s = (refl, a)
  flush_lem o (answer ∷ answers) a (ok, s) =
      let (same, a') = queue_lem o o.write_queue answer refl a ok in
      let o' = (handle_queue session o answer).0 in
      let next =
        λ (more : (handle_queue session o answer).1 ≡ true). flush_lem o' answers a' (s more) in
      elim (Bool-cases (handle_queue session o answer).1) [
        | inl more ↦
            let (rest, b) = next more in
            let first = taken o.write_queue answer in
            rw more (
              append_assoc first (all_taken o' answers)
                    (queue_bytes (flush session o' answers).write_queue)
                  ∙ ap (λ us. first ++ us) rest
                  ∙ same,
              b,
            )
        | inr done ↦ rw (done, append-nil (taken o.write_queue answer)) (same, a')
      ]
