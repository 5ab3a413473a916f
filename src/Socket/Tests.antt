-- ===== src/Socket/Tests.antt =====
-- Sockets, packets and reads on which the theorems are applied.
use rzemulator.Base.{
  ℕ, ◌≤◌, ◌≡◌, refl, ap, ◌∙◌, Bool, true, false, some, List, [], ◌∷◌, ◌++◌, length, take, drop,
  replicate, arith, inl, take-append-drop, ◌==◌, if◌then◌else◌, length-take, length-drop,
}
use mathlib.Core.List.{flatten, append-nil}
use rzemulator.Base.Counts.{iota}
use rzemulator.Cipher.{State}
use rzemulator.Socket.Buffer.{
  MessageBuffer, get_remaining_space, get_active_size, sub64, sized, write,
}
use rzemulator.Socket.Message.{size_of, get_checksum}
use rzemulator.Socket.Reader.{
  Session, Socket, ReadResult, ok, error, Outcome, is_open, read_handler_internal,
}
use rzemulator.Socket.Stream.{feed}
use rzemulator.Socket.Standing.{view, out_view}
use rzemulator.Socket.Events.{IsEmpty, Reads, read_lem, receive}
use rzemulator.Socket.Delivery.{wire, cipher, AllFormed, hand_over_all, length-cipher}
use rzemulator.Socket.Connection.{receive_lem, connection_lem}
use rzemulator.Socket.Writer.{
  Sending, Outbox, sent, would_block, update, place_packet, flush, send_all, send_one,
  finalize_packet, write_packet_to_buffer,
}
use rzemulator.Socket.Queued.{Bodies, queued, framed, wire_key, total}
use rzemulator.Socket.Sent.{queue_bytes, update_lem, overtake_lem}
use rzemulator.Socket.Loopback.{loopback_lem, served}
use rzemulator.Socket.Flushing.{AllSound, flush_lem, all_taken}

abbrev stop_at : ℕ → ReadResult
stop_at id = if id == 9 then error else ok

-- A session that notes ids and payloads, and stops at id 9.
abbrev noting : Bool → Session (List ℕ)
noting enciphered = record {
  is_encrypted = enciphered;
  process_incoming = λ f h id bytes. (f, h ++ id ∷ bytes, stop_at id);
  on_close = λ h. 255 ∷ h;
}

abbrev start_key : State
start_key = record { x = 0; y = 0; s = iota 256 0 }

abbrev fresh : Socket (List ℕ)
fresh = record {
  flags = record { closed = false; closing = false };
  handler = [];
  decryption = start_key;
  header = record { wpos = 0; rpos = 0; storage = replicate 7 0 };
  packet = record { wpos = 0; rpos = 0; storage = replicate 8 0 };
  incoming = record { wpos = 0; rpos = 0; storage = replicate 64 0 };
}

fresh_empty : IsEmpty fresh
fresh_empty = record {
  ready = record {
    buffers = record {
      header_sound = record { ordered = omega arith; within = omega arith; indexed = omega arith };
      header_rpos = refl;
      header_length = refl;
      packet_sound = record { ordered = omega arith; within = omega arith; indexed = omega arith };
      packet_rpos = refl;
      incoming_sound = record {
        ordered = omega arith;
        within = omega arith;
        indexed = omega arith;
      };
    };
    phase = inl (omega arith, refl);
  };
  at_start = refl;
  no_more = refl;
  roomy = omega arith;
}

fresh_open : is_open fresh.flags ≡ true
unfolding is_open
fresh_open = refl

read_lem_example :
    Reads
      (noting true)
      64
      (read_handler_internal (noting true) fresh (some (1 ∷ 2 ∷ 3 ∷ [])))
      (view fresh)
      (1 ∷ 2 ∷ 3 ∷ [])
read_lem_example =
    read_lem (noting true) fresh (1 ∷ 2 ∷ 3 ∷ []) fresh_empty fresh_open (omega arith)

-- A header and its payload of two bytes, cut in the middle of the header.
abbrev one_packet : List (List ℕ × List ℕ)
one_packet = (9 ∷ 0 ∷ 0 ∷ 0 ∷ 4 ∷ 1 ∷ 14 ∷ [], 70 ∷ 71 ∷ []) ∷ []

abbrev wired : List ℕ
wired = wire (noting true) start_key one_packet

abbrev halves : List (List ℕ)
halves = take 5 wired ∷ drop 5 wired ∷ []

length-wired : length wired ≡ 9
unfolding wire
length-wired =
    ap (length {A = ℕ})
      (append-nil (cipher (noting true) start_key (9 ∷ 0 ∷ 0 ∷ 0 ∷ 4 ∷ 1 ∷ 14 ∷ 70 ∷ 71 ∷ [])).1)
    ∙ length-cipher (noting true) start_key (9 ∷ 0 ∷ 0 ∷ 0 ∷ 4 ∷ 1 ∷ 14 ∷ 70 ∷ 71 ∷ [])

halves_fit : (length (take 5 wired) ≤ 64) × (length (drop 5 wired) ≤ 64)
halves_fit =
    let l = length-wired in
    let a = length-take 5 wired in let b = length-drop 5 wired in (omega arith, omega arith)

halves_joined : flatten halves ≡ wired
unfolding flatten
halves_joined = ap (λ us. take 5 wired ++ us) (append-nil (drop 5 wired)) ∙ take-append-drop 5 wired

receive_lem_example :
    (s' : Socket (List ℕ)) × (o : Outcome) × (receive (noting true) fresh halves ≡ some s')
    × (feed (noting true) (view fresh) (flatten halves) ≡ out_view o s')
receive_lem_example =
    receive_lem (noting true) (λ f h id bytes. refl) fresh halves fresh_empty fresh_open
      (halves_fit.0, (halves_fit.1, tt))

one_packet_formed : AllFormed (noting true) one_packet
unfolding size_of
one_packet_formed = (refl, refl, omega arith, tt)

connection_lem_example :
    (s' : Socket (List ℕ)) × (receive (noting true) fresh halves ≡ some s')
    × (s'.handler ≡ (hand_over_all (noting true) (view fresh) one_packet).handler)
    × (s'.flags ≡ (hand_over_all (noting true) (view fresh) one_packet).flags)
    × (s'.decryption ≡ (hand_over_all (noting true) (view fresh) one_packet).key)
connection_lem_example =
    connection_lem (noting true) (λ f h id bytes. refl) fresh one_packet halves fresh_empty
      fresh_open refl one_packet_formed (halves_fit.0, (halves_fit.1, tt)) halves_joined

-- Two packets.
abbrev two_bodies : Bodies
two_bodies = (260, 70 ∷ 71 ∷ []) ∷ (5, []) ∷ []

total-two_bodies : total two_bodies ≡ 16
unfolding total
total-two_bodies = refl

update_lem_example :
    (queue' : List MessageBuffer) × (update 64 start_key [] (queued (noting true) two_bodies)
      ≡ some (wire_key (noting true) start_key (framed two_bodies), queue'))
    × (queue_bytes queue' ≡ queue_bytes [] ++ wire (noting true) start_key (framed two_bodies))
update_lem_example =
    update_lem (noting true) 64 start_key [] two_bodies (let t = total-two_bodies in omega arith)
      (omega arith)

-- Three bytes wait in a buffer of ten; four more fit, but not with the seven of a header.
abbrev nearly_full : Sending
nearly_full = record {
  encryption = start_key;
  buffer = record { wpos = 3; rpos = 0; storage = 1 ∷ 2 ∷ 3 ∷ replicate 7 0 };
  write_queue = [];
}

overtake_lem_example :
    (s' : Sending) × (place_packet 10 nearly_full (4 ∷ 5 ∷ 6 ∷ 7 ∷ []) ≡ some s')
    × (queue_bytes s'.write_queue ≡ queue_bytes [] ++ (4 ∷ 5 ∷ 6 ∷ 7 ∷ []))
    × (s'.buffer ≡ nearly_full.buffer)
overtake_lem_example =
    overtake_lem (noting true) 10 nearly_full (4 ∷ 5 ∷ 6 ∷ 7 ∷ [])
      (record { ordered = omega arith; within = omega arith; indexed = omega arith }) (omega arith)
      (omega arith) (omega arith)

-- Two packets on a connection that is not enciphered, cut inside the first header.
abbrev sent_bytes : List ℕ
sent_bytes = 0 ∷ 4 ∷ 1 ∷ 14 ∷ 70 ∷ 71 ∷ 7 ∷ 0 ∷ 0 ∷ 0 ∷ 5 ∷ 0 ∷ 12 ∷ []

abbrev sent_queue : List MessageBuffer
sent_queue =
    record { wpos = 16; rpos = 0; storage = 9 ∷ 0 ∷ 0 ∷ (sent_bytes ++ replicate 14 0) } ∷ []

sends : update 30 start_key [] (queued (noting false) two_bodies) ≡ some (start_key, sent_queue)
unfolding update queued send_all send_one finalize_packet place_packet get_remaining_space sub64
    sized write_packet_to_buffer write get_active_size get_checksum
sends = refl

same_bytes : flatten ((9 ∷ 0 ∷ 0 ∷ []) ∷ sent_bytes ∷ []) ≡ queue_bytes sent_queue
unfolding flatten
same_bytes = refl

loopback_lem_example :
    (s' : Socket (List ℕ)) × (receive (noting false) fresh ((9 ∷ 0 ∷ 0 ∷ []) ∷ sent_bytes ∷ [])
      ≡ some s')
    × (s'.handler ≡ served (noting false) fresh.flags [] two_bodies)
loopback_lem_example =
    loopback_lem (noting false) (λ f h id bytes. refl) fresh two_bodies 30
      ((9 ∷ 0 ∷ 0 ∷ []) ∷ sent_bytes ∷ []) start_key sent_queue fresh_empty fresh_open refl
      (omega arith, omega arith, (omega arith, omega arith, tt))
      (let t = total-two_bodies in omega arith) (omega arith) sends (omega arith, (omega arith, tt))
      same_bytes

abbrev outgoing : Outbox (List ℕ)
outgoing = record {
  write_queue = sent_queue;
  is_writing_async = false;
  flags = record { closed = false; closing = false };
  handler = [];
}

-- The network takes six bytes, then asks to wait.
flush_lem_example :
    (all_taken (noting false) outgoing (sent 6 ∷ would_block ∷ [])
        ++ queue_bytes (flush (noting false) outgoing (sent 6 ∷ would_block ∷ [])).write_queue
      ≡ queue_bytes sent_queue)
    × AllSound (flush (noting false) outgoing (sent 6 ∷ would_block ∷ [])).write_queue
flush_lem_example =
    flush_lem (noting false) outgoing (sent 6 ∷ would_block ∷ [])
      (record { ordered = omega arith; within = omega arith; indexed = omega arith }, tt)
      ((omega arith, λ z. absurd (omega arith)), λ more. (tt, λ again. tt))
