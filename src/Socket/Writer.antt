-- ===== src/Socket/Writer.antt =====
-- How packets are sent: XPacket (shared/Server/XPacket.h), `XSocket::Update` (shared/Server/ASIO/XSocket.cpp) and the
-- write queue of shared/Server/ASIO/Socket.h, without IOCP. `none` is an exception of `put`, a failed
-- assertion or a write outside a buffer. What `write_some` answers is an argument.
use rzemulator.Base.{
  ◌>>=◌, ℕ, ◌+◌, ◌/◌, ◌%◌, ◌^◌, Bool, true, false, not, ◌&&◌, ◌||◌, Option, none, some, List, [],
  ◌∷◌, ◌++◌, ◌==◌, ltb, leb, if◌then◌else◌, length,
}
use rzemulator.Cipher.{State, encode}
use rzemulator.Socket.Buffer.{
  MessageBuffer, vector_resize, sized, resize, get_active_size, get_remaining_space, read_completed,
  copy_to, write, moved_from,
}
use rzemulator.Socket.Message.{header_size, get_checksum}
use rzemulator.Socket.Reader.{Session, Flags, is_open, close_state}

pub record XPacket : Type 0 where
  pub packet_id : ℕ
  pub storage : List ℕ

-- An unsigned value of two and of four bytes, the lowest byte first.
abbrev pub bytes16 : ℕ → List ℕ
bytes16 n = n % 256 ∷ n / 2 ^ 8 % 256 ∷ []

abbrev pub bytes32 : ℕ → List ℕ
bytes32 n = n % 256 ∷ n / 2 ^ 8 % 256 ∷ n / 2 ^ 16 % 256 ∷ n / 2 ^ 24 % 256 ∷ []

-- `XPacket(uint16_t)`: `resize(7)` and `put(4, packID)`.
unfoldable pub new_packet : ℕ → Option XPacket
unfolding copy_to vector_resize
new_packet id = do
  s ← copy_to (vector_resize [] 7) 4 (bytes16 id)
  some (record { packet_id = id; storage = s })

-- `ByteBuffer::append`, whose write position is the end of the storage.
unfoldable pub append_bytes : XPacket → List ℕ → Option XPacket
append_bytes p [] = some p
append_bytes p (b ∷ bytes) =
    if ltb (length p.storage) 10000000
    then some (record p { storage = p.storage ++ b ∷ bytes })
    else none

unfoldable pub finalize_packet : XPacket → Option XPacket
unfolding copy_to
finalize_packet p = do
  s ← copy_to p.storage 0 (bytes32 (length p.storage))
  s' ← copy_to s 6 (get_checksum p.packet_id (length p.storage) ∷ [])
  some (record p { storage = s' })

pub record EncryptablePacket : Type 0 where
  pub packet : XPacket
  pub needs_encryption : Bool

-- What one call of `Update` works on: the cipher, its local buffer and the write queue.
pub record Sending : Type 0 where
  pub encryption : State
  pub buffer : MessageBuffer
  pub write_queue : List MessageBuffer

unfoldable pub queue_packet : List MessageBuffer → MessageBuffer → List MessageBuffer
queue_packet queue b = queue ++ b ∷ []

unfoldable pub write_packet_to_buffer : List ℕ → MessageBuffer → Option MessageBuffer
write_packet_to_buffer storage b = if length storage == 0 then some b else write b storage

-- The two tests on the space that is left, for a packet that is ready.
unfoldable pub place_packet : ℕ → Sending → List ℕ → Option Sending
unfolding queue_packet
place_packet send_buffer_size s storage =
    let n = length storage in
    let s1 =
      if ltb (get_remaining_space s.buffer) n
      then record s {
        write_queue = queue_packet s.write_queue s.buffer;
        buffer = resize (moved_from s.buffer) send_buffer_size;
      }
      else s in
    let alone = (do
      b ← write_packet_to_buffer storage (sized (n + header_size))
      some (record s1 { write_queue = queue_packet s1.write_queue b })) in
    let together = (do
      b ← write_packet_to_buffer storage s1.buffer
      some (record s1 { buffer = b })) in
    if leb (n + header_size) (get_remaining_space s1.buffer) then together else alone

-- The body of the loop of `XSocket::Update`.
unfoldable pub send_one : ℕ → Sending → EncryptablePacket → Option Sending
send_one send_buffer_size s p = do
  done ← finalize_packet p.packet
  let (st, storage) =
      if p.needs_encryption
      then encode s.encryption done.storage false
      else (s.encryption, done.storage)
  place_packet send_buffer_size (record s { encryption = st }) storage

unfoldable pub send_all : ℕ → Sending → List EncryptablePacket → Option Sending
send_all send_buffer_size s [] = some s
send_all send_buffer_size s (p ∷ packets) = do
  s' ← send_one send_buffer_size s p
  send_all send_buffer_size s' packets

-- `XSocket::Update` before it calls `Socket::Update`: the cipher and the write queue after it.
unfoldable pub update :
    ℕ → State → List MessageBuffer → List EncryptablePacket → Option (State × List MessageBuffer)
unfolding queue_packet
update send_buffer_size encryption queue packets = do
  s ←
      send_all send_buffer_size
        (record { encryption = encryption; buffer = sized send_buffer_size; write_queue = queue })
        packets
  some (
    s.encryption,
    if ltb 0 (get_active_size s.buffer) then queue_packet s.write_queue s.buffer else s.write_queue,
  )

-- What `write_some` answers: the bytes it took, an error that passes, or one that does not.
pub data Answer : Type 0 where
  sent : ℕ → Answer
  would_block : Answer
  failed : Answer

pub record Outbox (H : Type 0) : Type 0 where
  pub write_queue : List MessageBuffer
  pub is_writing_async : Bool
  pub flags : Flags
  pub handler : H

unfoldable pub is_empty : List MessageBuffer → Bool
is_empty [] = true
is_empty (m ∷ queue) = false

module _ {H : Type 0} (session : Session H) where
  unfoldable send_packet : Flags → List EncryptablePacket → XPacket → List EncryptablePacket
  send_packet f queue p =
      if is_open f
      then queue ++ record { packet = p; needs_encryption = session.is_encrypted } ∷ []
      else queue

  unfoldable pub async_process_queue : Outbox H → Outbox H × Bool
  async_process_queue o =
      if o.is_writing_async then (o, false) else (record o { is_writing_async = true }, false)

  -- `_writeQueue.pop()`, and `CloseSocket` once the queue of a closing socket is empty.
  unfoldable pub pop_message : Outbox H → List MessageBuffer → Outbox H
  pop_message o rest =
      let (flags, handler) = close_state session o.flags o.handler in
      if o.flags.closing && is_empty rest
      then record o { write_queue = rest; flags = flags; handler = handler }
      else record o { write_queue = rest }

  unfoldable pub handle_front :
      Outbox H → MessageBuffer → List MessageBuffer → Answer → Outbox H × Bool
  handle_front o m rest would_block = async_process_queue o
  handle_front o m rest failed = (pop_message o rest, false)
  handle_front o m rest (sent n) =
      if n == 0
      then (pop_message o rest, false)
      else (if ltb n (get_active_size m)
          then async_process_queue (record o { write_queue = read_completed m n ∷ rest })
          else (pop_message o rest, not (is_empty rest)))

  -- `HandleQueue`.
  unfoldable pub handle_queue : Outbox H → Answer → Outbox H × Bool
  handle_queue o answer = elim o.write_queue [
    | [] ↦ (o, false)
    | m ∷ rest ↦ handle_front o m rest answer
  ]

  -- The loop of `Socket::Update`, over the answers in the order in which they come.
  unfoldable pub flush : Outbox H → List Answer → Outbox H
  flush o [] = o
  flush o (answer ∷ answers) =
      let (o', more) = handle_queue o answer in
      let rest = flush o' answers in if more then rest else o'

  -- `Socket::Update`.
  unfoldable base_update : Outbox H → List Answer → Outbox H × Bool
  base_update o answers =
      if o.flags.closed
      then (o, false)
      else (if o.is_writing_async || (is_empty o.write_queue && not o.flags.closing)
          then (o, true)
          else (flush o answers, true))

  unfoldable write_handler_wrapper : Outbox H → Answer → Outbox H
  write_handler_wrapper o answer = (handle_queue (record o { is_writing_async = false }) answer).0
