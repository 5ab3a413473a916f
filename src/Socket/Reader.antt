-- ===== src/Socket/Reader.antt =====
-- How XSocket (shared/Server/ASIO/XSocket.cpp) and its base (shared/Server/ASIO/Socket.h) take in bytes.
-- What a session does with a packet (`ProcessIncoming`) and when it is closed (`OnClose`) are arguments; they
-- see and may change the flags of the socket. `none` is an access outside a buffer, a failed assertion or a
-- loop that is out of fuel.
use rzemulator.Base.{
  ◌>>=◌, ℕ, zero, suc, ◌+◌, ◌-◌, ◌%◌, ◌^◌, Bool, true, false, not, ◌&&◌, Option, none, some, List,
  ◌==◌, ltb, if◌then◌else◌, length, min,
}
use rzemulator.Cipher.{State, decode}
use rzemulator.Socket.Buffer.{
  MessageBuffer, reset, resize, get_active_size, get_remaining_space, read_completed, read_bytes,
  copy_to, write, normalize, ensure_free_space, moved_from,
}
use rzemulator.Socket.Message.{header_size, size_of, id_of}

-- `ReadDataHandlerResult`.
pub data ReadResult : Type 0 where
  ok : ReadResult
  error : ReadResult
  waiting_for_query : ReadResult

pub record Flags : Type 0 where
  pub closed : Bool
  pub closing : Bool

unfoldable pub is_open : Flags → Bool
is_open f = not f.closed && not f.closing

-- What the sockets of one kind share: `IsEncrypted`, `ProcessIncoming` and `OnClose`.
pub record Session (H : Type 0) : Type 0 where
  pub is_encrypted : Bool
  pub process_incoming : Flags → H → ℕ → List ℕ → Flags × H × ReadResult
  pub on_close : H → H

pub record Socket (H : Type 0) : Type 0 where
  pub flags : Flags
  pub handler : H
  pub decryption : State
  pub header : MessageBuffer
  pub packet : MessageBuffer
  pub incoming : MessageBuffer

-- How `ReadHandler` leaves its loop.
pub data Outcome : Type 0 where
  drained : Outcome
  refused : Outcome
  stopped : Outcome

-- What one part of the loop's body decides.
pub data Phase : Type 0 where
  wait : Phase
  refuse : Phase
  go : Phase

-- `min` of the two spaces, then `Write` and `ReadCompleted`: the source and the target after them.
unfoldable pub transfer : MessageBuffer → MessageBuffer → Option (MessageBuffer × MessageBuffer)
transfer src dst =
    let n = min (get_active_size src) (get_remaining_space dst) in
    (do bytes ← read_bytes src n; dst' ← write dst bytes; some (read_completed src n, dst'))

-- `Decode` of the `n` bytes at the read pointer, in place.
unfoldable pub decode_front : State → MessageBuffer → ℕ → Option (State × MessageBuffer)
decode_front st b n = do
  bytes ← read_bytes b n
  let (st', plain) = decode st bytes false
  s ← copy_to b.storage b.rpos plain
  some (st', record b { storage = s })

unfoldable pub sub32 : ℕ → ℕ → ℕ
sub32 a b = (a + 2 ^ 32 - b) % 2 ^ 32

module _ {H : Type 0} (session : Session H) where
  unfoldable pub decode_if : State → MessageBuffer → ℕ → Option (State × MessageBuffer)
  decode_if st b n = if session.is_encrypted then decode_front st b n else some (st, b)

  -- `CloseSocket`, on the flags of the socket and the state of the session.
  unfoldable pub close_state : Flags → H → Flags × H
  close_state f h =
      if f.closed
      then (f, h)
      else (record { closed = true; closing = f.closing }, session.on_close h)

  unfoldable pub close_socket : Socket H → Socket H
  unfolding close_state
  close_socket s =
      let (flags, handler) = close_state s.flags s.handler in
      record s { flags = flags; handler = handler }

  unfoldable pub read_header_handler : Socket H → Option (Socket H × Bool)
  read_header_handler s = do
    (st, b) ← decode_if s.decryption s.header header_size
    let s' = record s { decryption = st; header = b }
    h ← read_bytes b header_size
    let s'' = record s' { packet = resize s.packet (sub32 (size_of h) header_size) }
    some (if ltb 4098 (size_of h) then (s', false) else (s'', true))

  unfoldable pub read_data_handler : Socket H → Option (Socket H × ReadResult)
  read_data_handler s = do
    h ← read_bytes s.header header_size
    (st, b) ← decode_if s.decryption s.packet (length s.packet.storage)
    let (flags, handler, result) = session.process_incoming s.flags s.handler (id_of h) b.storage
    some (
      record s { flags = flags; handler = handler; decryption = st; packet = moved_from b },
      result,
    )

  -- `ASSERT(packet.GetActiveSize() == 0)` before the loop is left.
  unfoldable pub expect_drained : Socket H → Option (Socket H × Phase)
  expect_drained s = if get_active_size s.incoming == 0 then some (s, wait) else none

  unfoldable pub header_phase : Socket H → Option (Socket H × Phase)
  header_phase s = if get_remaining_space s.header == 0 then some (s, go) else (do
    (src, dst) ← transfer s.incoming s.header
    let s' = record s { incoming = src; header = dst }
    if ltb 0 (get_remaining_space dst)
        then expect_drained s'
        else (do (s2, good) ← read_header_handler s'; some (s2, if good then go else refuse)))

  unfoldable pub data_phase : Socket H → Option (Socket H × Phase)
  data_phase s = if get_remaining_space s.packet == 0 then some (s, go) else (do
    (src, dst) ← transfer s.incoming s.packet
    let s' = record s { incoming = src; packet = dst }
    if ltb 0 (get_remaining_space dst) then expect_drained s' else some (s', go))

  -- The second half of the loop's body, with the rounds that follow it as `next`.
  unfoldable pub read_payload :
      (Socket H → Option (Socket H × Outcome)) → Socket H → Option (Socket H × Outcome)
  read_payload next s1 = elim (data_phase s1) [
    | none ↦ none
    | some (s2, wait) ↦ some (s2, drained)
    | some (s2, refuse) ↦ none
    | some (s2, go) ↦ elim (read_data_handler s2) [
      | none ↦ none
      | some (s3, ok) ↦ next (record s3 { header = reset s3.header })
      | some (s3, error) ↦ some (record s3 { header = reset s3.header }, stopped)
      | some (s3, waiting_for_query) ↦ some (record s3 { header = reset s3.header }, stopped)
    ]
  ]

  -- The loop of `ReadHandler`.
  unfoldable pub read_loop : ℕ → Socket H → Option (Socket H × Outcome)
  read_loop zero s = none
  read_loop (suc fuel) s = elim (get_active_size s.incoming == 0) [
    | true ↦ some (s, drained)
    | false ↦ elim (header_phase s) [
      | none ↦ none
      | some (s1, wait) ↦ some (s1, drained)
      | some (s1, refuse) ↦ some (close_socket s1, refused)
      | some (s1, go) ↦ read_payload (read_loop fuel) s1
    ]
  ]

  -- `AsyncRead`: the socket, and the space of the read that it posts.
  unfoldable pub async_read : Socket H → Option (Socket H × Option ℕ)
  async_read s = if not (is_open s.flags) then some (s, none) else (do
    b ← normalize s.incoming
    let b' = ensure_free_space b
    some (record s { incoming = b' }, some (get_remaining_space b')))

  -- `ReadHandler`; each round of its loop takes a byte from the buffer, which is the fuel.
  unfoldable pub read_handler : Socket H → Option (Socket H × Option ℕ)
  read_handler s = if not (is_open s.flags) then some (s, none) else (do
    (s', outcome) ← read_loop (suc (length s.incoming.storage)) s
    elim outcome [
      | drained ↦ async_read s'
      | refused ↦ some (s', none)
      | stopped ↦ some (s', none)
    ])

  -- `ReadHandlerInternal`: an error (`none`), or the bytes that the network has put at the write pointer.
  unfoldable pub read_handler_internal : Socket H → Option (List ℕ) → Option (Socket H × Option ℕ)
  read_handler_internal s none = some (close_socket s, none)
  read_handler_internal s (some bytes) = do
    b ← write s.incoming bytes
    read_handler (record s { incoming = b })
