-- ===== src/Socket/Events.antt =====
-- A completed read, `Socket::ReadHandlerInternal` (shared/Server/ASIO/Socket.h) with `XSocket::ReadHandler`, and
-- the reads of a connection one after the other.
use rzemulator.Base.{
  ◌>>=◌, ℕ, suc, ◌≤◌, ◌<◌, ◌≡◌, refl, ap, ap₂, sym, ◌∙◌, true, false, not, Option, none, some, List,
  [], ◌∷◌, ◌++◌, ◌==◌, length, take, arith, if◌then◌else◌, Bool-cases, inl, inr,
}
use rzemulator.Socket.Buffer.{
  MessageBuffer, get_remaining_space, normalize, ensure_free_space, sub64,
}
use rzemulator.Socket.Space.{IsSound, written, remaining_lem, write_lem, sub64_lem, contents_start}
use rzemulator.Socket.Reader.{
  Session, Socket, Outcome, drained, refused, stopped, read_loop, is_open, async_read, read_handler,
  read_handler_internal,
}
use rzemulator.Socket.Stream.{View, feed}
use rzemulator.Socket.Standing.{view, out_view, Ready, Rest, space}
use rzemulator.Socket.Refines.{read_loop_lem}

module _ {H : Type 0} where
  -- Nothing that has been read is left over, and there is room to read into.
  pub record IsEmpty (s : Socket H) : Type 0 where
    pub ready : Ready s
    pub at_start : s.incoming.rpos ≡ 0
    pub no_more : s.incoming.wpos ≡ 0
    pub roomy : 0 < space s

  -- The read that is posted: none on a socket that is closed or will be, or after the loop was left early.
  abbrev pub next_read : Outcome → Socket H → Option ℕ
  next_read drained s = if not (is_open s.flags) then none else some (space s)
  next_read refused s = none
  next_read stopped s = none

  pub record Reads (session : Session H) (room : ℕ) (call : Option (Socket H × Option ℕ))
      (v : View H) (bytes : List ℕ) : Type 0 where
    pub socket : Socket H
    pub outcome : Outcome
    pub returns : call ≡ some (socket, next_read outcome socket)
    pub fed : feed session v bytes ≡ out_view outcome socket
    pub empty : outcome ≡ drained → is_open socket.flags ≡ true → IsEmpty socket
    pub same_room : outcome ≡ drained → space socket ≡ room
    pub closed : outcome ≡ refused → socket.flags.closed ≡ true

module _ {H : Type 0} (session : Session H) where
  abbrev emptied : Socket H → Socket H
  emptied s = record s { incoming = record { wpos = 0; rpos = 0; storage = s.incoming.storage } }

  emptied-IsEmpty : (s : Socket H) → Ready s → 0 < space s → IsEmpty (emptied s)
  emptied-IsEmpty s r p = record {
    ready = record {
      buffers = record {
        header_sound = r.buffers.header_sound;
        header_rpos = r.buffers.header_rpos;
        header_length = r.buffers.header_length;
        packet_sound = r.buffers.packet_sound;
        packet_rpos = r.buffers.packet_rpos;
        incoming_sound = record {
          ordered = omega arith;
          within = omega arith;
          indexed = r.buffers.incoming_sound.indexed;
        };
      };
      phase = r.phase;
    };
    at_start = refl;
    no_more = refl;
    roomy = p;
  }

  normalize_lem :
      (b : MessageBuffer)
      → IsSound b
      → b.rpos ≡ b.wpos
      → normalize b ≡ some (record { wpos = 0; rpos = 0; storage = b.storage })
  unfolding normalize
  normalize_lem b v e =
      let same : (b.rpos == b.wpos) ≡ true = ground arith in
      let diff : sub64 b.wpos b.rpos ≡ 0 =
        sub64_lem b.wpos b.rpos v.ordered (let w = v.within in let i = v.indexed in omega arith)
        ∙ omega arith in
      elim (Bool-cases (b.rpos == 0)) [
        | inl z ↦ rw z (
            ap₂ (λ (w : ℕ) (r : ℕ). some (record { wpos = w; rpos = r; storage = b.storage }))
              (ground arith) (ground arith))
        | inr nz ↦ rw (nz, same, diff) refl
      ]

  -- A read is posted for all of the emptied buffer.
  async_read_lem :
      (s : Socket H)
      → Ready s
      → s.incoming.rpos ≡ s.incoming.wpos
      → 0 < space s
      → is_open s.flags ≡ true
      → async_read session s ≡ some (emptied s, some (space s))
  unfolding async_read ensure_free_space
  async_read_lem s r e p open_yet =
      let b : MessageBuffer = record { wpos = 0; rpos = 0; storage = s.incoming.storage } in
      let room : get_remaining_space b ≡ space s =
        remaining_lem b (emptied-IsEmpty s r p).ready.buffers.incoming_sound ∙ omega arith in
      let some_room : (space s == 0) ≡ false = ground arith in
      rw
        (
          open_yet,
          normalize_lem s.incoming r.buffers.incoming_sound e,
          ◌>>=◌,
          room,
          some_room,
          room,
        )
        refl

  finish_read :
      (s s' : Socket H) (o : Outcome) (v : View H) (bytes : List ℕ)
      → is_open s.flags ≡ true
      → 0 < space s
      → read_loop session (suc (space s)) s ≡ some (s', o)
      → feed session v bytes ≡ out_view o s'
      → Rest (space s) o s'
      → Reads session (space s) (read_handler session s) v bytes
  unfolding read_handler async_read
  finish_read s s' drained v bytes open_yet p runs fed (ready, at_end, room) =
      elim (Bool-cases (is_open s'.flags)) [
        | inl still ↦ record {
          socket = emptied s';
          outcome = drained;
          returns =
              rw (open_yet, runs, ◌>>=◌, async_read_lem s' ready at_end (omega arith) still, still)
                refl;
          fed = fed;
          empty = λ d i. emptied-IsEmpty s' ready (omega arith);
          same_room = λ d. room;
          closed = λ d. cc;
        }
        | inr shut ↦ record {
          socket = s';
          outcome = drained;
          returns = rw (open_yet, runs, ◌>>=◌, async_read, shut) refl;
          fed = fed;
          empty = λ d i. cc;
          same_room = λ d. room;
          closed = λ d. cc;
        }
      ]
  finish_read s s' refused v bytes open_yet p runs fed rest = record {
    socket = s';
    outcome = refused;
    returns = rw (open_yet, runs) refl;
    fed = fed;
    empty = λ d i. cc;
    same_room = λ d. cc;
    closed = λ d. rest;
  }
  finish_read s s' stopped v bytes open_yet p runs fed rest = record {
    socket = s';
    outcome = stopped;
    returns = rw (open_yet, runs) refl;
    fed = fed;
    empty = λ d i. cc;
    same_room = λ d. cc;
    closed = λ d. cc;
  }

  put-Ready :
      (s : Socket H) (b : MessageBuffer) → Ready s → IsSound b → Ready (record s { incoming = b })
  put-Ready s b r v = record {
    buffers = record {
      header_sound = r.buffers.header_sound;
      header_rpos = r.buffers.header_rpos;
      header_length = r.buffers.header_length;
      packet_sound = r.buffers.packet_sound;
      packet_rpos = r.buffers.packet_rpos;
      incoming_sound = v;
    };
    phase = r.phase;
  }

  handle_lem :
      (s : Socket H)
      → Ready s
      → s.incoming.rpos ≡ 0
      → 0 < space s
      → is_open s.flags ≡ true
      → Reads session (space s) (read_handler session s) (view s) (written s.incoming)
  handle_lem s r z p open_yet =
      let k =
        read_loop_lem session (suc (space s)) s r
          (let w = r.buffers.incoming_sound.within in omega arith) in
      finish_read s k.socket k.outcome (view s) (written s.incoming) open_yet p k.returns
        (ap (feed session (view s)) (sym (contents_start s.incoming z)) ∙ k.fed) k.rest

  -- On an open socket whose buffers are sound and whose read buffer is empty, a completed read of bytes that
  -- fit returns, with no access outside a buffer and no failed assertion. The socket then stands for what the
  -- specification makes of the bytes. The next read is posted, for the whole buffer, exactly where the loop
  -- took all bytes and the socket is open, and the buffers are then sound and empty again.
  pub read_lem :
      (s : Socket H) (bytes : List ℕ)
      → IsEmpty s
      → is_open s.flags ≡ true
      → length bytes ≤ space s
      → Reads session (space s) (read_handler_internal session s (some bytes)) (view s) bytes
  unfolding read_handler_internal
  read_lem s bytes e open_yet fits =
      let n = e.no_more in
      let p = e.roomy in
      let (b, put, sound, wpos, rpos, size, all) =
        write_lem s.incoming bytes e.ready.buffers.incoming_sound (omega arith) in
      let s1 = record s { incoming = b } in
      let start : written s.incoming ≡ [] = ap (λ k. take k s.incoming.storage) n in
      let k =
        handle_lem s1 (put-Ready s b e.ready sound) (rpos ∙ e.at_start) (omega arith) open_yet in
      record {
        socket = k.socket;
        outcome = k.outcome;
        returns = rw put k.returns;
        fed = ap (feed session (view s)) (sym (all ∙ ap (λ us. us ++ bytes) start)) ∙ k.fed;
        empty = k.empty;
        same_room = λ d. k.same_room d ∙ size;
        closed = k.closed;
      }

  -- The reads of a connection: the network hands over the next bytes as long as a read is posted.
  unfoldable pub receive : Socket H → List (List ℕ) → Option (Socket H)
  receive s [] = some s
  receive s (bytes ∷ chunks) = elim (read_handler_internal session s (some bytes)) [
    | none ↦ none
    | some (s', none) ↦ some s'
    | some (s', some room) ↦ receive s' chunks
  ]
