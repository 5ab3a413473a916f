-- ===== src/Socket/Headers.antt =====
-- The first half of a round of `XSocket::ReadHandler` (shared/Server/ASIO/XSocket.cpp), where the header comes in and
-- `ReadHeaderHandler` checks it, against the specification of Stream.antt.
use rzemulator.Base.{
  ℕ, suc, ◌+◌, ◌<◌, ◌≡◌, refl, ap, ap₂, sym, subst, ◌∙◌, true, false, List, [], ◌==◌, ltb, length,
  arith, inl,
}
use mathlib.Core.List.{append-nil}
use rzemulator.Base.Slices.{take_all, length_zero}
use rzemulator.Socket.Buffer.{MessageBuffer, get_active_size, get_remaining_space}
use rzemulator.Socket.Space.{
  written, contents, active_lem, remaining_lem, length-contents, length-written,
}
use rzemulator.Socket.Message.{header_size, size_of}
use rzemulator.Socket.Reader.{
  Session, Socket, drained, refused, header_phase, read_loop, expect_drained, close_socket, sub32,
}
use rzemulator.Socket.Stream.{
  over, arrived, got_header, feed, feed-append, feed_over, feed_header, feed_header_end,
}
use rzemulator.Socket.Moves.{Transferred}
use rzemulator.Socket.Standing.{view_with, view, Buffers, Rest, space, Runs, active}
use rzemulator.Socket.Packets.{Handles}
use rzemulator.Socket.Payload.{payload_lem}
use rzemulator.Socket.Heads.{
  accepted, length-resize, read_header_big, read_header_good, written-accepted, accepted-Buffers,
  refused_lem, closed_lem, plain_head, deciphered,
}

module _ {H : Type 0} (session : Session H) where
  module _ (fuel : ℕ) (s : Socket H) (b : Buffers s) (h7 : s.header.wpos < 7)
      (z : s.packet.wpos ≡ 0) (some_left : 0 < active s) (src dst : MessageBuffer)
      (t : Transferred s.incoming s.header src dst) where
    abbrev pub moved_in : Socket H
    moved_in = record s { incoming = src; header = dst }

    moved_in-Buffers : Buffers moved_in
    moved_in-Buffers = record {
      header_sound = t.dst_sound;
      header_rpos = t.dst_rpos ∙ b.header_rpos;
      header_length = t.dst_length ∙ b.header_length;
      packet_sound = b.packet_sound;
      packet_rpos = b.packet_rpos;
      incoming_sound = t.src_sound;
    }

    in_part : (s.header.wpos == 7) ≡ false
    in_part = ground arith

    active_ne : (get_active_size s.incoming == 0) ≡ false
    active_ne = let e = active_lem s.incoming b.incoming_sound in ground arith

    missing : (get_remaining_space s.header == 0) ≡ false
    missing =
        let e = remaining_lem s.header b.header_sound in let l = b.header_length in ground arith

    pub header_more :
        dst.wpos < 7
        → Runs session (space s) (read_loop session (suc fuel) s) (view s) (contents s.incoming)
    unfolding read_loop header_phase expect_drained
    header_more lt =
        let l = t.dst_length ∙ b.header_length in
        let room : ltb 0 (get_remaining_space dst) ≡ true =
          let e = remaining_lem dst t.dst_sound in ground arith in
        let at_end : src.rpos ≡ src.wpos =
          let m = t.moved in
          let w = t.dst_wpos in
          let p = t.src_rpos in
          let q = t.src_wpos in
          let v = b.incoming_sound.ordered in let k = b.header_length in ground arith in
        let empty : (get_active_size src == 0) ≡ true =
          let e = active_lem src t.src_sound in ground arith in
        let nothing : contents src ≡ [] =
          length_zero (contents src) (length-contents src t.src_sound ∙ omega arith) in
        let before = length-written s.header b.header_sound in
        let few : length (written s.header) + length t.bytes < header_size =
          let w = t.dst_wpos in omega arith in
        let part : (dst.wpos == 7) ≡ false = ground arith in
        record {
          socket = moved_in;
          outcome = drained;
          returns = rw (read_loop, active_ne, header_phase, missing, t.runs, room, empty) refl;
          fed =
              rw (t.taken, nothing, append-nil t.bytes, in_part, part, t.dst_written)
                (feed_header session (view_with (over drained) s) (written s.header) t.bytes few);
          rest = (
            record { buffers = moved_in-Buffers; phase = inl (lt, z) },
            at_end,
            ap length t.src_storage,
          );
        }

    whole : dst.wpos ≡ 7 → written dst ≡ dst.storage
    whole e =
        take_all dst.wpos dst.storage
          (let l = t.dst_length in let k = b.header_length in omega arith)

    no_room : dst.wpos ≡ 7 → ltb 0 (get_remaining_space dst) ≡ false
    no_room e =
        let r = remaining_lem dst t.dst_sound in
        let l = t.dst_length in let k = b.header_length in ground arith

    -- The header is whole.
    fed_header :
        dst.wpos ≡ 7
        → feed session (view s) (contents s.incoming)
          ≡ feed session
              (got_header session (view_with (over drained) s) dst.storage)
              (contents src)
    fed_header e =
        let before = length-written s.header b.header_sound in
        let sum : length (written s.header) + length t.bytes ≡ header_size =
          let w = t.dst_wpos in omega arith in
        rw (t.taken, in_part)
          (feed-append session _ t.bytes (contents src)
            ∙ ap (λ v. feed session v (contents src))
                (feed_header_end session (view_with (over drained) s) (written s.header) t.bytes sum
                    (omega arith)
                  ∙ ap (got_header session (view_with (over drained) s))
                      (sym t.dst_written ∙ whole e)))

    pub header_refused :
        dst.wpos ≡ 7
        → ltb 4098 (size_of (plain_head session moved_in)) ≡ true
        → Runs session (space s) (read_loop session (suc fuel) s) (view s) (contents s.incoming)
    unfolding read_loop header_phase got_header
    header_refused e big = record {
      socket = close_socket session (deciphered session moved_in);
      outcome = refused;
      returns =
          rw
            (
              read_loop,
              active_ne,
              header_phase,
              missing,
              t.runs,
              no_room e,
              read_header_big session moved_in moved_in-Buffers big,
            )
            refl;
      fed =
          fed_header e
          ∙ rw (big, refused_lem session (deciphered session moved_in) (over drained))
              (feed_over session
                (view_with (over refused) (close_socket session (deciphered session moved_in)))
                refused (contents src) refl);
      rest = closed_lem session (deciphered session moved_in);
    }

    pub header_good :
        dst.wpos ≡ 7
        → ltb 4098 (size_of (plain_head session moved_in)) ≡ false
        → Handles session fuel (read_loop session fuel)
        → active s < suc fuel
        → Runs session (space s) (read_loop session (suc fuel) s) (view s) (contents s.incoming)
    unfolding read_loop header_phase got_header
    header_good e good ih h =
        let s1 = accepted session moved_in in
        let w = t.dst_wpos in
        let p = t.src_wpos in
        let q = t.src_rpos in
        let size =
          length-resize session s.packet
            (sub32 (size_of (plain_head session moved_in)) header_size) in
        let none_yet = written-accepted session moved_in z in
        let k =
          payload_lem session (read_loop session fuel) fuel s1 (over drained) ih
            (accepted-Buffers session moved_in moved_in-Buffers z) e (omega arith) in
        record {
          socket = k.socket;
          outcome = k.outcome;
          returns =
              rw
                (
                  read_loop,
                  active_ne,
                  header_phase,
                  missing,
                  t.runs,
                  no_room e,
                  read_header_good session moved_in moved_in-Buffers good,
                )
                k.returns;
          fed =
              fed_header e
              ∙ rw good (
                  ap₂
                    (λ (n : ℕ) (bytes : List ℕ).
                      feed session
                        (arrived session (view_with (over drained) s1) n
                          (plain_head session moved_in) bytes)
                        (contents src))
                    (sym size) (sym none_yet)
                  ∙ k.fed);
          rest = subst (λ m. Rest m k.outcome k.socket) (ap length t.src_storage) k.rest;
        }
