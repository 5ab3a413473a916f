-- ===== src/Socket/Payload.antt =====
-- The second half of a round of `XSocket::ReadHandler` (shared/Server/ASIO/XSocket.cpp), where the payload comes in
-- and `ReadDataHandler` takes the packet, against the specification of Stream.antt.
use rzemulator.Base.{
  ℕ, subst, ◌+◌, ◌-◌, ◌<◌, ◌≡◌, refl, ap, sym, ◌∙◌, true, false, Option, some, [], ◌==◌, ltb,
  length, arith, if◌then◌else◌, inl, inr,
}
use mathlib.Core.List.{append-nil}
use rzemulator.Base.Slices.{take_all, length_zero}
use rzemulator.Socket.Buffer.{MessageBuffer, get_active_size, get_remaining_space}
use rzemulator.Socket.Space.{
  written, contents, active_lem, remaining_lem, length-contents, length-written,
}
use rzemulator.Socket.Reader.{
  Session, Socket, Outcome, drained, go, data_phase, read_payload, expect_drained,
}
use rzemulator.Socket.Stream.{
  Reading, in_payload, View, deliver, arrived, feed, feed-append, feed_payload, feed_payload_end,
}
use rzemulator.Socket.Moves.{Transferred, transfer_lem}
use rzemulator.Socket.Standing.{view_with, view, Buffers, Rest, space, Runs, active, split}
use rzemulator.Socket.Packets.{FullPhase, packet_lem, Handles}

module _ {H : Type 0} (session : Session H) where
  -- What has come in of the payload, whether or not it is whole.
  abbrev pub payload_view : Reading → Socket H → View H
  payload_view r s =
      arrived session (view_with r s) (length s.packet.storage) s.header.storage (written s.packet)

  view_payload :
      (s : Socket H)
      → s.header.wpos ≡ 7
      → view s
        ≡ view_with (in_payload (length s.packet.storage) s.header.storage (written s.packet)) s
  view_payload s e = rw e refl

  -- Nothing of the payload is missing.
  whole_lem :
      (next : Socket H → Option (Socket H × Outcome)) (fuel : ℕ) (s : Socket H) (r : Reading)
      → Handles session fuel next
      → Buffers s
      → s.packet.wpos ≡ length s.packet.storage
      → active s < fuel
      → Runs session
          (space s)
          (read_payload session next s)
          (payload_view r s)
          (contents s.incoming)
  unfolding data_phase arrived
  whole_lem next fuel s r ih b e h =
      let none_left : get_remaining_space s.packet ≡ 0 =
        remaining_lem s.packet b.packet_sound ∙ omega arith in
      let go_on : FullPhase session next s s = rw none_left refl in
      let k = packet_lem session next s s go_on b r fuel ih h in
      let all : written s.packet ≡ s.packet.storage =
        take_all s.packet.wpos s.packet.storage (omega arith) in
      let hit : (length s.packet.storage == length s.packet.storage) ≡ true = ground arith in
      rw (all, hit) k

  -- Something of it is missing: what there is moves over.
  module _ (next : Socket H → Option (Socket H × Outcome)) (s : Socket H) (b : Buffers s)
      (e7 : s.header.wpos ≡ 7) (short : s.packet.wpos < length s.packet.storage)
      (src dst : MessageBuffer) (t : Transferred s.incoming s.packet src dst) where
    abbrev moved_on : Socket H
    moved_on = record s { incoming = src; packet = dst }

    moved_on-Buffers : Buffers moved_on
    moved_on-Buffers = record {
      header_sound = b.header_sound;
      header_rpos = b.header_rpos;
      header_length = b.header_length;
      packet_sound = t.dst_sound;
      packet_rpos = t.dst_rpos ∙ b.packet_rpos;
      incoming_sound = t.src_sound;
    }

    missing : get_remaining_space s.packet == 0 ≡ false
    missing = let e = remaining_lem s.packet b.packet_sound in ground arith

    phase_lem : data_phase session s ≡ (
        if ltb 0 (get_remaining_space dst)
        then expect_drained session moved_on
        else some (moved_on, go))
    unfolding data_phase
    phase_lem = rw (missing, t.runs) refl

    partly : (length (written s.packet) == length s.packet.storage) ≡ false
    partly = let e = length-written s.packet b.packet_sound in ground arith

    -- Still not whole.
    more_lem :
        dst.wpos < length dst.storage
        → (r : Reading)
        → Runs session
            (space s)
            (read_payload session next s)
            (payload_view r s)
            (contents s.incoming)
    unfolding read_payload expect_drained arrived
    more_lem lt r =
        let room : ltb 0 (get_remaining_space dst) ≡ true =
          let e = remaining_lem dst t.dst_sound in ground arith in
        let same = t.dst_length in
        let at_end : src.rpos ≡ src.wpos =
          let m = t.moved in
          let w = t.dst_wpos in
          let p = t.src_rpos in
          let q = t.src_wpos in let v = b.incoming_sound.ordered in ground arith in
        let empty : (get_active_size src == 0) ≡ true =
          let e = active_lem src t.src_sound in ground arith in
        let nothing : contents src ≡ [] =
          length_zero (contents src) (length-contents src t.src_sound ∙ omega arith) in
        let before = length-written s.packet b.packet_sound in
        let few : length (written s.packet) + length t.bytes < length s.packet.storage =
          let w = t.dst_wpos in omega arith in
        record {
          socket = moved_on;
          outcome = drained;
          returns = rw (read_payload, phase_lem, room, empty) refl;
          fed =
              rw (t.taken, nothing, append-nil t.bytes, partly, e7, t.dst_length, t.dst_written)
                (feed_payload session (view_with r s) (length s.packet.storage) s.header.storage
                  (written s.packet) t.bytes few);
          rest = (
            record { buffers = moved_on-Buffers; phase = inr (e7, lt) },
            at_end,
            ap length t.src_storage,
          );
        }

    -- Whole.
    end_lem :
        dst.wpos ≡ length dst.storage
        → (r : Reading) (fuel : ℕ) → Handles session fuel next
        → active moved_on < fuel
        → Runs session
            (space s)
            (read_payload session next s)
            (payload_view r s)
            (contents s.incoming)
    unfolding arrived
    end_lem e r fuel ih h =
        let room : ltb 0 (get_remaining_space dst) ≡ false =
          let e' = remaining_lem dst t.dst_sound in ground arith in
        let go_on : FullPhase session next s moved_on = rw (phase_lem, room) refl in
        let before = length-written s.packet b.packet_sound in
        let k = packet_lem session next s moved_on go_on moved_on-Buffers r fuel ih h in
        let all : written dst ≡ dst.storage = take_all dst.wpos dst.storage (omega arith) in
        let sum : length (written s.packet) + length t.bytes ≡ length s.packet.storage =
          let w = t.dst_wpos in let l = t.dst_length in omega arith in
        let arrives : feed session
              (record (view_with r s) {
                reading = in_payload (length s.packet.storage) s.header.storage (written s.packet);
              })
              t.bytes
            ≡ deliver session (view_with r s) s.header.storage dst.storage =
          feed_payload_end session (view_with r s) (length s.packet.storage) s.header.storage
            (written s.packet) t.bytes sum (omega arith)
          ∙ ap (deliver session (view_with r s) s.header.storage) (sym t.dst_written ∙ all) in
        record {
          socket = k.socket;
          outcome = k.outcome;
          returns = k.returns;
          fed =
              rw (t.taken, partly)
                (feed-append session _ t.bytes (contents src)
                  ∙ ap (λ v. feed session v (contents src)) arrives
                  ∙ k.fed);
          rest = subst (λ m. Rest m k.outcome k.socket) (ap length t.src_storage) k.rest;
        }

  -- The second half of a round, if the rounds after it are handled and take fewer bytes than there is fuel.
  pub payload_lem :
      (next : Socket H → Option (Socket H × Outcome)) (fuel : ℕ) (s : Socket H) (r : Reading)
      → Handles session fuel next
      → Buffers s
      → s.header.wpos ≡ 7
      → active s - (length s.packet.storage - s.packet.wpos) < fuel
      → Runs session
          (space s)
          (read_payload session next s)
          (payload_view r s)
          (contents s.incoming)
  payload_lem next fuel s r ih b e7 h =
      elim (split s.packet.wpos (length s.packet.storage) b.packet_sound.within) [
        | inl e ↦ whole_lem next fuel s r ih b e (omega arith)
        | inr short ↦
            let (src, dst, t) = transfer_lem s.incoming s.packet b.incoming_sound b.packet_sound in
            let l = t.dst_length in
            let w = t.dst_wpos in
            let m = t.moved in
            let p = t.src_wpos in
            let q = t.src_rpos in
            elim (split dst.wpos (length dst.storage) t.dst_sound.within) [
              | inl e ↦ end_lem next s b e7 short src dst t e r fuel ih (omega arith)
              | inr lt ↦ more_lem next s b e7 short src dst t lt r
            ]
      ]
