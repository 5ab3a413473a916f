-- ===== src/Socket/Refines.antt =====
-- `XSocket::ReadHandler` (shared/Server/ASIO/XSocket.cpp) against the specification of Stream.antt: all rounds of
-- its loop, and the read that it posts.
use rzemulator.Base.{
  ℕ, zero, suc, ◌<◌, ◌≡◌, ◌⊎◌, refl, ap, ◌∙◌, true, false, [], ◌==◌, ltb, length, arith, Bool-cases,
  inl, inr,
}
use rzemulator.Base.Slices.{length_zero}
use rzemulator.Socket.Buffer.{get_active_size, get_remaining_space}
use rzemulator.Socket.Space.{
  written, contents, active_lem, remaining_lem, length-contents, length-written,
}
use rzemulator.Socket.Message.{size_of}
use rzemulator.Socket.Reader.{Session, Socket, drained, header_phase, read_loop}
use rzemulator.Socket.Stream.{over, arrived, feed}
use rzemulator.Socket.Moves.{transfer_lem}
use rzemulator.Socket.Standing.{view, Ready, space, Runs, active, split}
use rzemulator.Socket.Packets.{Handles}
use rzemulator.Socket.Payload.{payload_view, payload_lem}
use rzemulator.Socket.Heads.{plain_head}
use rzemulator.Socket.Headers.{header_more, header_refused, header_good}

zero_or : (n : ℕ) → (n ≡ 0) ⊎ (0 < n)
zero_or n = omega arith

module _ {H : Type 0} (session : Session H) where
  -- Nothing is left to read.
  idle_lem :
      (fuel : ℕ) (s : Socket H)
      → Ready s
      → active s ≡ 0
      → Runs session (space s) (read_loop session (suc fuel) s) (view s) (contents s.incoming)
  unfolding read_loop feed
  idle_lem fuel s r z =
      let b = r.buffers in
      let none_left : (get_active_size s.incoming == 0) ≡ true =
        let e = active_lem s.incoming b.incoming_sound in ground arith in
      let nothing : contents s.incoming ≡ [] =
        length_zero (contents s.incoming) (length-contents s.incoming b.incoming_sound ∙ z) in
      record {
        socket = s;
        outcome = drained;
        returns = rw (read_loop, none_left) refl;
        fed = rw nothing refl;
        rest = (r, (let o = b.incoming_sound.ordered in omega arith), refl);
      }

  -- The header is there already.
  resume_lem :
      (fuel : ℕ) (s : Socket H)
      → Ready s
      → s.header.wpos ≡ 7
      → s.packet.wpos < length s.packet.storage
      → 0 < active s
      → active s < suc fuel
      → Handles session fuel (read_loop session fuel)
      → Runs session (space s) (read_loop session (suc fuel) s) (view s) (contents s.incoming)
  unfolding read_loop header_phase arrived
  resume_lem fuel s r e7 short pos h ih =
      let b = r.buffers in
      let some_left : (get_active_size s.incoming == 0) ≡ false =
        let e = active_lem s.incoming b.incoming_sound in ground arith in
      let full : (get_remaining_space s.header == 0) ≡ true =
        let e = remaining_lem s.header b.header_sound in let l = b.header_length in ground arith in
      let partly : (length (written s.packet) == length s.packet.storage) ≡ false =
        let e = length-written s.packet b.packet_sound in ground arith in
      let same : view s ≡ payload_view session (over drained) s = rw (e7, partly) refl in
      let k =
        payload_lem session (read_loop session fuel) fuel s (over drained) ih b e7 (omega arith) in
      record {
        socket = k.socket;
        outcome = k.outcome;
        returns = rw (read_loop, some_left, header_phase, full) k.returns;
        fed = ap (λ v. feed session v (contents s.incoming)) same ∙ k.fed;
        rest = k.rest;
      }

  begin_lem :
      (fuel : ℕ) (s : Socket H)
      → Ready s
      → s.header.wpos < 7
      → s.packet.wpos ≡ 0
      → 0 < active s
      → active s < suc fuel
      → Handles session fuel (read_loop session fuel)
      → Runs session (space s) (read_loop session (suc fuel) s) (view s) (contents s.incoming)
  begin_lem fuel s r h7 z pos h ih =
      let b = r.buffers in
      let (src, dst, t) = transfer_lem s.incoming s.header b.incoming_sound b.header_sound in
      let l = t.dst_length in
      let k = b.header_length in
      let v = t.dst_sound.within in
      elim (split dst.wpos 7 (omega arith)) [
        | inr lt ↦ header_more session fuel s b h7 z pos src dst t lt
        | inl e ↦
            elim (Bool-cases (
              ltb 4098
                (size_of (plain_head session (record s { incoming = src; header = dst }))))) [
                  | inl big ↦ header_refused session fuel s b h7 z pos src dst t e big
                  | inr good ↦ header_good session fuel s b h7 z pos src dst t e good ih h
                ]
      ]

  pub read_loop_lem : (fuel : ℕ) → Handles session fuel (read_loop session fuel)
  read_loop_lem zero s r h = absurd (omega arith)
  read_loop_lem (suc fuel) s r h = elim (zero_or (active s)) [
    | inl z ↦ idle_lem fuel s r z
    | inr pos ↦ elim r.phase [
      | inl (h7, z) ↦ begin_lem fuel s r h7 z pos h (read_loop_lem fuel)
      | inr (e7, short) ↦ resume_lem fuel s r e7 short pos h (read_loop_lem fuel)
    ]
  ]
