-- ===== src/Socket/Packets.antt =====
-- A whole packet in `XSocket::ReadHandler` (shared/Server/ASIO/XSocket.cpp): what `ReadDataHandler` does with it, and
-- the rounds that follow.
use rzemulator.Base.{◌>>=◌, ℕ, ◌<◌, ◌≡◌, ◌⊎◌, refl, ◌∙◌, Option, some, length, arith, inl, inr}
use rzemulator.Socket.Buffer.{reset, moved_from}
use rzemulator.Socket.Space.{contents}
use rzemulator.Socket.Message.{id_of}
use rzemulator.Socket.Reader.{
  Session, Socket, ReadResult, ok, error, waiting_for_query, Outcome, stopped, go, data_phase,
  read_data_handler, read_payload,
}
use rzemulator.Socket.Stream.{Reading, over, after, decipher, deliver, feed_over}
use rzemulator.Socket.Moves.{read_all, decode_if_lem}
use rzemulator.Socket.Standing.{
  view_with, view, Buffers, Ready, space, Runs, active, ReadResult-cases,
}

module _ {H : Type 0} (session : Session H) where
  -- The socket after `ReadDataHandler`, and its result.
  abbrev delivered : Socket H → Socket H × ReadResult
  delivered s =
      let (key, plain) = decipher session s.decryption s.packet.storage in
      let (flags, handler, result) =
        session.process_incoming s.flags s.handler (id_of s.header.storage) plain in
      (
        record s {
          flags = flags;
          handler = handler;
          decryption = key;
          packet = moved_from s.packet;
        },
        result,
      )

  read_data_lem : (s : Socket H) → Buffers s → read_data_handler session s ≡ some (delivered s)
  unfolding read_data_handler moved_from
  read_data_lem s b =
      rw
        (
          read_all s.header 7 b.header_rpos b.header_length,
          ◌>>=◌,
          decode_if_lem session s.decryption s.packet (length s.packet.storage) b.packet_rpos refl,
        )
        refl

  deliver_lem :
      (s : Socket H) (r : Reading)
      → deliver session (view_with r s) s.header.storage s.packet.storage
        ≡ view_with (after (delivered s).1) (delivered s).0
  unfolding deliver
  deliver_lem s r = refl

  abbrev again : Socket H → Socket H
  again s = let d = (delivered s).0 in record d { header = reset d.header }

  -- Between two packets.
  again-Ready : (s : Socket H) → Buffers s → Ready (again s)
  unfolding reset moved_from
  again-Ready s b = record {
    buffers = record {
      header_sound = record {
        ordered = omega arith;
        within = omega arith;
        indexed = b.header_sound.indexed;
      };
      header_rpos = refl;
      header_length = b.header_length;
      packet_sound = record { ordered = omega arith; within = omega arith; indexed = omega arith };
      packet_rpos = refl;
      incoming_sound = b.incoming_sound;
    };
    phase = inl (omega arith, refl);
  }

  -- What a call that handles the rounds after this one has to do.
  abbrev pub Handles : ℕ → (Socket H → Option (Socket H × Outcome)) → Type 0
  Handles fuel next =
      (s : Socket H)
      → Ready s
      → active s < fuel
      → Runs session (space s) (next s) (view s) (contents s.incoming)

  module _ (next : Socket H → Option (Socket H × Outcome)) (s s2 : Socket H) where
    abbrev pub FullPhase : Type 0
    FullPhase = data_phase session s ≡ some (s2, go)

    module _ (full : FullPhase) (b : Buffers s2) where
      go_ok : (delivered s2).1 ≡ ok → read_payload session next s ≡ next (again s2)
      unfolding read_payload
      go_ok e = rw (read_payload, full, read_data_lem s2 b, e) refl

      go_stop :
          ((delivered s2).1 ≡ error) ⊎ ((delivered s2).1 ≡ waiting_for_query)
          → read_payload session next s ≡ some (again s2, stopped)
      unfolding read_payload
      go_stop (inl e) = rw (read_payload, full, read_data_lem s2 b, e) refl
      go_stop (inr e) = rw (read_payload, full, read_data_lem s2 b, e) refl

      after_stop :
          ((delivered s2).1 ≡ error) ⊎ ((delivered s2).1 ≡ waiting_for_query)
          → after (delivered s2).1 ≡ over stopped
      after_stop (inl e) = rw e refl
      after_stop (inr e) = rw e refl

      -- The packet is whole: it is delivered, and the rounds go on if its result is `Ok`.
      pub packet_lem :
          (r : Reading) (fuel : ℕ)
          → Handles fuel next
          → active s2 < fuel
          → Runs session
              (space s2)
              (read_payload session next s)
              (deliver session (view_with r s2) s2.header.storage s2.packet.storage)
              (contents s2.incoming)
      unfolding reset
      packet_lem r fuel ih h = elim (ReadResult-cases (delivered s2).1) [
        | inl e ↦
            let k = ih (again s2) (again-Ready s2 b) h in
            record {
              socket = k.socket;
              outcome = k.outcome;
              returns = go_ok e ∙ k.returns;
              fed = rw (deliver_lem s2 r, e) k.fed;
              rest = k.rest;
            }
        | inr e ↦ record {
          socket = again s2;
          outcome = stopped;
          returns = go_stop e;
          fed =
              rw (deliver_lem s2 r, after_stop e)
                (feed_over session (view_with (over stopped) (delivered s2).0) stopped
                  (contents s2.incoming) refl);
          rest = refl;
        }
      ]
