-- ===== src/Socket/Standing.antt =====
-- What a receiving socket (shared/Server/ASIO/XSocket.cpp) stands for between two rounds of its loop, and what a call
-- of the loop has to achieve.
use rzemulator.Base.{
  ℕ, ◌-◌, ◌≤◌, ◌<◌, ◌≡◌, ◌⊎◌, refl, true, Option, some, List, ◌==◌, length, arith, if◌then◌else◌,
  inl, inr,
}
use rzemulator.Socket.Space.{IsSound, written}
use rzemulator.Socket.Reader.{
  Session, Socket, ReadResult, ok, error, waiting_for_query, Outcome, drained, refused, stopped,
}
use rzemulator.Socket.Stream.{Reading, in_header, in_payload, over, View, feed}

module _ {H : Type 0} where
  abbrev pub view_with : Reading → Socket H → View H
  view_with r s = record { reading = r; flags = s.flags; handler = s.handler; key = s.decryption }

  -- What a socket between two rounds stands for.
  abbrev pub view : Socket H → View H
  view s =
      view_with
        (if s.header.wpos == 7
          then in_payload (length s.packet.storage) s.header.storage (written s.packet)
          else in_header (written s.header))
        s

  abbrev pub out_view : Outcome → Socket H → View H
  out_view drained s = view s
  out_view refused s = view_with (over refused) s
  out_view stopped s = view_with (over stopped) s

  pub record Buffers (s : Socket H) : Type 0 where
    pub header_sound : IsSound s.header
    pub header_rpos : s.header.rpos ≡ 0
    pub header_length : length s.header.storage ≡ 7
    pub packet_sound : IsSound s.packet
    pub packet_rpos : s.packet.rpos ≡ 0
    pub incoming_sound : IsSound s.incoming

  -- Between two rounds: part of a header, or all of it and part of the payload.
  pub record Ready (s : Socket H) : Type 0 where
    pub buffers : Buffers s
    pub phase :
        ((s.header.wpos < 7) × (s.packet.wpos ≡ 0))
        ⊎ ((s.header.wpos ≡ 7) × (s.packet.wpos < length s.packet.storage))

  abbrev pub Rest : ℕ → Outcome → Socket H → Type 0
  Rest space drained s =
      Ready s × (s.incoming.rpos ≡ s.incoming.wpos) × (length s.incoming.storage ≡ space)
  Rest space refused s = s.flags.closed ≡ true
  Rest space stopped s = length s.incoming.storage ≡ space

  abbrev pub space : Socket H → ℕ
  space s = length s.incoming.storage

  -- The call returns, in a state that stands for what the specification makes of the bytes.
  pub record Runs (session : Session H) (room : ℕ) (call : Option (Socket H × Outcome)) (v : View H)
      (bytes : List ℕ) : Type 0 where
    pub socket : Socket H
    pub outcome : Outcome
    pub returns : call ≡ some (socket, outcome)
    pub fed : feed session v bytes ≡ out_view outcome socket
    pub rest : Rest room outcome socket

  abbrev pub active : Socket H → ℕ
  active s = s.incoming.wpos - s.incoming.rpos

pub ReadResult-cases : (r : ReadResult) → (r ≡ ok) ⊎ ((r ≡ error) ⊎ (r ≡ waiting_for_query))
ReadResult-cases ok = inl refl
ReadResult-cases error = inr (inl refl)
ReadResult-cases waiting_for_query = inr (inr refl)

pub split : (a b : ℕ) → a ≤ b → (a ≡ b) ⊎ (a < b)
split a b h = omega arith
