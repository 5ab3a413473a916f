-- ===== src/Socket/Heads.antt =====
-- A whole header in `XSocket::ReadHandler` (shared/Server/ASIO/XSocket.cpp): what `ReadHeaderHandler` does with it.
use rzemulator.Base.{
  ◌>>=◌, ℕ, ◌-◌, ◌≤◌, ◌<◌, ◌^◌, ◌≡◌, refl, ap, sym, subst, ◌∙◌, true, false, some, List, [], ltb,
  length, take, arith, length-append, length-take, length-replicate, replicate,
}
use rzemulator.Cipher.{State}
use rzemulator.Cipher.Stream.{length-decode}
use rzemulator.Socket.Buffer.{MessageBuffer, resize, vector_resize, read_bytes}
use rzemulator.Socket.Space.{written}
use rzemulator.Socket.Message.{header_size, size_of}
use rzemulator.Socket.Reader.{
  Session, Socket, refused, read_header_handler, close_socket, close_state, sub32,
}
use rzemulator.Socket.Stream.{Reading, over, decipher, refuse_header}
use rzemulator.Socket.Moves.{read_all, decode_if_lem}
use rzemulator.Socket.Standing.{view_with, Buffers}

module _ {H : Type 0} (session : Session H) where
  -- A whole header in its buffer: the socket after `ReadHeaderHandler`, and its result.
  abbrev pub plain_head : Socket H → List ℕ
  plain_head s = (decipher session s.decryption s.header.storage).1

  abbrev pub deciphered : Socket H → Socket H
  deciphered s = record s {
    decryption = (decipher session s.decryption s.header.storage).0;
    header = record s.header { storage = plain_head s };
  }

  abbrev pub accepted : Socket H → Socket H
  accepted s = record (deciphered s) {
    packet = resize s.packet (sub32 (size_of (plain_head s)) header_size);
  }

  pub length-decipher :
      (st : State) (bytes : List ℕ) → length (decipher session st bytes).1 ≡ length bytes
  unfolding decipher
  length-decipher st bytes = ground (arith, length-decode st bytes)

  module _ (s : Socket H) (b : Buffers s) where
    plain_read : read_bytes (deciphered s).header header_size ≡ some (plain_head s)
    plain_read =
        read_all (deciphered s).header header_size b.header_rpos
          (length-decipher s.decryption s.header.storage ∙ b.header_length)

    pub read_header_big :
        ltb 4098 (size_of (plain_head s)) ≡ true
        → read_header_handler session s ≡ some (deciphered s, false)
    unfolding read_header_handler
    read_header_big big =
        rw
          (
            decode_if_lem session s.decryption s.header header_size b.header_rpos b.header_length,
            ◌>>=◌,
            plain_read,
            big,
          )
          refl

    pub read_header_good :
        ltb 4098 (size_of (plain_head s)) ≡ false
        → read_header_handler session s ≡ some (accepted s, true)
    unfolding read_header_handler
    read_header_good good =
        rw
          (
            decode_if_lem session s.decryption s.header header_size b.header_rpos b.header_length,
            ◌>>=◌,
            plain_read,
            good,
          )
          refl

  pub written-accepted : (s : Socket H) → s.packet.wpos ≡ 0 → written (accepted s).packet ≡ []
  unfolding resize
  written-accepted s z = ap (λ n. take n (accepted s).packet.storage) z

  pub length-resize : (b : MessageBuffer) (n : ℕ) → length (resize b n).storage ≡ n
  unfolding resize vector_resize
  length-resize b n =
      let blank : ℕ = 0 in
      omega (
        arith,
        length-append (take n b.storage) (replicate (n - length b.storage) 0),
        length-take n b.storage,
        length-replicate (n - length b.storage) blank,
      )

  pub accepted-Buffers : (s : Socket H) → Buffers s → s.packet.wpos ≡ 0 → Buffers (accepted s)
  unfolding resize sub32
  accepted-Buffers s b z =
      let n = sub32 (size_of (plain_head s)) header_size in
      let len = length-resize s.packet n in
      let head = length-decipher s.decryption s.header.storage in
      let below : n < 2 ^ 32 = omega arith in
      record {
        header_sound = record {
          ordered = b.header_sound.ordered;
          within = subst (λ m. s.header.wpos ≤ m) (sym head) b.header_sound.within;
          indexed = subst (λ m. m < 2 ^ 64) (sym head) b.header_sound.indexed;
        };
        header_rpos = b.header_rpos;
        header_length = head ∙ b.header_length;
        packet_sound = record {
          ordered = b.packet_sound.ordered;
          within = omega arith;
          indexed = omega arith;
        };
        packet_rpos = b.packet_rpos;
        incoming_sound = b.incoming_sound;
      }

  pub refused_lem :
      (s : Socket H) (r : Reading)
      → refuse_header session (record (view_with r s) { key = s.decryption })
        ≡ view_with (over refused) (close_socket session s)
  unfolding refuse_header close_socket close_state
  refused_lem s r = ground arith

  pub closed_lem : (s : Socket H) → (close_socket session s).flags.closed ≡ true
  unfolding close_socket close_state
  closed_lem s = ground arith
