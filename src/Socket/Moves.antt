-- ===== src/Socket/Moves.antt =====
-- The steps of the loop of `XSocket::ReadHandler` (shared/Server/ASIO/XSocket.cpp) on sound buffers: moving bytes
-- from one buffer to another, and deciphering in place.
use rzemulator.Base.{
  ◌>>=◌, ℕ, ◌+◌, ◌-◌, ◌≡◌, refl, ap, sym, true, false, some, List, ◌++◌, length, length-drop, leb,
  drop, min, arith,
}
use rzemulator.Base.Slices.{take_all, length_zero}
use mathlib.Core.List.{append-nil}
use rzemulator.Cipher.{State, decode}
use rzemulator.Cipher.Stream.{length-decode}
use rzemulator.Socket.Buffer.{MessageBuffer, read_completed, read_bytes, copy_to}
use rzemulator.Socket.Space.{
  IsSound, written, contents, active_lem, remaining_lem, write_lem, read_bytes_lem,
}
use rzemulator.Socket.Reader.{Session, transfer, decode_front, decode_if}
use rzemulator.Socket.Stream.{decipher}

-- The two buffers after a move of as many bytes as there are and fit.
pub record Transferred (src dst src' dst' : MessageBuffer) : Type 0 where
  pub bytes : List ℕ
  pub runs : transfer src dst ≡ some (src', dst')
  pub moved : length bytes ≡ min (src.wpos - src.rpos) (length dst.storage - dst.wpos)
  pub taken : contents src ≡ bytes ++ contents src'
  pub src_sound : IsSound src'
  pub src_wpos : src'.wpos ≡ src.wpos
  pub src_rpos : src'.rpos ≡ src.rpos + length bytes
  pub src_storage : src'.storage ≡ src.storage
  pub dst_sound : IsSound dst'
  pub dst_wpos : dst'.wpos ≡ dst.wpos + length bytes
  pub dst_rpos : dst'.rpos ≡ dst.rpos
  pub dst_length : length dst'.storage ≡ length dst.storage
  pub dst_written : written dst' ≡ written dst ++ bytes

pub transfer_lem :
    (src dst : MessageBuffer)
    → IsSound src
    → IsSound dst
    → (src' : MessageBuffer) × (dst' : MessageBuffer) × Transferred src dst src' dst'
unfolding transfer read_completed
transfer_lem src dst p q =
    let n = min (src.wpos - src.rpos) (length dst.storage - dst.wpos) in
    let (bytes, got, len, split, sound) = read_bytes_lem src n p (omega arith) in
    let (dst', put, sound', wpos, rpos, size, all) =
      write_lem dst bytes q (ground (arith, q.within)) in
    (
      read_completed src n,
      dst',
      record {
        bytes = bytes;
        runs = rw (active_lem src p, remaining_lem dst q, got, ◌>>=◌, put) refl;
        moved = len;
        taken = split;
        src_sound = sound;
        src_wpos = refl;
        src_rpos = ap (λ (m : ℕ). src.rpos + m) (sym len);
        src_storage = refl;
        dst_sound = sound';
        dst_wpos = wpos;
        dst_rpos = rpos;
        dst_length = size;
        dst_written = all;
      },
    )

-- All of a buffer that is read from its start.
pub read_all :
    (b : MessageBuffer) (n : ℕ)
    → b.rpos ≡ 0
    → length b.storage ≡ n
    → read_bytes b n ≡ some b.storage
unfolding read_bytes
read_all b n z e =
    let fits : leb (b.rpos + n) (length b.storage) ≡ true = ground arith in
    rw fits (rw z (ap some (take_all n b.storage (omega arith))))

-- A paste over the whole storage.
copy_all :
    (storage bytes : List ℕ) (at : ℕ)
    → at ≡ 0
    → length bytes ≡ length storage
    → copy_to storage at bytes ≡ some bytes
unfolding copy_to
copy_all storage bytes at z e =
    let fits : leb (at + length bytes) (length storage) ≡ true = ground arith in
    let none_left : length (drop (at + length bytes) storage) ≡ 0 =
      omega (arith, length-drop (at + length bytes) storage) in
    rw (fits, length_zero (drop (at + length bytes) storage) none_left, append-nil bytes)
      (rw z refl)

decode_front_lem :
    (st : State) (b : MessageBuffer) (n : ℕ)
    → b.rpos ≡ 0
    → length b.storage ≡ n
    → decode_front st b n
      ≡ some ((decode st b.storage false).0, record b { storage = (decode st b.storage false).1 })
unfolding decode_front
decode_front_lem st b n z e =
    let plain = (decode st b.storage false).1 in
    rw (read_all b n z e, ◌>>=◌, copy_all b.storage plain b.rpos z (length-decode st b.storage))
      refl

pub decode_if_lem :
    {H : Type 0} (session : Session H) (st : State) (b : MessageBuffer) (n : ℕ)
    → b.rpos ≡ 0
    → length b.storage ≡ n
    → decode_if session st b n
      ≡ some (
        (decipher session st b.storage).0,
        record b { storage = (decipher session st b.storage).1 },
      )
unfolding decode_if decipher
decode_if_lem session st b n z e = ground (arith, decode_front_lem st b n z e)
