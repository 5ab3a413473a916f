-- ===== src/Socket/Buffer.antt =====
-- shared/Server/ASIO/MessageBuffer.cpp and MessageBuffer.h. `size_type` has 64 bits. `none` is an access
-- outside the storage.
use rzemulator.Base.{
  ◌>>=◌, ℕ, ◌+◌, ◌-◌, ◌*◌, ◌/◌, ◌%◌, ◌^◌, Option, none, some, List, [], ◌++◌, ◌==◌, leb,
  if◌then◌else◌, length, take, drop, replicate,
}

pub record MessageBuffer : Type 0 where
  pub wpos : ℕ
  pub rpos : ℕ
  pub storage : List ℕ

-- A difference of two `size_type` values.
unfoldable pub sub64 : ℕ → ℕ → ℕ
sub64 a b = (a + 2 ^ 64 - b) % 2 ^ 64

-- `std::vector::resize`.
unfoldable pub vector_resize : List ℕ → ℕ → List ℕ
vector_resize storage n = take n storage ++ replicate (n - length storage) 0

unfoldable pub sized : ℕ → MessageBuffer
unfolding vector_resize
sized initial_size = record { wpos = 0; rpos = 0; storage = replicate initial_size 0 }

unfoldable pub reset : MessageBuffer → MessageBuffer
reset b = record b { wpos = 0; rpos = 0 }

unfoldable pub resize : MessageBuffer → ℕ → MessageBuffer
resize b bytes = record b { storage = vector_resize b.storage bytes }

unfoldable pub get_active_size : MessageBuffer → ℕ
get_active_size b = sub64 b.wpos b.rpos

unfoldable pub get_remaining_space : MessageBuffer → ℕ
get_remaining_space b = sub64 (length b.storage) b.wpos

unfoldable pub read_completed : MessageBuffer → ℕ → MessageBuffer
read_completed b bytes = record b { rpos = b.rpos + bytes }

-- The `n` bytes at `GetReadPointer()`.
unfoldable pub read_bytes : MessageBuffer → ℕ → Option (List ℕ)
read_bytes b n =
    if leb (b.rpos + n) (length b.storage) then some (take n (drop b.rpos b.storage)) else none

-- `memcpy` and `memmove` to the index `at`.
unfoldable pub copy_to : List ℕ → ℕ → List ℕ → Option (List ℕ)
copy_to storage at bytes =
    if leb (at + length bytes) (length storage)
    then some (take at storage ++ (bytes ++ drop (at + length bytes) storage))
    else none

unfoldable pub write : MessageBuffer → List ℕ → Option MessageBuffer
unfolding copy_to
write b bytes = if length bytes == 0 then some b else (do
  s ← copy_to b.storage b.wpos bytes
  some (record b { wpos = b.wpos + length bytes; storage = s }))

unfoldable pub normalize : MessageBuffer → Option MessageBuffer
normalize b =
    let moved = record b { wpos = sub64 b.wpos b.rpos; rpos = 0 } in
    if b.rpos == 0
    then some b
    else (if b.rpos == b.wpos then some moved else (do
      bytes ← read_bytes b (get_active_size b)
      s ← copy_to b.storage 0 bytes
      some (record moved { storage = s })))

unfoldable pub ensure_free_space : MessageBuffer → MessageBuffer
ensure_free_space b =
    if get_remaining_space b == 0 then resize b ((length b.storage * 3) % 2 ^ 64 / 2) else b

-- What `Move` hands over, and what it leaves.
unfoldable pub moved_from : MessageBuffer → MessageBuffer
moved_from b = record { wpos = 0; rpos = 0; storage = [] }
