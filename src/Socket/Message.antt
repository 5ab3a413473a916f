-- ===== src/Socket/Message.antt =====
-- The packed header of a packet, shared/Server/TS_MESSAGE.h: `size` in the bytes 0 to 3, `id` in 4 and 5,
-- `msg_check_sum` in 6, each with its lowest byte first.
use rzemulator.Base.{ℕ, ◌+◌, ◌*◌, ◌/◌, ◌%◌, ◌^◌, List, get_or}

abbrev pub header_size : ℕ
header_size = 7

unfoldable pub size_of : List ℕ → ℕ
size_of h = get_or h 0 0 + 2 ^ 8 * get_or h 1 0 + 2 ^ 16 * get_or h 2 0 + 2 ^ 24 * get_or h 3 0

unfoldable pub id_of : List ℕ → ℕ
id_of h = get_or h 4 0 + 2 ^ 8 * get_or h 5 0

-- The sum of an `uint8_t` wraps.
unfoldable pub get_checksum : ℕ → ℕ → ℕ
get_checksum id size =
    (size % 256
      + size / 2 ^ 8 % 256
      + size / 2 ^ 16 % 256
      + size / 2 ^ 24 % 256
      + id % 256
      + id / 2 ^ 8 % 256)
    % 256
