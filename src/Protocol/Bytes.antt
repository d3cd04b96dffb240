-- ===== src/Protocol/Bytes.antt =====
-- Little-endian byte access: put_u16 of src/UsbIo.cpp and the reads and writes of Protocol.h. A byte
-- sequence is the list of its bytes; a read outside it, which the callers rule out, is 0.
use arduino_driver.Prelude.{ℕ, ◌+◌, ◌*◌, ◌/◌, ◌%◌, List, [], ◌∷◌, u8, get_or, set}

-- put_u16 of UsbIo.cpp, and how a uint16_t member of a reply struct lies in memory.
abbrev pub put_u16 : ℕ → List ℕ
put_u16 v = v % 256 ∷ u8 (v / 256) ∷ []

-- A uint32_t member of a reply struct.
abbrev pub put_u32 : ℕ → List ℕ
put_u32 v = v % 256 ∷ u8 (v / 256) ∷ u8 (v / 65536) ∷ u8 (v / 16777216) ∷ []

unfoldable pub read_u8 : List ℕ → ℕ → ℕ
read_u8 bytes offset = get_or bytes offset 0

-- `lo | (hi << 8)`: the two bytes share no bit, so `|` is `+`.
unfoldable pub read_u16le : List ℕ → ℕ → ℕ
unfolding read_u8
read_u16le bytes offset = read_u8 bytes offset + read_u8 bytes (offset + 1) * 256

unfoldable pub read_u32le : List ℕ → ℕ → ℕ
unfolding read_u16le
read_u32le bytes offset = read_u16le bytes offset + read_u16le bytes (offset + 2) * 65536

unfoldable pub write_u8 : List ℕ → ℕ → ℕ → List ℕ
write_u8 bytes offset value = set bytes offset value

unfoldable pub write_u16le : List ℕ → ℕ → ℕ → List ℕ
write_u16le bytes offset value =
    set (set bytes offset (value % 256)) (offset + 1) (value / 256 % 256)

unfoldable pub write_u32le : List ℕ → ℕ → ℕ → List ℕ
unfolding write_u16le
write_u32le bytes offset value =
    write_u16le (write_u16le bytes offset (value % 65536)) (offset + 2) (value / 65536 % 65536)
