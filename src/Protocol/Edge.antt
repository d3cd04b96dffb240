-- ===== src/Protocol/Edge.antt =====
-- enum usbio_edge_mode of src/usbio_protocol.h (EdgeMode of Protocol.h).
use Prim.Native.Nat.{ℕ}

abbrev pub off : ℕ
off = 0

abbrev pub rising : ℕ
rising = 1

abbrev pub falling : ℕ
falling = 2

abbrev pub change : ℕ
change = 3

abbrev pub count : ℕ
count = 4
