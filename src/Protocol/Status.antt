-- ===== src/Protocol/Status.antt =====
-- enum usbio_status of src/usbio_protocol.h (Status of Protocol.h): the status byte of IN replies and
-- GET_STATUS.last_error.
use Prim.Native.Nat.{ℕ}

abbrev pub ok : ℕ
ok = 0

abbrev pub busy : ℕ
busy = 1

abbrev pub bad_pin : ℕ
bad_pin = 2

abbrev pub bad_mode : ℕ
bad_mode = 3

abbrev pub bad_cmd : ℕ
bad_cmd = 4

abbrev pub unsupported : ℕ
unsupported = 5

abbrev pub queue_full : ℕ
queue_full = 6

abbrev pub bad_value : ℕ
bad_value = 7
