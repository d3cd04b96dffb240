-- ===== src/Protocol/Flag.antt =====
-- enum usbio_info_flags of src/usbio_protocol.h: the flags of GET_INFO.
use Prim.Native.Nat.{ℕ, ◌^◌}

abbrev pub vendor_interface : ℕ
vendor_interface = 2 ^ 0

abbrev pub pulldown : ℕ
pulldown = 2 ^ 1

abbrev pub streaming : ℕ
streaming = 2 ^ 2

abbrev pub events : ℕ
events = 2 ^ 3
