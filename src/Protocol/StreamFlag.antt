-- ===== src/Protocol/StreamFlag.antt =====
-- enum usbio_stream_flags of src/usbio_protocol.h: wIndex of STREAM_START.
use Prim.Native.Nat.{ℕ, ◌^◌}

abbrev pub digital : ℕ
digital = 2 ^ 0

abbrev pub stop_on_overrun : ℕ
stop_on_overrun = 2 ^ 1
