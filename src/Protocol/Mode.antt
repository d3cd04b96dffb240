-- ===== src/Protocol/Mode.antt =====
-- enum usbio_pin_mode of src/usbio_protocol.h (PinMode of Protocol.h), and ModeNone of UsbIo.h.
use Prim.Native.Nat.{ℕ}

abbrev pub input : ℕ
input = 0

abbrev pub output : ℕ
output = 1

abbrev pub input_pullup : ℕ
input_pullup = 2

abbrev pub input_pulldown : ℕ
input_pulldown = 3

abbrev pub analog_in : ℕ
analog_in = 4

abbrev pub pwm : ℕ
pwm = 5

abbrev pub dac : ℕ
dac = 6

abbrev pub count : ℕ
count = 7

-- UsbIoDevice::ModeNone: the host has not configured the pin
abbrev pub none : ℕ
none = 255
