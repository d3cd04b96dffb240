-- ===== src/Protocol/Caps.antt =====
-- The capability byte of a pin (enum usbio_pin_caps), what the host makes of it (PinCaps,
-- required_caps and mode_supported of Protocol.h), and full-scale values.
use arduino_driver.Prelude.{ℕ, ◌-◌, ◌^◌, Bool, false, ◌||◌, not, leb, ◌==◌, if◌then◌else◌, bit_and}
use arduino_driver.Protocol.Mode

abbrev pub dio : ℕ
dio = 2 ^ 0

abbrev pub ain : ℕ
ain = 2 ^ 1

abbrev pub pwm : ℕ
pwm = 2 ^ 2

abbrev pub dac : ℕ
dac = 2 ^ 3

-- PinCaps::has (and StreamFlags::has): every bit of `mask` is set.
unfoldable pub has : ℕ → ℕ → Bool
has bits mask = bit_and bits mask == mask

-- The C test `bits & mask`.
unfoldable pub any_of : ℕ → ℕ → Bool
any_of bits mask = not (bit_and bits mask == 0)

-- 0xFF for an unknown mode, which no pin satisfies.
unfoldable pub required_caps : ℕ → ℕ
required_caps mode =
    if mode == Mode.input
      || mode == Mode.output
      || mode == Mode.input_pullup
      || mode == Mode.input_pulldown
    then dio
    else if mode == Mode.analog_in
    then ain
    else if mode == Mode.pwm
    then pwm
    else if mode == Mode.dac
    then dac
    else 255

unfoldable pub mode_supported : ℕ → ℕ → Bool → Bool
unfolding has required_caps
mode_supported mode caps pulldown_supported =
    if not (has caps (required_caps mode))
    then false
    else not (mode == Mode.input_pulldown) || pulldown_supported

-- max_value of Protocol.h.
unfoldable pub max_value : ℕ → ℕ
max_value bits = if bits == 0 then 0 else if leb 16 bits then 0xffff else 2 ^ bits - 1
