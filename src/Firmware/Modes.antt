-- ===== src/Firmware/Modes.antt =====
-- Pin modes on the device side of src/UsbIo.cpp: full_scale, mode_allowed, mode_is_input and
-- mode_is_digital.
pub mod Host
use arduino_driver.Prelude.{ℕ, ◌-◌, ◌^◌, Bool, false, ◌&&◌, ◌||◌, leb, ◌==◌, if◌then◌else◌}
use arduino_driver.Protocol.Caps
use arduino_driver.Protocol.Mode
use arduino_driver.Firmware.Board.{Board}

unfoldable pub full_scale : ℕ → ℕ
full_scale bits = if leb 16 bits then 0xffff else 2 ^ bits - 1

unfoldable pub mode_allowed : Board → ℕ → ℕ → Bool
unfolding Caps.any_of
mode_allowed b caps mode =
    if mode == Mode.input || mode == Mode.output || mode == Mode.input_pullup
    then Caps.any_of caps Caps.dio
    else if mode == Mode.input_pulldown
    then Caps.any_of caps Caps.dio && b.has_pulldown
    else if mode == Mode.analog_in
    then Caps.any_of caps Caps.ain
    else if mode == Mode.pwm
    then Caps.any_of caps Caps.pwm
    else if mode == Mode.dac
    then Caps.any_of caps Caps.dac
    else false

unfoldable pub mode_is_input : ℕ → Bool
mode_is_input mode = mode == Mode.input || mode == Mode.input_pullup || mode == Mode.input_pulldown

unfoldable pub mode_is_digital : ℕ → Bool
unfolding mode_is_input
mode_is_digital mode = mode_is_input mode || mode == Mode.output
