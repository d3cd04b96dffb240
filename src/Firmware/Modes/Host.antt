-- ===== src/Firmware/Modes/Host.antt =====
-- The device's validation of a mode or a value against the host's: mode_allowed and full_scale of
-- src/UsbIo.cpp, mode_supported and max_value of Protocol.h.
use arduino_driver.Prelude.{ℕ, zero, suc, ◌<◌, ◌≡◌, refl, true, ◌==◌, ==_iff, arith, bit_and}
use arduino_driver.Prelude.Bits.{all_below, all_below_at, flag_bit}
use arduino_driver.Protocol.Caps
use arduino_driver.Firmware.Board.{Board}
use arduino_driver.Firmware.Modes.{mode_allowed, full_scale}

bit_and-ones : (x : ℕ) → x < 16 → bit_and x 255 ≡ x
unfolding all_below
bit_and-ones x h = (==_iff _ x).0 (all_below_at (λ y. bit_and y 255 == y) 16 x h table)
  where
    table : all_below (λ y. bit_and y 255 == y) 16 ≡ true
    table = refl

-- Host and device agree on every mode code, for every capability byte that the firmware can report.
pub mode_allowed-eq-mode_supported :
    (b : Board) (caps mode : ℕ)
    → caps < 16
    → mode_allowed b caps mode ≡ Caps.mode_supported mode caps b.has_pulldown
unfolding mode_allowed Caps.mode_supported
mode_allowed-eq-mode_supported b caps mode h = ground (
  arith,
  flag_bit 0 caps (omega arith) (omega arith),
  flag_bit 1 caps (omega arith) (omega arith),
  flag_bit 2 caps (omega arith) (omega arith),
  flag_bit 3 caps (omega arith) (omega arith),
  bit_and-ones caps h,
)

pub full_scale-eq-max_value : (bits : ℕ) → full_scale bits ≡ Caps.max_value bits
unfolding full_scale Caps.max_value
full_scale-eq-max_value zero = refl
full_scale-eq-max_value (suc n) = ground arith
