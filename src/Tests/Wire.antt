-- ===== src/Tests/Wire.antt =====
-- The wire protocol and the host's decoders at concrete values.
use arduino_driver.Prelude.{◌≡◌, arith}
use arduino_driver.Protocol.Caps
use arduino_driver.Protocol.Clock.{reconstruct_micros64, reconstruct_micros64_exact}
use arduino_driver.Firmware.Modes.{mode_allowed}
use arduino_driver.Firmware.Modes.Host.{mode_allowed-eq-mode_supported}
use arduino_driver.Tests.Fixtures.{board}

-- Just after the second wrap of micros().
reconstruct_micros64_exact_example : reconstruct_micros64 8589935 592 ≡ 8589935184
reconstruct_micros64_exact_example = reconstruct_micros64_exact 8589935184 (omega arith)

mode_allowed-eq-mode_supported_example :
    mode_allowed board 10 4 ≡ Caps.mode_supported 4 10 board.has_pulldown
mode_allowed-eq-mode_supported_example = mode_allowed-eq-mode_supported board 10 4 (omega arith)
