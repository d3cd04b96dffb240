-- ===== src/Protocol/Features.antt =====
-- What the Info of extras/driver/include/arduino_driver/Protocol.h says of a board.
use arduino_driver.Prelude.{ℕ, Bool, not, ◌==◌, if◌then◌else◌}
use arduino_driver.Protocol.Caps
use arduino_driver.Protocol.Flag
use arduino_driver.Protocol.Layout.{Info}
use arduino_driver.Protocol.Limit

unfoldable pub supports_pulldown : Info → Bool
supports_pulldown info = Caps.any_of info.flags Flag.pulldown

unfoldable pub has_dac : Info → Bool
has_dac info = not (info.dac_bits == 0)

unfoldable pub has_streaming : Info → Bool
has_streaming info = Caps.any_of info.flags Flag.streaming

unfoldable pub has_events : Info → Bool
has_events info = Caps.any_of info.flags Flag.events

-- Firmware before 0.4.0 reports 0.
unfoldable pub min_stream_period_us : Info → ℕ
min_stream_period_us info =
    if not (has_streaming info)
    then 0
    else if info.stream_min_period_us == 0
    then Limit.stream_legacy_min_period_us
    else info.stream_min_period_us
