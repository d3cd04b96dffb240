-- ===== src/Firmware/Invariant/Consistent.antt =====
-- The invariant of UsbIoDevice between the calls of src/UsbIo.cpp.
use arduino_driver.Prelude.{◌≤◌, ◌≡◌, length}
use arduino_driver.Firmware.Invariant.Events.{IsWatching}
use arduino_driver.Firmware.Invariant.Streaming.{IsStreaming}
use arduino_driver.Firmware.Ring.{IsValid}
use arduino_driver.Firmware.State.{Device}

-- The pin table has its size, the three rings are sound, each watched pin has one slot and is an
-- input pin, and the selected pins exist, each once and at most eight.
abbrev pub IsConsistent : Device → Type 0
IsConsistent d =
    (d.n_pins ≤ 128)
    × (length d.mode ≡ 128)
    × IsValid d.commands
    × IsWatching d.n_pins d.mode d.events
    × IsStreaming d.n_pins d.stream
