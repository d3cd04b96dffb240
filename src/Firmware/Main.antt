-- ===== src/Firmware/Main.antt =====
-- UsbIoDevice::poll of src/UsbIo.cpp: what one call from loop() does, in order.
use arduino_driver.Prelude.{if◌then◌else◌}
use arduino_driver.Firmware.Board.{Board, Core}
use arduino_driver.Firmware.Poll.{settle, refresh_shadow}
use arduino_driver.Firmware.Sample.{stream_poll}
use arduino_driver.Firmware.Scan.{event_poll}
use arduino_driver.Firmware.State.{Device}

module _ (b : Board) (c : Core) where
  open c use {World}

  unfoldable pub poll : Device × World → Device × World
  poll s =
      let scanned = event_poll c (refresh_shadow b c (settle b c 2 s)) in
      if b.has_stream_transport then stream_poll b c scanned else scanned
