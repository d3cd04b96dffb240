-- ===== src/Tests/Invariant.antt =====
-- The watch table, the selection and a short run of the device of Fixtures.
use arduino_driver.Prelude.{◌≡◌, refl, arith, false, ◌&&◌, if◌then◌else◌, ◌==◌}
use arduino_driver.Prelude.Tally.{tally}
use arduino_driver.Protocol.Edge
use arduino_driver.Firmware.Invariant.Consistent.{IsConsistent}
use arduino_driver.Firmware.Invariant.Reach.{
  Reachable, booted, next, request, reachable-IsConsistent,
}
use arduino_driver.Firmware.Main.{poll}
use arduino_driver.Firmware.Queue.{busy}
use arduino_driver.Firmware.Select.{handle_stream_select}
use arduino_driver.Firmware.Select.Selection.{
  IsSelection, selected, selects, reselect, handle_stream_select_lem,
}
use arduino_driver.Firmware.Select.Slice.{slice}
use arduino_driver.Firmware.Setup.{begin, handle_setup}
use arduino_driver.Firmware.State.{initial}
use arduino_driver.Firmware.Watch.{handle_event_config}
use arduino_driver.Firmware.Watch.Config.{accepts, handle_event_config_lem}
use arduino_driver.Firmware.Watch.Table.{IsTable, slots_of}
use arduino_driver.Tests.Fixtures.{board, core, device, board-IsSound}

pub events-IsTable : IsTable device.events
unfolding tally
events-IsTable = record { full_length = refl; counted = refl; distinct = λ pin. ground arith }

-- RISING with 20 ms of debounce on pin 2, which is watched already.
handle_event_config_lem_example :
    let (accepted, after) = handle_event_config device 2 0x1401 in
    (accepted ≡ accepts device 2 1)
    × IsTable after.events
    × (slots_of after.events 0 ≡ (
        if accepted && 0 == 2 then (if 1 == Edge.off then 0 else 1) else slots_of device.events 0))
handle_event_config_lem_example = handle_event_config_lem device 2 0 0x1401 events-IsTable

pub stream-IsSelection : IsSelection device.stream
unfolding tally slice
stream-IsSelection = record {
  full_length = refl;
  bounded = omega arith;
  distinct = λ pin. ground arith;
  sampling = λ h. omega arith;
}

-- Pin 3 leaves the selection.
handle_stream_select_lem_example :
    let (accepted, after) = handle_stream_select device 0 3 in
    (accepted ≡ selects device 0 3)
    × IsSelection after.stream
    × (selected after.stream
        ≡ (if accepted then reselect 0 3 (selected device.stream) else selected device.stream))
handle_stream_select_lem_example = handle_stream_select_lem device 0 3 stream-IsSelection

-- PIN_MODE of pin 0 and a RESET after begin().
abbrev run : Reachable board core (
  (handle_setup board
      (handle_setup board (begin board initial) 0x40 2 1 0 0 0 0).2
      0x40
      0x7f
      0
      0
      0
      0
      0).2,
  0,
)
run =
    next (next (booted 0) (request (begin board initial) 0 0x40 2 1 0 0 0 0))
      (request (handle_setup board (begin board initial) 0x40 2 1 0 0 0 0).2 0 0x40 0x7f 0 0 0 0 0)

reachable-IsConsistent_example :
    let d =
      (handle_setup board
        (handle_setup board (begin board initial) 0x40 2 1 0 0 0 0).2
        0x40
        0x7f
        0
        0
        0
        0
        0).2 in
    IsConsistent d × (busy (poll board core (d, 0)).0 ≡ false)
reachable-IsConsistent_example = reachable-IsConsistent board core board-IsSound run
