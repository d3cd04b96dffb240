-- ===== src/Tests/Watcher.antt =====
-- An EventWatcher on the device of Fixtures.
use arduino_driver.Prelude.{
  ◌+◌, ◌≤◌, ◌≡◌, ◌≢◌, refl, sym, ◌∙◌, some, List, [], ◌∷◌, ◌++◌, map, min, length, arith,
}
use arduino_driver.Prelude.Signed.{pos}
use arduino_driver.Protocol.Caps
use arduino_driver.Protocol.Decode.{PinEvent}
use arduino_driver.Protocol.Edge
use arduino_driver.Protocol.Errors.{DriverError, Result, ok, err, invalid_pin}
use arduino_driver.Protocol.Features
use arduino_driver.Protocol.Request
use arduino_driver.Protocol.Sizes.{encode_event_config_value}
use arduino_driver.Firmware.Modes.{mode_is_input}
use arduino_driver.Firmware.Out.{handle_out, dispatch_out}
use arduino_driver.Firmware.Setup.{handle_setup}
use arduino_driver.Firmware.Watch.{
  handle_event_config, arm_or_full, event_watch_index, watch_index_from, arm, event_off, unwatch,
  discard_events_for_pin, discard_loop, discard_at,
}
use arduino_driver.Host.Driver.{check_not_streaming, require_events, pin_caps}
use arduino_driver.Host.Driver.Events.{configure_event}
use arduino_driver.Host.Exec.{attempt_all, best_efforts}
use arduino_driver.Host.Transfers.{send_out, after_out}
use arduino_driver.Firmware.Reply.{info_of}
use arduino_driver.Firmware.Watch.Table.{slots_of}
use arduino_driver.Host.Driver.Events.Configure.{IsAttached}
use arduino_driver.Host.Driver.Events.Pop.{queued}
use arduino_driver.Host.Driver.Events.Entries.{seen}
use arduino_driver.Host.Transfers.Refusal.{usb}
use arduino_driver.Host.Watcher.{
  WatchedPin, Watching, u64, arm_pin, disarm_pin, arm_pins, worker_pass,
}
use arduino_driver.Host.Watcher.Delivery.{called, worker_pass_lem}
use arduino_driver.Host.Watcher.Rollback.{arm_pins_lem}
use arduino_driver.Tests.Driver.{options, quiet, driver, quiet-IsValid}
use arduino_driver.Tests.Fixtures.{board}
use arduino_driver.Tests.Invariant.{events-IsTable}

driver-IsAttached : IsAttached driver driver
unfolding Features.has_events Caps.any_of info_of
driver-IsAttached = record {
  idle = refl;
  eventful = refl;
  caps = refl;
  pins = refl;
  few = omega arith;
  table = events-IsTable;
}

-- Pin 0 is watched again, and the board has no pin 9.
abbrev wrong_pins : List WatchedPin
wrong_pins =
    record { pin = 0; edge = Edge.rising; debounce = pos 5 }
    ∷ record { pin = 9; edge = Edge.rising; debounce = pos 5 }
    ∷ []

wrong_pins_throw : (arm_pins (usb board 5 5000) options wrong_pins driver).0 ≡ err invalid_pin
unfolding arm_pins attempt_all best_efforts arm_pin disarm_pin configure_event check_not_streaming
    require_events pin_caps Features.has_events Caps.any_of info_of encode_event_config_value
    send_out after_out handle_setup handle_out dispatch_out Request.of_code handle_event_config
    arm_or_full event_watch_index watch_index_from arm event_off unwatch discard_events_for_pin
    discard_loop discard_at mode_is_input
wrong_pins_throw = refl

throws_not_ok : (e : DriverError) → let thrown : Result (Unit {0}) = err e in thrown ≢ ok tt
throws_not_ok e h = ground arith

arm_pins_lem_example :
    slots_of (arm_pins (usb board 5 5000) options wrong_pins driver).1.link.events 1
    ≤ slots_of driver.link.events 1
arm_pins_lem_example =
    arm_pins_lem board options 5 5000 driver wrong_pins 1 driver-IsAttached
      (λ e. throws_not_ok invalid_pin (sym wrong_pins_throw ∙ e))

-- A callback that keeps what it is given.
abbrev keep : PinEvent → List PinEvent → List PinEvent
keep e events = events ++ e ∷ []

abbrev watching : Watching (usb board 5 5000) options (List PinEvent)
watching = record {
  device = driver;
  stats = record { events_delivered = 10; dropped = 2 };
  world = [];
}

worker_pass_lem_example :
    let after = worker_pass (usb board 5 5000) options (some keep) 5 watching in
    let events = map seen (queued quiet) in
    (after.world ≡ called board options 5 5000 keep events [])
    × (after.stats.events_delivered ≡ u64 (10 + length events))
    × (after.stats.dropped ≡ u64 (2 + min 255 1))
    × (queued after.device.link ≡ [])
unfolding Features.has_events Caps.any_of info_of
worker_pass_lem_example =
    worker_pass_lem board options 5 5000 keep 5 watching refl refl quiet-IsValid (omega arith)
      (omega arith) (omega arith)
