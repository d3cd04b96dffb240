-- ===== src/Tests/Driver.antt =====
-- The host's Device over a cable to the device of Fixtures.
use arduino_driver.Prelude.{
  ℕ, zero, suc, ◌<◌, ◌≡◌, refl, false, [], ◌∷◌, map, min, u16, get_or, arith,
}
use arduino_driver.Protocol.Caps
use arduino_driver.Protocol.Errors.{ok}
use arduino_driver.Protocol.Features
use arduino_driver.Protocol.Mode
use arduino_driver.Protocol.Request
use arduino_driver.Firmware.Queue.{busy}
use arduino_driver.Firmware.Reply.{info_of}
use arduino_driver.Firmware.Reply.Bitmap.{get_or-zeros}
use arduino_driver.Firmware.Ring.{IsValid}
use arduino_driver.Firmware.State.{Device, caps_of}
use arduino_driver.Host.Driver.{Driver, Options, send}
use arduino_driver.Host.Driver.Events.{poll_events}
use arduino_driver.Host.Driver.Events.Drain.{poll_events_lem}
use arduino_driver.Host.Driver.Events.Pop.{queued, popped}
use arduino_driver.Host.Driver.Events.Entries.{seen}
use arduino_driver.Host.Driver.Mirror.{IsMirror, ain_pins}
use arduino_driver.Host.Driver.Open.{open_device}
use arduino_driver.Host.Driver.Open.Handshake.{IsBegun, open_device_lem}
use arduino_driver.Host.Driver.Pins.{pin_mode, read_all_digital, read_all_analog}
use arduino_driver.Host.Driver.Pins.Levels.{levels, read_all_digital_lem}
use arduino_driver.Host.Driver.Pins.Modes.{
  answer, refusal, over, sent_unless, modes_after, pin_mode_lem,
}
use arduino_driver.Host.Driver.Pins.Samples.{sample_of, read_all_analog_lem}
use arduino_driver.Host.Transfers.Refusal.{usb}
use arduino_driver.Tests.Fixtures.{board, device, board-IsSound}

abbrev pub options : Options
options = record { busy_max_attempts = 3; ready_max_attempts = 3 }

-- The device when its last command has run.
abbrev pub quiet : Device
quiet = record device { commands = record (device.commands) { tail = 1 } }

abbrev pub driver : Driver Device
driver = record {
  info = info_of board quiet;
  caps = 1 ∷ 5 ∷ 1 ∷ 10 ∷ [];
  analog_pins = 3 ∷ [];
  streaming = false;
  selected = [];
  link = quiet;
}

pub driver-IsMirror : IsMirror board driver
unfolding info_of Features.supports_pulldown Caps.any_of
driver-IsMirror = record {
  info = refl;
  pins = refl;
  few = omega arith;
  caps = same;
  pulldown = refl;
  analog = refl;
  nibbles = small;
}
  where
    same : (pin : ℕ) → pin < 4 → get_or driver.caps pin 0 ≡ caps_of quiet pin
    same zero h = refl
    same (suc zero) h = refl
    same (suc (suc zero)) h = refl
    same (suc (suc (suc zero))) h = refl
    same (suc (suc (suc (suc pin)))) h = absurd (omega arith)

    small : (pin : ℕ) → pin < 4 → caps_of quiet pin < 16
    small zero h = omega arith
    small (suc zero) h = omega arith
    small (suc (suc zero)) h = omega arith
    small (suc (suc (suc zero))) h = omega arith
    small (suc (suc (suc (suc pin)))) h = absurd (omega arith)

-- PIN_MODE OUTPUT of pin 0.
pin_mode_lem_example :
    let (result, after) = pin_mode (usb board 5 5000) options 0 Mode.output driver in
    (result ≡ answer board quiet 0 Mode.output)
    × (after.link.mode ≡ modes_after (answer board quiet 0 Mode.output) quiet.mode 0 Mode.output)
    × (pin_mode (usb board 5 5000) options 0 Mode.output (over driver quiet)
        ≡ sent_unless
            (refusal board quiet 0 Mode.output)
            (send (usb board 5 5000) options Request.pin_mode Mode.output 0)
            (over driver quiet))
pin_mode_lem_example =
    pin_mode_lem board options 0 Mode.output driver driver-IsMirror refl 5 5000 (usb board 5 5000)
      quiet

read_all_digital_lem_example :
    read_all_digital (usb board 5 5000) options driver ≡ (ok (levels quiet 0 4), driver)
unfolding busy
read_all_digital_lem_example =
    read_all_digital_lem board options 5 5000 driver driver-IsMirror refl refl

read_all_analog_lem_example :
    read_all_analog (usb board 5 5000) options driver
    ≡ (ok (map u16 (map (sample_of quiet) (ain_pins quiet 0 4))), driver)
unfolding busy
read_all_analog_lem_example =
    read_all_analog_lem board options 5 5000 driver driver-IsMirror refl refl

quiet-IsBegun : IsBegun board quiet
unfolding Caps.any_of
quiet-IsBegun = record {
  sound = board-IsSound;
  flags = omega arith;
  some_pins = omega arith;
  few = omega arith;
  room = omega arith;
  few_ain = omega arith;
  analog = refl;
  nibbles = small;
  pulldown = refl;
}
  where
    small : (pin : ℕ) → caps_of quiet pin < 16
    small zero = omega arith
    small (suc zero) = omega arith
    small (suc (suc zero)) = omega arith
    small (suc (suc (suc zero))) = omega arith
    small (suc (suc (suc (suc pin)))) = omega (arith, get_or-zeros 124 pin)

open_device_lem_example :
    let (result, d) = open_device (usb board 5 5000) options quiet in
    (result ≡ ok tt)
    × IsMirror board d
    × (d.analog_pins ≡ ain_pins quiet 0 4)
    × (d.link ≡ quiet)
    × (d.streaming ≡ false)
    × (d.selected ≡ [])
open_device_lem_example = open_device_lem board options 5 5000 quiet quiet-IsBegun

pub quiet-IsValid : IsValid quiet.events.ring
quiet-IsValid = record {
  full_length = refl;
  head_byte = omega arith;
  tail_byte = omega arith;
  bounded = omega arith;
}

-- Three events, and one that was dropped.
poll_events_lem_example :
    let (result, after) = poll_events (usb board 5 5000) options 5 driver in
    (result
      ≡ ok (record { events = map seen (queued quiet); dropped = min 255 1; pending = false }))
    × (queued after.link ≡ [])
    × (after ≡ popped driver after.link.events.ring)
    × IsValid after.link.events.ring
unfolding Features.has_events Caps.any_of info_of
poll_events_lem_example =
    poll_events_lem board options 5 5000 5 driver refl refl quiet-IsValid (omega arith)
