-- ===== src/Firmware/Queue.antt =====
-- The command queue, the error record and RESET on the interrupt side of src/UsbIo.cpp: stall,
-- queue_pending, busy, enqueue and request_reset.
pub mod Fifo
use arduino_driver.Prelude.{
  ℕ, ◌+◌, Bool, true, false, ◌||◌, not, List, map, u8, ◌==◌, if◌then◌else◌, set,
}
use arduino_driver.Prelude.Loop.{for_range}
use arduino_driver.Protocol.Caps
use arduino_driver.Protocol.Mode
use arduino_driver.Protocol.Request.{Request}
use arduino_driver.Firmware.Board.{Board}
use arduino_driver.Firmware.Ring.{pending, is_full, put}
use arduino_driver.Firmware.State.{Device, Events, Streaming, EventWatch, caps_of}

-- A handler's answer (false is a STALL) and the state that it leaves.
abbrev pub Outcome : Type 0
Outcome = Bool × Device

unfoldable pub stall : Device → ℕ → Outcome
stall d reason = (false, record d { last_error = reason })

abbrev pub queue_pending : Device → ℕ
queue_pending d = pending d.commands

unfoldable pub busy : Device → Bool
busy d = not (queue_pending d == 0) || not (d.reset_done == d.reset_requests)

unfoldable pub enqueue : Device → Request → ℕ → ℕ → Outcome
enqueue d cmd pin value = if is_full d.commands then (false, d) else (
  true,
  record d {
    commands = put d.commands (record { cmd = cmd; pin = pin; epoch = d.epoch; value = value });
  },
)

-- The mode that RESET intends for a pin.
abbrev pub reset_mode : Device → ℕ → ℕ
reset_mode d pin = if Caps.any_of (caps_of d pin) Caps.dio then Mode.input else Mode.none

unfoldable pub reset_modes : Device → List ℕ
reset_modes d = for_range 0 d.n_pins (λ pin modes. set modes pin (reset_mode d pin)) d.mode

abbrev pub deactivate : EventWatch → EventWatch
deactivate w = record w { active = false }

-- Every watch goes, and the queued events with them: the ISR owns `tail`.
unfoldable pub reset_events : Events → Events
reset_events e = record e {
  watch = map deactivate e.watch;
  n_watched = 0;
  ring = record (e.ring) { tail = e.ring.head };
  dropped = 0;
}

unfoldable pub halt_stream : Streaming → Streaming
halt_stream s = record s { running = false; n_channels = 0 }

unfoldable pub request_reset : Board → Device → Device
request_reset b d = record d {
  epoch = u8 (d.epoch + 1);
  mode = reset_modes d;
  stream = if b.has_stream_transport then halt_stream d.stream else d.stream;
  events = reset_events d.events;
  reset_requests = u8 (d.reset_requests + 1);
}

-- The hook of a transport that sees the connection go.
unfoldable pub handle_usb_disconnected : Board → Device → Device
handle_usb_disconnected b d = record d {
  stream = if b.has_stream_transport then halt_stream d.stream else d.stream;
}
