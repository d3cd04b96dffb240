-- ===== src/Firmware/State.antt =====
-- The state of the firmware: UsbIoDevice and its nested structs (src/UsbIo.h), the event struct of
-- src/usbio_protocol.h, and the constructor (src/UsbIo.cpp). Arrays are lists of their fixed length.
-- The scratch buffer _reply is not state: each handler returns the bytes that it puts there.
use arduino_driver.Prelude.{ℕ, Bool, false, List, [], get_or, replicate}
use arduino_driver.Protocol.Limit
use arduino_driver.Protocol.Mode
use arduino_driver.Protocol.Status
use arduino_driver.Protocol.Request.{Request}
use arduino_driver.Firmware.Ring.{Ring}

pub record Command : Type 0 where
  pub cmd : Request
  pub pin : ℕ
  pub epoch : ℕ
  pub value : ℕ

-- usbio_event_t
pub record Event : Type 0 where
  pub pin : ℕ
  pub edge : ℕ
  pub seq : ℕ
  pub t_ms : ℕ

pub record EventWatch : Type 0 where
  pub pin : ℕ
  pub active : Bool
  pub edge_mode : ℕ
  pub debounce_ms : ℕ
  pub arm_seq : ℕ
  pub seen_seq : ℕ
  pub prev_level : ℕ
  pub debounce_until : ℕ
  pub count : ℕ

pub record StreamRecord : Type 0 where
  pub len : ℕ
  pub bytes : List ℕ

-- The fields of UsbIoDevice named _event_...
pub record Events : Type 0 where
  pub watch : List EventWatch
  pub n_watched : ℕ
  pub arm_seq : ℕ
  pub ring : Ring Event
  pub dropped : ℕ

-- The fields named _stream_...; `packet` holds the first _stream_packet_len bytes of the buffer.
pub record Streaming : Type 0 where
  pub channels : List ℕ
  pub n_channels : ℕ
  pub running : Bool
  pub flags : ℕ
  pub period_us : ℕ
  pub seq : ℕ
  pub overruns : ℕ
  pub start_requests : ℕ
  pub start_done : ℕ
  pub deadline_us : ℕ
  pub ring : Ring StreamRecord
  pub tx_failures : ℕ
  pub packet : List ℕ
  pub packet_records : ℕ
  pub record_len : ℕ
  pub packet_since_us : ℕ

pub record Device : Type 0 where
  pub n_pins : ℕ
  pub n_ain : ℕ
  pub flags : ℕ
  pub caps : List ℕ
  pub mode : List ℕ
  pub dio : List ℕ
  pub ain : List ℕ
  pub commands : Ring Command
  pub epoch : ℕ
  pub reset_requests : ℕ
  pub reset_done : ℕ
  pub last_error : ℕ
  pub ain_cursor : ℕ
  pub events : Events
  pub stream : Streaming

abbrev pub event_tombstone : ℕ
event_tombstone = 255

abbrev pub stream_ring_depth : ℕ
stream_ring_depth = 32

abbrev pub stream_tx_failure_limit : ℕ
stream_tx_failure_limit = 3

abbrev pub stream_flush_us : ℕ
stream_flush_us = 2000

-- Slots as `memset(…, 0, …)` leaves them; a zeroed command's code is that of GET_INFO.
abbrev pub zeroed_command : Command
zeroed_command = record { cmd = Request.get_info; pin = 0; epoch = 0; value = 0 }

abbrev pub zeroed_event : Event
zeroed_event = record { pin = 0; edge = 0; seq = 0; t_ms = 0 }

abbrev pub zeroed_watch : EventWatch
zeroed_watch = record {
  pin = 0;
  active = false;
  edge_mode = 0;
  debounce_ms = 0;
  arm_seq = 0;
  seen_seq = 0;
  prev_level = 0;
  debounce_until = 0;
  count = 0;
}

abbrev pub zeroed_record : StreamRecord
zeroed_record = record { len = 0; bytes = [] }

-- The constructor UsbIoDevice::UsbIoDevice.
unfoldable pub initial_events : Events
initial_events = record {
  watch = replicate Limit.max_event_pins zeroed_watch;
  n_watched = 0;
  arm_seq = 0;
  ring = record { slots = replicate Limit.event_queue_depth zeroed_event; head = 0; tail = 0 };
  dropped = 0;
}

unfoldable pub initial_stream : Streaming
initial_stream = record {
  channels = replicate Limit.max_stream_channels 0;
  n_channels = 0;
  running = false;
  flags = 0;
  period_us = 0;
  seq = 0;
  overruns = 0;
  start_requests = 0;
  start_done = 0;
  deadline_us = 0;
  ring = record { slots = replicate stream_ring_depth zeroed_record; head = 0; tail = 0 };
  tx_failures = 0;
  packet = [];
  packet_records = 0;
  record_len = 0;
  packet_since_us = 0;
}

unfoldable pub initial : Device
unfolding initial_events initial_stream
initial = record {
  n_pins = 0;
  n_ain = 0;
  flags = 0;
  caps = replicate Limit.max_pins 0;
  mode = replicate Limit.max_pins Mode.none;
  dio = replicate Limit.max_pins 0;
  ain = replicate Limit.max_pins 0;
  commands = record { slots = replicate Limit.queue_depth zeroed_command; head = 0; tail = 0 };
  epoch = 0;
  reset_requests = 0;
  reset_done = 0;
  last_error = Status.ok;
  ain_cursor = 0;
  events = initial_events;
  stream = initial_stream;
}

-- Array reads. The handlers read at pins below `n_pins` only.
abbrev pub caps_of : Device → ℕ → ℕ
caps_of d pin = get_or d.caps pin 0

abbrev pub mode_of : Device → ℕ → ℕ
mode_of d pin = get_or d.mode pin Mode.none

abbrev pub dio_of : Device → ℕ → ℕ
dio_of d pin = get_or d.dio pin 0

abbrev pub ain_of : Device → ℕ → ℕ
ain_of d pin = get_or d.ain pin 0
