-- ===== src/Tests/Fixtures.antt =====
-- A four-pin board with one analog pin, a device on it, and hardware whose state is a clock.
use arduino_driver.Prelude.{
  arith, ℕ, suc, true, false, [], ◌∷◌, ◌==◌, ltb, ◌+◌, ◌*◌, ◌%◌, ◌^◌, set, replicate,
}
use arduino_driver.Protocol.Edge
use arduino_driver.Protocol.Mode
use arduino_driver.Protocol.Request
use arduino_driver.Firmware.Board.{Board, Core, IsSound, reading, sent}
use arduino_driver.Firmware.Ring.{Ring}
use arduino_driver.Firmware.State.{
  Device, Command, Event, EventWatch, zeroed_command, zeroed_event, zeroed_watch, zeroed_record,
}

abbrev pub board : Board
board = record {
  board_id = 0x0101;
  adc_bits = 14;
  pwm_bits = 12;
  dac_bits = 12;
  vref_mv = 5000;
  io_mv = 5000;
  has_pulldown = false;
  pin_count = 4;
  pin_has_dio = λ p. ltb p 3;
  pin_has_ain = λ p. p == 3;
  pin_has_pwm = λ p. p == 1;
  pin_has_dac = λ p. p == 3;
  has_stream_transport = true;
  transport_flags = 4;
}

-- The clock ticks at each call; pin 2 is high, and the analog pin reads 700.
abbrev pub core : Core
core = record {
  World = ℕ;
  pin_mode = λ p m w. suc w;
  digital_write = λ p v w. suc w;
  analog_write = λ p v w. suc w;
  digital_read = λ p w. (p == 2, suc w);
  analog_read = λ p w. (reading 700, suc w);
  millis = λ w. (w % 2 ^ 32, suc w);
  micros = λ w. (w * 1000 % 2 ^ 32, suc w);
  stream_packet_max = λ w. 63;
  stream_write = λ bytes w. (sent, suc w);
}

abbrev pub press : ℕ → ℕ → Event
press pin seq = record { pin = pin; edge = Edge.rising; seq = seq; t_ms = 100 + seq }

-- Three events round the end of the ring: pins 2, 0 and 2.
abbrev pub three_events : Ring Event
three_events = record {
  slots = set (set (set (replicate 32 zeroed_event) 30 (press 2 1)) 31 (press 0 1)) 0 (press 2 2);
  head = 33;
  tail = 30;
}

abbrev pub watched : ℕ → EventWatch
watched pin = record zeroed_watch {
  pin = pin;
  active = true;
  edge_mode = Edge.change;
  arm_seq = suc pin;
  seen_seq = suc pin;
}

abbrev pub output_command : Command
output_command = record { cmd = Request.pin_mode; pin = 1; epoch = 0; value = Mode.output }

-- Pin 0 and 2 are watched inputs, pin 1 an output whose PIN_MODE still waits, pin 3 an analog input.
abbrev pub device : Device
device = record {
  n_pins = 4;
  n_ain = 1;
  flags = 12;
  caps = set (set (set (set (replicate 128 0) 0 1) 1 5) 2 1) 3 10;
  mode =
      set (set (set (set (replicate 128 Mode.none) 0 Mode.input) 1 Mode.output) 2 Mode.input_pullup)
        3 Mode.analog_in;
  dio = set (replicate 128 0) 2 1;
  ain = set (replicate 128 0) 3 600;
  commands = record {
    slots = set (replicate 32 zeroed_command) 0 output_command;
    head = 1;
    tail = 0;
  };
  epoch = 0;
  reset_requests = 0;
  reset_done = 0;
  last_error = 0;
  ain_cursor = 0;
  events = record {
    watch = watched 0 ∷ watched 2 ∷ replicate 6 zeroed_watch;
    n_watched = 2;
    arm_seq = 3;
    ring = three_events;
    dropped = 1;
  };
  stream = record {
    channels = 3 ∷ 2 ∷ replicate 6 0;
    n_channels = 2;
    running = false;
    flags = 1;
    period_us = 0;
    seq = 0;
    overruns = 0;
    start_requests = 0;
    start_done = 0;
    deadline_us = 0;
    ring = record { slots = replicate 32 zeroed_record; head = 0; tail = 0 };
    tx_failures = 0;
    packet = [];
    packet_records = 0;
    record_len = 0;
    packet_since_us = 0;
  };
}

pub board-IsSound : IsSound board
board-IsSound = record {
  board_id_word = omega arith;
  adc_bits_byte = omega arith;
  pwm_bits_byte = omega arith;
  dac_bits_le = omega arith;
  vref_word = omega arith;
  io_word = omega arith;
  pins_fit = omega arith;
}
