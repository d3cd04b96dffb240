-- ===== src/Firmware/Poll.antt =====
-- The loop() side of src/UsbIo.cpp: poll, execute, apply_mode, apply_reset, refresh_shadow, read_pin
-- and read_analog. poll is modelled between two requests; its do-while also with requests at the end of
-- a round.
pub mod Cancel
pub mod Drain
pub mod Shadow
pub mod Settle
use arduino_driver.Prelude.{
  ℕ, zero, suc, ◌+◌, ◌-◌, ◌*◌, ◌%◌, ◌^◌, not, u8, ltb, ◌==◌, if◌then◌else◌, set, List, [], ◌∷◌,
}
use arduino_driver.Prelude.Loop.{for_range}
use arduino_driver.Protocol.Caps
use arduino_driver.Protocol.Mode
use arduino_driver.Protocol.Request.{Request}
use arduino_driver.Firmware.Board.{Board, Core, PadMode, Reading, negative, reading}
use arduino_driver.Firmware.Modes.{mode_is_input}
use arduino_driver.Firmware.Ring.{front, advance, pending}
use arduino_driver.Firmware.State.{Device, Command, zeroed_command, caps_of, mode_of}

module _ (b : Board) (c : Core) where
  open c use {World}

  -- The device beside the hardware.
  abbrev pub State : Type 0
  State = Device × World

  unfoldable pub read_pin : ℕ → World → ℕ × World
  read_pin pin w = let (high, w') = c.digital_read pin w in (if high then 1 else 0, w')

  abbrev pub clamp_reading : Reading → ℕ
  clamp_reading negative = 0
  clamp_reading (reading v) = if ltb 0xffff v then 0xffff else v

  unfoldable pub read_analog : ℕ → World → ℕ × World
  read_analog pin w = let (v, w') = c.analog_read pin w in (clamp_reading v, w')

  -- `_dio[pin] = read_pin(pin)`
  unfoldable pub sample_dio : ℕ → State → State
  sample_dio pin (d, w) =
      let (level, w') = read_pin pin w in (record d { dio = set d.dio pin level }, w')

  unfoldable pub sample_ain : ℕ → State → State
  sample_ain pin (d, w) =
      let (value, w') = read_analog pin w in (record d { ain = set d.ain pin value }, w')

  abbrev pub set_pad : ℕ → PadMode → State → State
  set_pad pin m (d, w) = sample_dio pin (d, c.pin_mode pin m w)

  unfoldable pub apply_mode : ℕ → ℕ → State → State
  apply_mode pin mode (d, w) =
      if mode == Mode.input
      then set_pad pin PadMode.input (d, w)
      else if mode == Mode.output
      then set_pad pin PadMode.output (d, w)
      else if mode == Mode.input_pullup
      then set_pad pin PadMode.input_pullup (d, w)
      else if mode == Mode.input_pulldown
      then set_pad pin (if b.has_pulldown then PadMode.input_pulldown else PadMode.input) (d, w)
      else if mode == Mode.analog_in
      then sample_ain pin (d, w)
      else if mode == Mode.pwm
      then (d, c.analog_write pin 0 w)
      else if mode == Mode.dac
      then (d, c.analog_write pin 0 w)
      else (d, w)

  -- The switch over the queued command.
  unfoldable pub execute_as : Request → Command → State → State
  execute_as Request.pin_mode cmd (d, w) = apply_mode cmd.pin (u8 cmd.value) (d, w)
  execute_as Request.dio_write cmd (d, w) =
      let high = not (cmd.value == 0) in
      (record d { dio = set d.dio cmd.pin (if high then 1 else 0) }, c.digital_write cmd.pin high w)
  execute_as Request.pwm_write cmd (d, w) = (d, c.analog_write cmd.pin cmd.value w)
  execute_as Request.dac_write cmd (d, w) =
      (d, c.analog_write cmd.pin (cmd.value * 2 ^ (b.pwm_bits - b.dac_bits)) w)
  execute_as _ cmd s = s

  unfoldable pub execute : Command → State → State
  execute cmd s = execute_as cmd.cmd cmd s

  unfoldable pub reset_pin : ℕ → State → State
  reset_pin pin (d, w) =
      let (d', w') =
        if Caps.any_of (caps_of d pin) Caps.dio
        then sample_dio pin (d, c.pin_mode pin PadMode.input w)
        else (record d { dio = set d.dio pin 0 }, w) in
      (record d' { ain = set d'.ain pin 0 }, w')

  unfoldable pub apply_reset : State → State
  apply_reset (d, w) =
      let (d', w') = for_range 0 d.n_pins reset_pin (d, w) in (record d' { ain_cursor = 0 }, w')

  -- `while (_reset_done != _reset_requests)`, at most `fuel` rounds.
  unfoldable pub reset_loop : ℕ → State → State
  reset_loop zero s = s
  reset_loop (suc fuel) (d, w) =
      let (d', w') = apply_reset (d, w) in
      let rest = reset_loop fuel (record d' { reset_done = d.reset_requests }, w') in
      if d.reset_done == d.reset_requests then (d, w) else rest

  -- One command leaves the queue, and runs if no RESET came after it.
  unfoldable pub drain_one : State → State
  drain_one (d, w) =
      let cmd = front zeroed_command d.commands in
      let d' = record d { commands = advance d.commands } in
      if cmd.epoch == d.epoch then execute cmd (d', w) else (d', w)

  -- `while (_tail != _head)` makes `(uint8_t)(head - tail)` rounds.
  unfoldable pub drain_loop : ℕ → State → State
  drain_loop zero s = s
  drain_loop (suc rounds) s = drain_loop rounds (drain_one s)

  unfoldable pub drain : State → State
  drain (d, w) = drain_loop (pending d.commands) (d, w)

  -- What the requests that are handled at the end of a round do to the device.
  abbrev pub arrive : List (Device → Device) → Device → Device
  arrive [] d = d
  arrive (request ∷ requests) d = request d

  abbrev pub later : List (Device → Device) → List (Device → Device)
  later [] = []
  later (request ∷ requests) = requests

  -- `do { … } while (_reset_done != _reset_requests)`, at most `fuel` rounds. The requests of the first round,
  -- of the second, … are handled between the round's drain and its test.
  unfoldable pub settle_under : List (Device → Device) → ℕ → State → State
  settle_under requests zero s = s
  settle_under requests (suc fuel) s =
      let (d, w) = drain (reset_loop 2 s) in
      let d' = arrive requests d in
      let rest = settle_under (later requests) fuel (d', w) in
      if d'.reset_done == d'.reset_requests then (d', w) else rest

  -- Without requests in between.
  abbrev pub settle : ℕ → State → State
  settle = settle_under []

  unfoldable pub refresh_pin : ℕ → State → State
  refresh_pin pin (d, w) = if mode_is_input (mode_of d pin) then sample_dio pin (d, w) else (d, w)

  -- At most one conversion: the cursor moves to the next pin in ANALOG_IN mode, and past it.
  unfoldable pub analog_loop : ℕ → State → State
  analog_loop zero s = s
  analog_loop (suc n) (d, w) =
      let pin = d.ain_cursor in
      let d' = record d { ain_cursor = u8 ((pin + 1) % d.n_pins) } in
      let rest = analog_loop n (d', w) in
      if mode_of d pin == Mode.analog_in then sample_ain pin (d', w) else rest

  unfoldable pub refresh_shadow : State → State
  refresh_shadow (d, w) =
      if d.n_pins == 0
      then (d, w)
      else analog_loop d.n_pins (for_range 0 d.n_pins refresh_pin (d, w))
