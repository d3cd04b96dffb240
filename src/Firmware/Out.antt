-- ===== src/Firmware/Out.antt =====
-- UsbIoDevice::handle_out of src/UsbIo.cpp: validation of an OUT request, in the code's order.
use arduino_driver.Prelude.{
  ℕ, true, false, ◌&&◌, not, Option, none, some, u8, leb, ltb, ◌==◌, if◌then◌else◌, set,
}
use arduino_driver.Protocol.Mode
use arduino_driver.Protocol.Request
use arduino_driver.Protocol.Request.{Request}
use arduino_driver.Protocol.Status
use arduino_driver.Firmware.Board.{Board}
use arduino_driver.Firmware.Modes.{full_scale, mode_allowed, mode_is_input}
use arduino_driver.Firmware.Queue.{Outcome, stall, enqueue, request_reset}
use arduino_driver.Firmware.Select.{
  stream_channel_index, handle_stream_select, handle_stream_start, handle_stream_stop,
}
use arduino_driver.Firmware.State.{Device, Events, Streaming, caps_of, mode_of}
use arduino_driver.Firmware.Watch.{event_watch_index, unwatch, handle_event_config}

-- `enqueue(…) ? true : stall(USBIO_QUEUE_FULL)`
unfoldable pub enqueue_or_stall : Device → Request → ℕ → ℕ → Outcome
enqueue_or_stall d cmd pin value =
    let (queued, d') = enqueue d cmd pin value in
    if queued then (true, d') else stall d Status.queue_full

-- A running stream stops if `pin` is one of its channels.
unfoldable pub stop_if_selected : Board → Streaming → ℕ → Streaming
stop_if_selected b s pin =
    if b.has_stream_transport && s.running
    then elim (stream_channel_index s pin) [ none ↦ s | some i ↦ record s { running = false } ]
    else s

-- A watched pin that leaves the input modes is no longer watched.
unfoldable pub unwatch_if_output : Events → ℕ → ℕ → Events
unwatch_if_output e pin mode =
    if mode_is_input mode
    then e
    else elim (event_watch_index e pin) [ none ↦ e | some idx ↦ unwatch e idx ]

-- What an accepted PIN_MODE does besides being queued.
unfoldable pub record_intent : Board → Device → ℕ → ℕ → Device
record_intent b d pin mode = record d {
  mode = set d.mode pin mode;
  stream = stop_if_selected b d.stream pin;
  events = unwatch_if_output d.events pin mode;
}

unfoldable pub handle_pin_mode : Board → Device → ℕ → ℕ → Outcome
handle_pin_mode b d pin w_value =
    let (queued, d') = enqueue d Request.pin_mode pin w_value in
    if leb Mode.count w_value
    then stall d Status.bad_value
    else if not (mode_allowed b (caps_of d pin) (u8 w_value))
    then stall d Status.unsupported
    else if not queued
    then stall d Status.queue_full
    else (true, record_intent b d' pin (u8 w_value))

unfoldable pub handle_dio_write : Device → ℕ → ℕ → Outcome
handle_dio_write d pin w_value =
    if not (mode_of d pin == Mode.output)
    then stall d Status.bad_mode
    else enqueue_or_stall d Request.dio_write pin (if w_value == 0 then 0 else 1)

unfoldable pub handle_pwm_write : Board → Device → ℕ → ℕ → Outcome
handle_pwm_write b d pin w_value =
    if not (mode_of d pin == Mode.pwm)
    then stall d Status.bad_mode
    else if ltb (full_scale b.pwm_bits) w_value
    then stall d Status.bad_value
    else enqueue_or_stall d Request.pwm_write pin w_value

unfoldable pub handle_dac_write : Board → Device → ℕ → ℕ → Outcome
handle_dac_write b d pin w_value =
    if not (mode_of d pin == Mode.dac)
    then stall d Status.bad_mode
    else if ltb (full_scale b.dac_bits) w_value
    then stall d Status.bad_value
    else enqueue_or_stall d Request.dac_write pin w_value

-- The pin check that the requests below share.
abbrev pub on_pin : Device → ℕ → (ℕ → Outcome) → Outcome
on_pin d w_index handle =
    if leb d.n_pins w_index then stall d Status.bad_pin else handle (u8 w_index)

abbrev pub if_streaming : Board → Device → Outcome → Outcome
if_streaming b d handled = if b.has_stream_transport then handled else stall d Status.unsupported

-- The switch over bRequest; `none` and the IN requests take its default case.
unfoldable pub dispatch_out : Board → Device → Option Request → ℕ → ℕ → Outcome
dispatch_out b d (some Request.reset) w_value w_index = (true, request_reset b d)
dispatch_out b d (some Request.stream_select) w_value w_index =
    if_streaming b d (handle_stream_select d w_value w_index)
dispatch_out b d (some Request.stream_start) w_value w_index =
    if_streaming b d (handle_stream_start d w_value w_index)
dispatch_out b d (some Request.stream_stop) w_value w_index =
    if_streaming b d (handle_stream_stop d)
dispatch_out b d (some Request.pin_mode) w_value w_index =
    on_pin d w_index (λ pin. handle_pin_mode b d pin w_value)
dispatch_out b d (some Request.dio_write) w_value w_index =
    on_pin d w_index (λ pin. handle_dio_write d pin w_value)
dispatch_out b d (some Request.pwm_write) w_value w_index =
    on_pin d w_index (λ pin. handle_pwm_write b d pin w_value)
dispatch_out b d (some Request.dac_write) w_value w_index =
    on_pin d w_index (λ pin. handle_dac_write b d pin w_value)
dispatch_out b d (some Request.event_config) w_value w_index =
    on_pin d w_index (λ pin. handle_event_config d pin w_value)
dispatch_out b d _ w_value w_index = stall d Status.bad_cmd

unfoldable pub handle_out : Board → Device → ℕ → ℕ → ℕ → ℕ → Outcome
handle_out b d b_request w_value w_index w_length =
    if not (w_length == 0)
    then stall d Status.bad_cmd
    else dispatch_out b d (Request.of_code b_request) w_value w_index
