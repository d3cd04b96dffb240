-- ===== src/Firmware/Setup/Atomic.antt =====
-- A request that is refused leaves no trace but its reason: handle_setup of src/UsbIo.cpp and the
-- handlers below it.
use arduino_driver.Prelude.{
  ℕ, ◌≡◌, refl, ◌/◌, ◌%◌, false, Option, none, some, [], arith, u8, ◌==◌, if◌then◌else◌,
}
use arduino_driver.Protocol.Request
use arduino_driver.Protocol.Request.{Request}
use arduino_driver.Firmware.Board.{Board}
use arduino_driver.Firmware.Out.{
  handle_out, dispatch_out, handle_pin_mode, handle_dio_write, handle_pwm_write, handle_dac_write,
  enqueue_or_stall, on_pin, if_streaming,
}
use arduino_driver.Firmware.Queue.{Outcome, stall, enqueue}
use arduino_driver.Firmware.Reply.{Answer, handle_in, dispatch_in, finish, stalled, replied}
use arduino_driver.Firmware.Select.{
  handle_stream_select, handle_stream_start, handle_stream_stop, add_channel, remove_channel,
  stream_channel_index,
}
use arduino_driver.Firmware.Setup.{handle_setup}
use arduino_driver.Firmware.State.{Device}
use arduino_driver.Firmware.Watch.{handle_event_config, arm_or_full, event_watch_index}

-- `after` is `d` but for the recorded error.
abbrev pub OnlyError : Device → Device → Type 0
OnlyError d after = after ≡ record d { last_error = after.last_error }

abbrev Clean : Device → Outcome → Type 0
Clean d out = out.0 ≡ false → OnlyError d out.1

stall-Clean : (d : Device) (reason : ℕ) → Clean d (stall d reason)
unfolding stall
stall-Clean d reason h = refl

enqueue_or_stall-Clean :
    (d : Device) (cmd : Request) (pin value : ℕ) → Clean d (enqueue_or_stall d cmd pin value)
unfolding enqueue_or_stall enqueue stall
enqueue_or_stall-Clean d cmd pin value = ground arith

handle_pin_mode-Clean :
    (b : Board) (d : Device) (pin w_value : ℕ) → Clean d (handle_pin_mode b d pin w_value)
unfolding handle_pin_mode enqueue stall
handle_pin_mode-Clean b d pin w_value = ground arith

handle_dio_write-Clean : (d : Device) (pin w_value : ℕ) → Clean d (handle_dio_write d pin w_value)
unfolding handle_dio_write stall
handle_dio_write-Clean d pin w_value =
    ground (arith, enqueue_or_stall-Clean d Request.dio_write pin (if w_value == 0 then 0 else 1))

handle_pwm_write-Clean :
    (b : Board) (d : Device) (pin w_value : ℕ) → Clean d (handle_pwm_write b d pin w_value)
unfolding handle_pwm_write stall
handle_pwm_write-Clean b d pin w_value =
    ground (arith, enqueue_or_stall-Clean d Request.pwm_write pin w_value)

handle_dac_write-Clean :
    (b : Board) (d : Device) (pin w_value : ℕ) → Clean d (handle_dac_write b d pin w_value)
unfolding handle_dac_write stall
handle_dac_write-Clean b d pin w_value =
    ground (arith, enqueue_or_stall-Clean d Request.dac_write pin w_value)

arm_or_full-Clean :
    (d : Device) (pin edge debounce_ms : ℕ) (idx : Option ℕ)
    → Clean d (arm_or_full d pin edge debounce_ms idx)
unfolding arm_or_full stall
arm_or_full-Clean d pin edge debounce_ms (some idx) = λ h. cc
arm_or_full-Clean d pin edge debounce_ms none = ground arith

handle_event_config-Clean :
    (d : Device) (pin w_value : ℕ) → Clean d (handle_event_config d pin w_value)
unfolding handle_event_config stall
handle_event_config-Clean d pin w_value = ground (
  arith,
  arm_or_full-Clean d pin (w_value % 256) (u8 (w_value / 256)) (event_watch_index d.events pin),
)

add_channel-Clean : (d : Device) (pin : ℕ) (idx : Option ℕ) → Clean d (add_channel d pin idx)
unfolding add_channel stall
add_channel-Clean d pin (some idx) = λ h. cc
add_channel-Clean d pin none = ground arith

remove_channel-Clean : (d : Device) (idx : Option ℕ) → Clean d (remove_channel d idx)
unfolding remove_channel
remove_channel-Clean d (some idx) = λ h. cc
remove_channel-Clean d none = λ h. cc

handle_stream_select-Clean :
    (d : Device) (w_value w_index : ℕ) → Clean d (handle_stream_select d w_value w_index)
unfolding handle_stream_select stall
handle_stream_select-Clean d w_value w_index = ground (
  arith,
  add_channel-Clean d (u8 w_index) (stream_channel_index d.stream (u8 w_index)),
  remove_channel-Clean d (stream_channel_index d.stream (u8 w_index)),
)

handle_stream_start-Clean :
    (d : Device) (w_value w_index : ℕ) → Clean d (handle_stream_start d w_value w_index)
unfolding handle_stream_start stall
handle_stream_start-Clean d w_value w_index = ground arith

handle_stream_stop-Clean : (d : Device) → Clean d (handle_stream_stop d)
unfolding handle_stream_stop stall
handle_stream_stop-Clean d = ground arith

on_pin-Clean :
    (d : Device) (w_index : ℕ) (handle : ℕ → Outcome)
    → Clean d (handle (u8 w_index))
    → Clean d (on_pin d w_index handle)
unfolding stall
on_pin-Clean d w_index handle h = ground arith

if_streaming-Clean :
    (b : Board) (d : Device) (handled : Outcome)
    → Clean d handled
    → Clean d (if_streaming b d handled)
unfolding stall
if_streaming-Clean b d handled h = ground arith

dispatch_out-Clean :
    (b : Board) (d : Device) (request : Option Request) (w_value w_index : ℕ)
    → Clean d (dispatch_out b d request w_value w_index)
unfolding dispatch_out
dispatch_out-Clean b d (some Request.reset) w_value w_index = λ h. cc
dispatch_out-Clean b d (some Request.stream_select) w_value w_index =
    if_streaming-Clean b d _ (handle_stream_select-Clean d w_value w_index)
dispatch_out-Clean b d (some Request.stream_start) w_value w_index =
    if_streaming-Clean b d _ (handle_stream_start-Clean d w_value w_index)
dispatch_out-Clean b d (some Request.stream_stop) w_value w_index =
    if_streaming-Clean b d _ (handle_stream_stop-Clean d)
dispatch_out-Clean b d (some Request.pin_mode) w_value w_index =
    on_pin-Clean d w_index (λ pin. handle_pin_mode b d pin w_value)
      (handle_pin_mode-Clean b d (u8 w_index) w_value)
dispatch_out-Clean b d (some Request.dio_write) w_value w_index =
    on_pin-Clean d w_index (λ pin. handle_dio_write d pin w_value)
      (handle_dio_write-Clean d (u8 w_index) w_value)
dispatch_out-Clean b d (some Request.pwm_write) w_value w_index =
    on_pin-Clean d w_index (λ pin. handle_pwm_write b d pin w_value)
      (handle_pwm_write-Clean b d (u8 w_index) w_value)
dispatch_out-Clean b d (some Request.dac_write) w_value w_index =
    on_pin-Clean d w_index (λ pin. handle_dac_write b d pin w_value)
      (handle_dac_write-Clean b d (u8 w_index) w_value)
dispatch_out-Clean b d (some Request.event_config) w_value w_index =
    on_pin-Clean d w_index (λ pin. handle_event_config d pin w_value)
      (handle_event_config-Clean d (u8 w_index) w_value)
dispatch_out-Clean b d _ w_value w_index = stall-Clean d _

handle_out-Clean :
    (b : Board) (d : Device) (b_request w_value w_index w_length : ℕ)
    → Clean d (handle_out b d b_request w_value w_index w_length)
unfolding handle_out stall
handle_out-Clean b d b_request w_value w_index w_length =
    ground (arith, dispatch_out-Clean b d (Request.of_code b_request) w_value w_index)

finish-clean :
    (d : Device) (w_length : ℕ) (answer : Answer)
    → (finish d w_length answer).0 ≡ false
    → ((finish d w_length answer).1 ≡ []) × OnlyError d (finish d w_length answer).2
finish-clean d w_length (stalled reason) h = (refl, refl)
finish-clean d w_length (replied reply after) h = cc

-- A request that handle_setup refuses has an empty reply and changes nothing but last_error, whatever
-- its kind: nothing is queued, no mode, watch, queued event or stream setting changes.
pub handle_setup_refused :
    (b : Board) (d : Device)
    (bm_request_type b_request w_value w_index w_length millis_now micros_now : ℕ)
    → (handle_setup b d bm_request_type b_request w_value w_index w_length millis_now micros_now).0
      ≡ false
    → let (accepted, reply, after) =
        handle_setup b d bm_request_type b_request w_value w_index w_length millis_now micros_now in
      (reply ≡ []) × OnlyError d after
unfolding handle_setup handle_in stall
handle_setup_refused b d bm_request_type b_request w_value w_index w_length millis_now micros_now =
    ground (
      arith,
      handle_out-Clean b d b_request w_value w_index w_length,
      handle_out-Clean b d b_request w_value (w_index / 256) w_length,
      finish-clean d w_length
          (dispatch_in b d (Request.of_code b_request) w_index w_length millis_now micros_now),
      finish-clean d w_length (
          dispatch_in b d (Request.of_code b_request) (w_index / 256) w_length millis_now
            micros_now),
    )
