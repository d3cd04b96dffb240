-- ===== src/Firmware/Invariant/Setup.antt =====
-- handle_setup of src/UsbIo.cpp keeps the device consistent.
use arduino_driver.Prelude.{ℕ, ◌/◌, ◌<◌, ◌≤◌, Option, some, arith, u8}
use arduino_driver.Protocol.Request
use arduino_driver.Protocol.Request.{Request}
use arduino_driver.Firmware.Board.{Board}
use arduino_driver.Firmware.Invariant.Consistent.{IsConsistent}
use arduino_driver.Firmware.Invariant.Requests.{
  handle_pin_mode-IsConsistent, handle_dio_write-IsConsistent, handle_pwm_write-IsConsistent,
  handle_dac_write-IsConsistent, handle_event_config-IsConsistent,
  handle_stream_select-IsConsistent, handle_stream_start-IsConsistent,
  handle_stream_stop-IsConsistent, request_reset-IsConsistent,
}
use arduino_driver.Firmware.Out.{
  handle_out, dispatch_out, on_pin, if_streaming, handle_pin_mode, handle_dio_write,
  handle_pwm_write, handle_dac_write,
}
use arduino_driver.Firmware.Queue.{Outcome, stall}
use arduino_driver.Firmware.Reply.{
  Answer, stalled, replied, handle_in, dispatch_in, finish, event_pop_answer,
}
use arduino_driver.Firmware.Reply.Pop.{event_pop_answer_lem}
use arduino_driver.Firmware.Setup.{handle_setup, route}
use arduino_driver.Firmware.State.{Device}
use arduino_driver.Firmware.Watch.{handle_event_config}

on_pin-IsConsistent :
    (d : Device) (w_index : ℕ) (handle : ℕ → Outcome)
    → IsConsistent d
    → d.n_pins ≤ 128
    → (u8 w_index < d.n_pins → IsConsistent (handle (u8 w_index)).1)
    → IsConsistent (on_pin d w_index handle).1
unfolding stall
on_pin-IsConsistent d w_index handle v fits kept = ground arith

if_streaming-IsConsistent :
    (b : Board) (d : Device) (handled : Outcome)
    → IsConsistent d
    → IsConsistent handled.1
    → IsConsistent (if_streaming b d handled).1
unfolding stall
if_streaming-IsConsistent b d handled v kept = ground arith

dispatch_out-IsConsistent :
    (b : Board) (d : Device) (request : Option Request) (w_value w_index : ℕ)
    → IsConsistent d
    → IsConsistent (dispatch_out b d request w_value w_index).1
unfolding dispatch_out stall
dispatch_out-IsConsistent b d (some Request.reset) w_value w_index v =
    request_reset-IsConsistent b d v
dispatch_out-IsConsistent b d (some Request.stream_select) w_value w_index v =
    if_streaming-IsConsistent b d _ v (handle_stream_select-IsConsistent d w_value w_index v)
dispatch_out-IsConsistent b d (some Request.stream_start) w_value w_index v =
    if_streaming-IsConsistent b d _ v (handle_stream_start-IsConsistent d w_value w_index v)
dispatch_out-IsConsistent b d (some Request.stream_stop) w_value w_index v =
    if_streaming-IsConsistent b d _ v (handle_stream_stop-IsConsistent d v)
dispatch_out-IsConsistent b d (some Request.pin_mode) w_value w_index v =
    on_pin-IsConsistent d w_index (λ pin. handle_pin_mode b d pin w_value) v v.0
      (λ below. handle_pin_mode-IsConsistent b d (u8 w_index) w_value below v)
dispatch_out-IsConsistent b d (some Request.dio_write) w_value w_index v =
    on_pin-IsConsistent d w_index (λ pin. handle_dio_write d pin w_value) v v.0
      (λ below. handle_dio_write-IsConsistent d (u8 w_index) w_value v)
dispatch_out-IsConsistent b d (some Request.pwm_write) w_value w_index v =
    on_pin-IsConsistent d w_index (λ pin. handle_pwm_write b d pin w_value) v v.0
      (λ below. handle_pwm_write-IsConsistent b d (u8 w_index) w_value v)
dispatch_out-IsConsistent b d (some Request.dac_write) w_value w_index v =
    on_pin-IsConsistent d w_index (λ pin. handle_dac_write b d pin w_value) v v.0
      (λ below. handle_dac_write-IsConsistent b d (u8 w_index) w_value v)
dispatch_out-IsConsistent b d (some Request.event_config) w_value w_index v =
    on_pin-IsConsistent d w_index (λ pin. handle_event_config d pin w_value) v v.0
      (λ below. handle_event_config-IsConsistent d (u8 w_index) w_value below v)
dispatch_out-IsConsistent b d _ w_value w_index v = v

handle_out-IsConsistent :
    (b : Board) (d : Device) (b_request w_value w_index w_length : ℕ)
    → IsConsistent d
    → IsConsistent (handle_out b d b_request w_value w_index w_length).1
unfolding handle_out stall
handle_out-IsConsistent b d b_request w_value w_index w_length v =
    ground (arith, dispatch_out-IsConsistent b d (Request.of_code b_request) w_value w_index v)

-- The device that an answer leaves.
abbrev left_by : Device → Answer → Device
left_by d (stalled reason) = d
left_by d (replied reply d') = d'

pop-IsConsistent :
    (d : Device) (w_index : ℕ)
    → IsConsistent d
    → IsConsistent (left_by d (event_pop_answer d w_index))
pop-IsConsistent d w_index v =
    let p = event_pop_answer_lem d w_index v.3.ring_valid in
    rw p.0 (
      v.0,
      v.1,
      v.2,
      record {
        ring_valid = p.2;
        table = record {
          full_length = v.3.table.full_length;
          counted = v.3.table.counted;
          distinct = v.3.table.distinct;
        };
        inputs = v.3.inputs;
      },
      v.4,
    )

dispatch_in-IsConsistent :
    (b : Board) (d : Device) (request : Option Request) (w_index w_length now_ms now_us : ℕ)
    → IsConsistent d
    → IsConsistent (left_by d (dispatch_in b d request w_index w_length now_ms now_us))
unfolding dispatch_in
dispatch_in-IsConsistent b d (some Request.event_pop) w_index w_length now_ms now_us v =
    pop-IsConsistent d w_index v
dispatch_in-IsConsistent b d (some Request.stream_status) w_index w_length now_ms now_us v =
    ground arith
dispatch_in-IsConsistent b d _ w_index w_length now_ms now_us v = v

finish-IsConsistent :
    (d : Device) (w_length : ℕ) (answer : Answer)
    → IsConsistent d
    → IsConsistent (left_by d answer)
    → IsConsistent (finish d w_length answer).2
finish-IsConsistent d w_length (stalled reason) v kept = v
finish-IsConsistent d w_length (replied reply d') v kept = kept

route-IsConsistent :
    (b : Board) (d : Device) (bm_request_type b_request w_value w_index w_length now_ms now_us : ℕ)
    → IsConsistent d
    → IsConsistent (route b d bm_request_type b_request w_value w_index w_length now_ms now_us).2
unfolding handle_in
route-IsConsistent b d bm_request_type b_request w_value w_index w_length now_ms now_us v =
    let answer = dispatch_in b d (Request.of_code b_request) w_index w_length now_ms now_us in
    ground (
      arith,
      finish-IsConsistent d w_length answer v (
          dispatch_in-IsConsistent b d (Request.of_code b_request) w_index w_length now_ms now_us
            v),
      handle_out-IsConsistent b d b_request w_value w_index w_length v,
    )

-- Every control request, whatever its fields, keeps the device consistent: the pin table has its size,
-- the three rings hold at most 32 entries, at most eight pins are watched, each by one slot and each a pin
-- that is meant to be an input, and at most eight pins are selected, each once and each on the board.
pub handle_setup-IsConsistent :
    (b : Board) (d : Device) (bm_request_type b_request w_value w_index w_length now_ms now_us : ℕ)
    → IsConsistent d
    → IsConsistent
        (handle_setup b d bm_request_type b_request w_value w_index w_length now_ms now_us).2
unfolding handle_setup stall
handle_setup-IsConsistent b d bm_request_type b_request w_value w_index w_length now_ms now_us v =
    ground (
      arith,
      route-IsConsistent b d bm_request_type b_request w_value w_index w_length now_ms now_us v,
      route-IsConsistent b d bm_request_type b_request w_value (w_index / 256) w_length now_ms
          now_us v,
    )
