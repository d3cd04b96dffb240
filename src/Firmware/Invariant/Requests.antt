-- ===== src/Firmware/Invariant/Requests.antt =====
-- Every control request of src/UsbIo.cpp keeps the device consistent, refused or not.
use arduino_driver.Prelude.{
  ℕ, ◌<◌, ◌≡◌, ◌∙◌, arith, u8, ◌==◌, if◌then◌else◌, length-set, subst, sym,
}
use arduino_driver.Prelude.Loop.{length-for_range-store}
use arduino_driver.Protocol.Request.{Request}
use arduino_driver.Firmware.Board.{Board}
use arduino_driver.Firmware.Invariant.Consistent.{IsConsistent}
use arduino_driver.Firmware.Invariant.Events.{
  handle_event_config-IsWatching, unwatch_if_output-IsWatching, reset_events-IsWatching,
}
use arduino_driver.Firmware.Invariant.Streaming.{
  IsStreaming, Follows-IsStreaming, stop_if_selected-Follows,
}
use arduino_driver.Firmware.Invariant.Selecting.{
  halt_stream-IsStreaming, handle_stream_select-IsStreaming, handle_stream_start-IsStreaming,
  handle_stream_stop-Follows,
}
use arduino_driver.Firmware.Out.{
  handle_pin_mode, handle_dio_write, handle_pwm_write, handle_dac_write, enqueue_or_stall,
  record_intent,
}
use arduino_driver.Firmware.Queue.{
  stall, enqueue, request_reset, reset_modes, reset_mode, halt_stream,
}
use arduino_driver.Firmware.Ring.Fifo.{put-IsValid}
use arduino_driver.Firmware.State.{Device, Command, Streaming}
use arduino_driver.Firmware.Select.{
  handle_stream_select, handle_stream_start, handle_stream_stop, add_channel, remove_channel,
}
use arduino_driver.Firmware.Watch.{handle_event_config, arm_or_full}

enqueue-IsConsistent :
    (d : Device) (cmd : Request) (pin value : ℕ)
    → IsConsistent d
    → IsConsistent (enqueue d cmd pin value).1
unfolding enqueue
enqueue-IsConsistent d cmd pin value v =
    let c : Command = record { cmd = cmd; pin = pin; epoch = d.epoch; value = value } in
    ground (arith, put-IsValid {r = d.commands} c v.2)

pub enqueue_or_stall-IsConsistent :
    (d : Device) (cmd : Request) (pin value : ℕ)
    → IsConsistent d
    → IsConsistent (enqueue_or_stall d cmd pin value).1
unfolding enqueue_or_stall stall
enqueue_or_stall-IsConsistent d cmd pin value v =
    ground (arith, enqueue-IsConsistent d cmd pin value v)

record_intent-IsConsistent :
    (b : Board) (d : Device) (pin m : ℕ)
    → pin < d.n_pins
    → IsConsistent d
    → IsConsistent (record_intent b d pin m)
unfolding record_intent
record_intent-IsConsistent b d pin m below v = (
  v.0,
  length-set d.mode pin m ∙ v.1,
  v.2,
  unwatch_if_output-IsWatching d.n_pins d.mode d.events pin m (omega (arith, v.0, v.1)) v.3,
  Follows-IsStreaming v.4 (stop_if_selected-Follows b d.stream pin),
)

enqueue-n_pins :
    (d : Device) (cmd : Request) (pin value : ℕ) → (enqueue d cmd pin value).1.n_pins ≡ d.n_pins
unfolding enqueue
enqueue-n_pins d cmd pin value = ground arith

pub handle_pin_mode-IsConsistent :
    (b : Board) (d : Device) (pin w_value : ℕ)
    → pin < d.n_pins
    → IsConsistent d
    → IsConsistent (handle_pin_mode b d pin w_value).1
unfolding handle_pin_mode stall
handle_pin_mode-IsConsistent b d pin w_value below v =
    let queued = enqueue-IsConsistent d Request.pin_mode pin w_value v in
    let d' = (enqueue d Request.pin_mode pin w_value).1 in
    ground (
      arith,
      record_intent-IsConsistent b d' pin (u8 w_value)
          (omega (arith, enqueue-n_pins d Request.pin_mode pin w_value)) queued,
    )

pub handle_dio_write-IsConsistent :
    (d : Device) (pin w_value : ℕ)
    → IsConsistent d
    → IsConsistent (handle_dio_write d pin w_value).1
unfolding handle_dio_write stall
handle_dio_write-IsConsistent d pin w_value v =
    ground (
      arith,
      enqueue_or_stall-IsConsistent d Request.dio_write pin (if w_value == 0 then 0 else 1) v,
    )

pub handle_pwm_write-IsConsistent :
    (b : Board) (d : Device) (pin w_value : ℕ)
    → IsConsistent d
    → IsConsistent (handle_pwm_write b d pin w_value).1
unfolding handle_pwm_write stall
handle_pwm_write-IsConsistent b d pin w_value v =
    ground (arith, enqueue_or_stall-IsConsistent d Request.pwm_write pin w_value v)

pub handle_dac_write-IsConsistent :
    (b : Board) (d : Device) (pin w_value : ℕ)
    → IsConsistent d
    → IsConsistent (handle_dac_write b d pin w_value).1
unfolding handle_dac_write stall
handle_dac_write-IsConsistent b d pin w_value v =
    ground (arith, enqueue_or_stall-IsConsistent d Request.dac_write pin w_value v)

-- EVENT_CONFIG changes the events only, or the recorded error.
handle_event_config-frame :
    (d : Device) (pin w_value : ℕ)
    → let after = (handle_event_config d pin w_value).1 in
      after ≡ record d { events = after.events; last_error = after.last_error }
unfolding handle_event_config arm_or_full stall
handle_event_config-frame d pin w_value = ground arith

pub handle_event_config-IsConsistent :
    (d : Device) (pin w_value : ℕ)
    → pin < d.n_pins
    → IsConsistent d
    → IsConsistent (handle_event_config d pin w_value).1
handle_event_config-IsConsistent d pin w_value below v =
    subst IsConsistent (sym (handle_event_config-frame d pin w_value))
      (v.0, v.1, v.2, handle_event_config-IsWatching d pin w_value below v.3, v.4)

-- The streaming requests change the streaming state only, or the recorded error.
abbrev OnlyStreaming : Device → Device → Type 0
OnlyStreaming d after = after ≡ record d { stream = after.stream; last_error = after.last_error }

streaming-IsConsistent :
    (d after : Device)
    → OnlyStreaming d after
    → IsConsistent d
    → IsStreaming d.n_pins after.stream
    → IsConsistent after
streaming-IsConsistent d after same v s = subst IsConsistent (sym same) (v.0, v.1, v.2, v.3, s)

pub handle_stream_select-IsConsistent :
    (d : Device) (w_value w_index : ℕ)
    → IsConsistent d
    → IsConsistent (handle_stream_select d w_value w_index).1
unfolding handle_stream_select add_channel remove_channel stall
handle_stream_select-IsConsistent d w_value w_index v =
    streaming-IsConsistent d (handle_stream_select d w_value w_index).1 (ground arith) v
      (handle_stream_select-IsStreaming d w_value w_index v.0 v.4)

pub handle_stream_start-IsConsistent :
    (d : Device) (w_value w_index : ℕ)
    → IsConsistent d
    → IsConsistent (handle_stream_start d w_value w_index).1
unfolding handle_stream_start stall
handle_stream_start-IsConsistent d w_value w_index v =
    streaming-IsConsistent d (handle_stream_start d w_value w_index).1 (ground arith) v
      (handle_stream_start-IsStreaming d w_value w_index v.4)

pub handle_stream_stop-IsConsistent :
    (d : Device) → IsConsistent d → IsConsistent (handle_stream_stop d).1
unfolding handle_stream_stop stall
handle_stream_stop-IsConsistent d v =
    streaming-IsConsistent d (handle_stream_stop d).1 (ground arith) v
      (Follows-IsStreaming v.4 (handle_stream_stop-Follows d))

pub halted-IsStreaming :
    (b : Board) (n_pins : ℕ) (s : Streaming)
    → IsStreaming n_pins s
    → IsStreaming n_pins (if b.has_stream_transport then halt_stream s else s)
halted-IsStreaming b n_pins s v = ground (arith, halt_stream-IsStreaming n_pins s v)

pub request_reset-IsConsistent :
    (b : Board) (d : Device) → IsConsistent d → IsConsistent (request_reset b d)
unfolding request_reset reset_modes
request_reset-IsConsistent b d v = (
  v.0,
  length-for_range-store (reset_mode d) 0 d.n_pins d.mode ∙ v.1,
  v.2,
  reset_events-IsWatching d.n_pins d.mode (reset_modes d) d.events v.3,
  halted-IsStreaming b d.n_pins d.stream v.4,
)
