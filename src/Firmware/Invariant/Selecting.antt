-- ===== src/Firmware/Invariant/Selecting.antt =====
-- What the streaming requests and RESET of src/UsbIo.cpp keep of the selection.
use arduino_driver.Prelude.{
  ℕ, ◌≤◌, ◌<◌, ◌≡◌, refl, Bool, true, false, List, arith, u8, if◌then◌else◌, ◌⊎◌,
}
use arduino_driver.Prelude.Tally.{tally}
use arduino_driver.Firmware.Queue.{stall, halt_stream}
use arduino_driver.Firmware.Select.{
  add_channel, remove_channel, handle_stream_select, handle_stream_start, handle_stream_stop,
}
use arduino_driver.Firmware.Select.Slice.{slice, times, times-snoc, times-remove}
use arduino_driver.Firmware.Select.Selection.{selected, reselect, handle_stream_select_lem}
use arduino_driver.Firmware.State.{Device, Streaming}
use arduino_driver.Firmware.Invariant.Streaming.{IsStreaming, Follows, same-IsStreaming}

pub halt_stream-IsStreaming :
    (n_pins : ℕ) (s : Streaming) → IsStreaming n_pins s → IsStreaming n_pins (halt_stream s)
unfolding halt_stream slice tally
halt_stream-IsStreaming n_pins s v = record {
  selection = record {
    full_length = v.selection.full_length;
    bounded = omega arith;
    distinct = λ pin. omega arith;
    sampling = λ h. absurd (ground arith);
  };
  chosen = λ pin h. absurd (omega arith);
  records = v.records;
}

pub handle_stream_start-IsStreaming :
    (d : Device) (w_value w_index : ℕ)
    → IsStreaming d.n_pins d.stream
    → IsStreaming d.n_pins (handle_stream_start d w_value w_index).1.stream
unfolding handle_stream_start stall
handle_stream_start-IsStreaming d w_value w_index v =
    same-IsStreaming v (ground arith) (ground arith) (λ h. ground (arith, v.selection.sampling))
      (ground (arith, v.records))

pub handle_stream_stop-Follows : (d : Device) → Follows d.stream (handle_stream_stop d).1.stream
unfolding handle_stream_stop stall
handle_stream_stop-Follows d = record {
  channels = ground arith;
  n_channels = ground arith;
  running = λ h. ground arith;
  records = λ v. ground arith;
}

select-ring :
    (d : Device) (w_value w_index : ℕ)
    → (handle_stream_select d w_value w_index).1.stream.ring ≡ d.stream.ring
unfolding handle_stream_select add_channel remove_channel stall
select-ring d w_value w_index = ground arith

times-reselect :
    (w_value pin p : ℕ) (pins : List ℕ)
    → 0 < times p (reselect w_value pin pins)
    → (p ≡ pin) ⊎ (0 < times p pins)
times-reselect w_value pin p pins h = ground (arith, times-snoc pin p pins, times-remove pin p pins)

chosen-reselect :
    (accepted : Bool) (w_value pin p n_pins : ℕ) (pins : List ℕ)
    → (accepted ≡ true → pin < n_pins)
    → (0 < times p pins → p < n_pins)
    → 0 < times p (if accepted then reselect w_value pin pins else pins)
    → p < n_pins
chosen-reselect true w_value pin p n_pins pins below chosen h =
    grind (arith, times-reselect w_value pin p pins h, below refl)
chosen-reselect false w_value pin p n_pins pins below chosen h = chosen h

pub handle_stream_select-IsStreaming :
    (d : Device) (w_value w_index : ℕ)
    → d.n_pins ≤ 128
    → IsStreaming d.n_pins d.stream
    → IsStreaming d.n_pins (handle_stream_select d w_value w_index).1.stream
handle_stream_select-IsStreaming d w_value w_index fits v =
    let out = handle_stream_select_lem d w_value w_index v.selection in
    record {
      selection = out.1;
      chosen = λ p. rw out.2 (
          chosen-reselect (handle_stream_select d w_value w_index).0 w_value (u8 w_index) p d.n_pins
            (selected d.stream) (λ h. ground (arith, out.0)) (v.chosen p));
      records = rw (select-ring d w_value w_index) v.records;
    }
