-- ===== src/Firmware/Select.antt =====
-- Streaming on the interrupt side of src/UsbIo.cpp: stream_channel_index and the handle_stream_
-- functions. The uint8_t index loops run over the first `n_channels` of the eight channel slots.
pub mod Slice
pub mod Gap
pub mod Selection
use arduino_driver.Prelude.{
  ℕ, zero, suc, ◌+◌, ◌-◌, Bool, true, false, ◌&&◌, not, Option, none, some, List, u8, u8_sub, ltb,
  leb, ◌==◌, if◌then◌else◌, get_or, set, bit_and,
}
use arduino_driver.Prelude.Loop.{for_range}
use arduino_driver.Protocol.Flag
use arduino_driver.Protocol.Limit
use arduino_driver.Protocol.Mode
use arduino_driver.Protocol.Status
use arduino_driver.Firmware.Modes.{mode_is_input}
use arduino_driver.Firmware.Queue.{Outcome, stall}
use arduino_driver.Firmware.State.{Device, Streaming, mode_of}

-- Channels `i` to `i + n - 1`; -1 is `none`.
unfoldable pub channel_index_from : List ℕ → ℕ → ℕ → ℕ → Option ℕ
channel_index_from channels i zero pin = none
channel_index_from channels i (suc n) pin =
    if get_or channels i 0 == pin then some i else channel_index_from channels (suc i) n pin

unfoldable pub stream_channel_index : Streaming → ℕ → Option ℕ
stream_channel_index s pin = channel_index_from s.channels 0 s.n_channels pin

-- `_flags & USBIO_FLAG_STREAMING`
abbrev pub streaming_flag : Device → Bool
streaming_flag d = not (bit_and d.flags Flag.streaming == 0)

unfoldable pub add_channel : Device → ℕ → Option ℕ → Outcome
add_channel d pin (some idx) = (true, d)
add_channel d pin none =
    let s = d.stream in
    if leb Limit.max_stream_channels s.n_channels then stall d Status.bad_value else (
      true,
      record d {
        stream = record s {
          channels = set s.channels s.n_channels pin;
          n_channels = u8 (s.n_channels + 1);
        };
      },
    )

-- `for (i = idx; i + 1 < n_channels; ++i) channels[i] = channels[i + 1]`
unfoldable pub close_gap : List ℕ → ℕ → ℕ → List ℕ
close_gap channels idx n =
    for_range idx (n - 1 - idx) (λ i cs. set cs i (get_or cs (i + 1) 0)) channels

unfoldable pub remove_channel : Device → Option ℕ → Outcome
remove_channel d none = (true, d)
remove_channel d (some idx) =
    let s = d.stream in
    (
      true,
      record d {
        stream = record s {
          channels = close_gap s.channels idx s.n_channels;
          n_channels = u8_sub s.n_channels 1;
        };
      },
    )

unfoldable pub handle_stream_select : Device → ℕ → ℕ → Outcome
handle_stream_select d w_value w_index =
    let pin = u8 w_index in
    if not (streaming_flag d)
    then stall d Status.unsupported
    else if d.stream.running
    then stall d Status.busy
    else if leb d.n_pins w_index
    then stall d Status.bad_pin
    else if not (mode_of d pin == Mode.analog_in) && not (mode_is_input (mode_of d pin))
    then stall d Status.bad_mode
    else if ltb 1 w_value
    then stall d Status.bad_value
    else if not (w_value == 0)
    then add_channel d pin (stream_channel_index d.stream pin)
    else remove_channel d (stream_channel_index d.stream pin)

-- `wIndex & ~known_flags`: a bit above the two known ones is set.
abbrev pub has_unknown_flag : ℕ → Bool
has_unknown_flag w_index = ltb 3 w_index

unfoldable pub handle_stream_start : Device → ℕ → ℕ → Outcome
handle_stream_start d w_value w_index =
    let s = d.stream in
    if not (streaming_flag d)
    then stall d Status.unsupported
    else if s.running
    then stall d Status.busy
    else if s.n_channels == 0
    then stall d Status.bad_value
    else if not (w_value == 0) && ltb w_value Limit.stream_min_period_us
    then stall d Status.bad_value
    else if has_unknown_flag w_index
    then stall d Status.bad_value
    else (
      true,
      record d {
        stream = record s {
          period_us = w_value;
          flags = u8 w_index;
          running = true;
          start_requests = u8 (s.start_requests + 1);
        };
      },
    )

unfoldable pub handle_stream_stop : Device → Outcome
handle_stream_stop d =
    if not (streaming_flag d)
    then stall d Status.unsupported
    else (true, record d { stream = record (d.stream) { running = false } })
