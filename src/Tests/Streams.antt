-- ===== src/Tests/Streams.antt =====
-- start_stream on the device of Fixtures.
use arduino_driver.Prelude.{ℕ, ◌≡◌, refl, true, List, [], ◌∷◌, arith}
use arduino_driver.Prelude.Signed.{pos}
use arduino_driver.Protocol.Bytes.{read_u8, read_u16le, read_u32le}
use arduino_driver.Protocol.Caps
use arduino_driver.Protocol.Decode.{decode_stream_status, decode_time_reply}
use arduino_driver.Protocol.Errors.{ok}
use arduino_driver.Protocol.Features
use arduino_driver.Protocol.Layout
use arduino_driver.Protocol.Request
use arduino_driver.Firmware.Modes.{mode_is_input}
use arduino_driver.Firmware.Out.{handle_out, dispatch_out}
use arduino_driver.Firmware.Reply.{info_of, handle_in, dispatch_in, stream_status_reply}
use arduino_driver.Firmware.Select.{
  handle_stream_select, handle_stream_start, stream_channel_index, channel_index_from, add_channel,
}
use arduino_driver.Firmware.Select.Selection.{IsSelection, selected}
use arduino_driver.Firmware.Select.Slice.{slice}
use arduino_driver.Firmware.Setup.{handle_setup}
use arduino_driver.Firmware.State.{Device}
use arduino_driver.Host.Driver.{Driver, check_not_streaming, pin_caps}
use arduino_driver.Host.Driver.Mirror.{IsMirror}
use arduino_driver.Host.Driver.Streams.{
  StreamConfig, start_stream, check_config, check_pins, sorted, insert_sorted, adjacent_equal,
  read_stream_status, clear_earlier, deselect_unwanted, launch, try_start, select_pins,
  begin_stream, check_channels, device_clock,
}
use arduino_driver.Host.Driver.Streams.Launch.{start_stream_lem}
use arduino_driver.Host.Exec.{attempt_all}
use arduino_driver.Host.Transfers.{raw_in, read_in, read_loop, send_out, after_out}
use arduino_driver.Host.Transfers.Refusal.{usb}
use arduino_driver.Prelude.Tally.{tally}
use arduino_driver.Tests.Driver.{options, quiet, driver, driver-IsMirror}
use arduino_driver.Tests.Fixtures.{board}

-- The device without a selection.
abbrev fresh : Driver Device
fresh = record driver { link = record quiet { stream = record (quiet.stream) { n_channels = 0 } } }

abbrev config : StreamConfig
config = record { pins = 2 ∷ 3 ∷ []; period = pos 1000; flags = 0; queue_capacity = 4 }

starts : (start_stream (usb board 5 5000) options config fresh).0 ≡ ok 5000
unfolding start_stream check_config check_not_streaming Features.has_streaming Caps.any_of info_of
    check_pins pin_caps sorted insert_sorted adjacent_equal Features.min_stream_period_us
    clear_earlier read_stream_status raw_in handle_setup handle_in dispatch_in Request.of_code
    stream_status_reply Layout.stream_status_bytes decode_stream_status read_u8 read_u16le
    read_u32le deselect_unwanted launch try_start select_pins attempt_all send_out after_out
    handle_out dispatch_out handle_stream_select mode_is_input stream_channel_index
    channel_index_from add_channel begin_stream check_channels device_clock read_in read_loop
    Layout.time_bytes decode_time_reply handle_stream_start
starts = refl

fresh-IsMirror : IsMirror board fresh
unfolding info_of Features.supports_pulldown Caps.any_of
fresh-IsMirror = record {
  info = refl;
  pins = refl;
  few = omega arith;
  caps = driver-IsMirror.caps;
  pulldown = refl;
  analog = refl;
  nibbles = driver-IsMirror.nibbles;
}

fresh-IsSelection : IsSelection fresh.link.stream
unfolding tally slice
fresh-IsSelection = record {
  full_length = refl;
  bounded = omega arith;
  distinct = λ pin. omega arith;
  sampling = λ h. ground arith;
}

start_stream_lem_example :
    let after = (start_stream (usb board 5 5000) options config fresh).1 in
    (after.link.stream.running ≡ true)
    × (selected after.link.stream ≡ 2 ∷ 3 ∷ [])
    × (pos after.link.stream.period_us ≡ pos 1000)
    × (after.streaming ≡ true)
    × (after.selected ≡ 2 ∷ 3 ∷ [])
unfolding tally slice
start_stream_lem_example =
    start_stream_lem board options 5 5000 refl config 5000 fresh fresh-IsMirror fresh-IsSelection
      (λ p h. refl) starts

-- Pins 3 and 2 were selected by an earlier session: the device goes on to sample them in that order.
abbrev earlier : List ℕ
earlier = selected ((start_stream (usb board 5 5000) options config driver).1).link.stream

earlier_order : earlier ≡ 3 ∷ 2 ∷ []
unfolding start_stream check_config check_not_streaming Features.has_streaming Caps.any_of info_of
    check_pins pin_caps sorted insert_sorted adjacent_equal Features.min_stream_period_us
    clear_earlier read_stream_status raw_in handle_setup handle_in dispatch_in Request.of_code
    stream_status_reply Layout.stream_status_bytes decode_stream_status read_u8 read_u16le
    read_u32le deselect_unwanted launch try_start select_pins attempt_all send_out after_out
    handle_out dispatch_out handle_stream_select mode_is_input stream_channel_index
    channel_index_from add_channel begin_stream check_channels device_clock read_in read_loop
    Layout.time_bytes decode_time_reply handle_stream_start slice
earlier_order = refl
