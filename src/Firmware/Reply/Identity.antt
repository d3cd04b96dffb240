-- ===== src/Firmware/Reply/Identity.antt =====
-- GET_INFO from handle_in of src/UsbIo.cpp to the host's decode_info.
use arduino_driver.Prelude.{ℕ, ◌<◌, ◌^◌, ◌≡◌, refl, true, arith, ap, ◌∙◌, take, if◌then◌else◌}
use arduino_driver.Protocol.Decode.{decode_info}
use arduino_driver.Protocol.Decode.Wire.{FitsInfo, decode_info-info_bytes}
use arduino_driver.Protocol.Errors.{ok}
use arduino_driver.Protocol.Caps
use arduino_driver.Protocol.Features.{has_streaming, has_events, min_stream_period_us}
use arduino_driver.Protocol.Layout
use arduino_driver.Protocol.Layout.{Info}
use arduino_driver.Protocol.Limit
use arduino_driver.Protocol.Request
use arduino_driver.Protocol.Request.{of_code-code}
use arduino_driver.Firmware.Board.{Board, IsSound}
use arduino_driver.Firmware.Reply.{info_of, handle_in, dispatch_in}
use arduino_driver.Firmware.State.{Device}

take-info_bytes : (i : Info) → take Limit.info_len (Layout.info_bytes i) ≡ Layout.info_bytes i
unfolding Layout.info_bytes
take-info_bytes i = refl

pub info_of-FitsInfo :
    (b : Board) (d : Device) → IsSound b → d.flags < 2 ^ 16 → FitsInfo (info_of b d)
unfolding info_of
info_of-FitsInfo b d sound flags = record {
  protocol_version = omega arith;
  board_id = sound.board_id_word;
  vref_mv = sound.vref_word;
  io_mv = sound.io_word;
  flags = flags;
  stream_min_period_us = ground arith;
}

-- What usbio_protocol.h says of the fields of usbio_info_t, on this board and device.
pub record Describes (b : Board) (d : Device) (info : Info) : Type 0 where
  pub protocol_version : info.protocol_version ≡ 1
  pub board_id : info.board_id ≡ b.board_id
  pub n_pins : info.n_pins ≡ d.n_pins
  pub n_ain : info.n_ain ≡ d.n_ain
  pub adc_bits : info.adc_bits ≡ b.adc_bits
  pub pwm_bits : info.pwm_bits ≡ b.pwm_bits
  pub dac_bits : info.dac_bits ≡ b.dac_bits
  pub queue_depth : info.queue_depth ≡ 32
  pub vref_mv : info.vref_mv ≡ b.vref_mv
  pub io_mv : info.io_mv ≡ b.io_mv
  pub flags : info.flags ≡ d.flags
  pub stream_max_channels : info.stream_max_channels ≡ (if has_streaming info then 8 else 0)
  pub event_max_pins : info.event_max_pins ≡ (if has_events info then 8 else 0)
  pub min_period : min_stream_period_us info ≡ (if has_streaming info then 1 else 0)

info_of-Describes : (b : Board) (d : Device) → Describes b d (info_of b d)
unfolding info_of has_streaming has_events min_stream_period_us
info_of-Describes b d = record {
  protocol_version = refl;
  board_id = refl;
  n_pins = refl;
  n_ain = refl;
  adc_bits = refl;
  pwm_bits = refl;
  dac_bits = refl;
  queue_depth = refl;
  vref_mv = refl;
  io_mv = refl;
  flags = refl;
  stream_max_channels = unfold Caps.any_of in refl;
  event_max_pins = unfold Caps.any_of in refl;
  min_period = unfold Caps.any_of in (ground arith);
}

-- For a board whose constants are sound and 16-bit flags, GET_INFO is answered whatever the state and
-- changes nothing. What the host decodes from the reply has, field by field, the board's identity,
-- resolutions and voltages, the device's pin counts and flags, protocol version 1 and a queue
-- of 32; its stream and event limits are 8, and the host's shortest stream period is 1, exactly if the flags
-- that the host reads say streaming or events, and 0 otherwise.
pub get_info_lem :
    (b : Board) (d : Device) (w_index now_ms now_us : ℕ)
    → IsSound b
    → d.flags < 2 ^ 16
    → let (accepted, reply, after) =
        handle_in b d (Request.code Request.get_info) w_index Limit.info_len now_ms now_us in
      (info : Info) × (accepted ≡ true)
      × (decode_info reply ≡ ok info)
      × Describes b d info
      × (after ≡ d)
unfolding handle_in dispatch_in Request.of_code
get_info_lem b d w_index now_ms now_us sound flags = (
  info_of b d,
  refl,
  ap decode_info (take-info_bytes (info_of b d))
      ∙ decode_info-info_bytes (info_of b d) (info_of-FitsInfo b d sound flags),
  info_of-Describes b d,
  refl,
)
