-- ===== src/Protocol/Decode/Wire.antt =====
-- What the device puts on the wire (Layout) is what the host's decoders read.
use arduino_driver.Prelude.{ℕ, ◌^◌, ◌<◌, ◌≡◌, Bool, List, ◌++◌, arith}
use arduino_driver.Protocol.Bytes.{read_u8, read_u16le, read_u32le}
use arduino_driver.Protocol.Decode.{
  decode_info, has_magic, info_fields, decode_stream_status, decode_stream_header,
  decode_time_reply,
}
use arduino_driver.Protocol.Errors.{ok}
use arduino_driver.Protocol.Layout
use arduino_driver.Protocol.Layout.{Info}

-- The members of usbio_info_t that are two bytes wide; the others are copied as they are.
pub record FitsInfo (i : Info) : Type 0 where
  pub protocol_version : i.protocol_version < 2 ^ 16
  pub board_id : i.board_id < 2 ^ 16
  pub vref_mv : i.vref_mv < 2 ^ 16
  pub io_mv : i.io_mv < 2 ^ 16
  pub flags : i.flags < 2 ^ 16
  pub stream_min_period_us : i.stream_min_period_us < 2 ^ 16

pub decode_info-info_bytes : (i : Info) → FitsInfo i → decode_info (Layout.info_bytes i) ≡ ok i
unfolding decode_info Layout.info_bytes has_magic info_fields read_u8 read_u16le
decode_info-info_bytes i f = ground arith

pub decode_time_reply-time_bytes :
    (status millis micros : ℕ)
    → millis < 2 ^ 32
    → micros < 2 ^ 32
    → decode_time_reply (Layout.time_bytes status millis micros)
      ≡ ok (record { status = status; millis = millis; micros = micros })
unfolding decode_time_reply Layout.time_bytes read_u8 read_u16le read_u32le
decode_time_reply-time_bytes status millis micros h k = ground arith

pub decode_stream_status-bytes :
    (status : ℕ) (running : Bool) (n_channels flags period_us seq overruns : ℕ)
    → period_us < 2 ^ 16
    → seq < 2 ^ 32
    → overruns < 2 ^ 32
    → decode_stream_status
        (Layout.stream_status_bytes status running n_channels flags period_us seq overruns)
      ≡ ok (record {
        status = status;
        running = running;
        n_channels = n_channels;
        flags = flags;
        period_us = period_us;
        seq = seq;
        overruns = overruns;
      })
unfolding decode_stream_status Layout.stream_status_bytes read_u8 read_u16le read_u32le
decode_stream_status-bytes status running n_channels flags period_us seq overruns h k l =
    ground arith

pub decode_stream_header-bytes :
    (magic n_samples seq t_us : ℕ) (rest : List ℕ)
    → magic < 2 ^ 16
    → n_samples < 2 ^ 16
    → seq < 2 ^ 32
    → t_us < 2 ^ 32
    → decode_stream_header (Layout.stream_header_bytes magic n_samples seq t_us ++ rest)
      ≡ record { magic = magic; n_samples = n_samples; seq = seq; t_us = t_us }
unfolding decode_stream_header Layout.stream_header_bytes read_u8 read_u16le read_u32le
decode_stream_header-bytes magic n_samples seq t_us rest h k l m = ground arith
