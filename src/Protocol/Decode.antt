-- ===== src/Protocol/Decode.antt =====
-- The decoders of Protocol.h: decode_info, decode_stream_status, decode_stream_header,
-- encode_stream_header, decode_time_reply, decode_event_header, decode_event and decode_event_count.
pub mod Wire
use arduino_driver.Prelude.{
  ℕ, ◌+◌, ◌*◌, Bool, true, false, ◌&&◌, not, List, [], ◌∷◌, leb, ◌==◌, if◌then◌else◌, length,
}
use arduino_driver.Protocol.Bytes.{read_u8, read_u16le, read_u32le, write_u16le, write_u32le}
use arduino_driver.Protocol.Errors.{Result, ok, err, protocol_error, throw_unless, ◌>>=◌, ◌>>◌}
use arduino_driver.Protocol.Layout.{Info}
use arduino_driver.Protocol.Limit

-- The comparison with "UIO1", byte by byte.
unfoldable pub has_magic : List ℕ → Bool
has_magic bytes =
    read_u8 bytes 0 == b'U'
    && (read_u8 bytes 1 == b'I' && (read_u8 bytes 2 == b'O' && read_u8 bytes 3 == b'1'))

unfoldable pub info_fields : List ℕ → Info
info_fields bytes = record {
  protocol_version = read_u16le bytes 4;
  board_id = read_u16le bytes 6;
  n_pins = read_u8 bytes 8;
  n_ain = read_u8 bytes 9;
  adc_bits = read_u8 bytes 10;
  pwm_bits = read_u8 bytes 11;
  dac_bits = read_u8 bytes 12;
  queue_depth = read_u8 bytes 13;
  vref_mv = read_u16le bytes 14;
  io_mv = read_u16le bytes 16;
  flags = read_u16le bytes 18;
  stream_max_channels = read_u8 bytes 20;
  event_max_pins = read_u8 bytes 21;
  stream_min_period_us = read_u16le bytes 22;
}

unfoldable pub decode_info : List ℕ → Result Info
decode_info bytes = do
  throw_unless protocol_error (leb Limit.info_len (length bytes))
  throw_unless protocol_error (has_magic bytes)
  ok (info_fields bytes)

pub record StreamStatus : Type 0 where
  pub status : ℕ
  pub running : Bool
  pub n_channels : ℕ
  pub flags : ℕ
  pub period_us : ℕ
  pub seq : ℕ
  pub overruns : ℕ

unfoldable pub decode_stream_status : List ℕ → Result StreamStatus
decode_stream_status bytes = do
  throw_unless protocol_error (leb Limit.stream_status_len (length bytes))
  ok (record {
    status = read_u8 bytes 0;
    running = not (read_u8 bytes 1 == 0);
    n_channels = read_u8 bytes 2;
    flags = read_u8 bytes 3;
    period_us = read_u16le bytes 4;
    seq = read_u32le bytes 8;
    overruns = read_u32le bytes 12;
  })

pub record StreamHeader : Type 0 where
  pub magic : ℕ
  pub n_samples : ℕ
  pub seq : ℕ
  pub t_us : ℕ

unfoldable pub decode_stream_header : List ℕ → StreamHeader
decode_stream_header bytes = record {
  magic = read_u16le bytes 0;
  n_samples = read_u16le bytes 2;
  seq = read_u32le bytes 4;
  t_us = read_u32le bytes 8;
}

unfoldable pub encode_stream_header : List ℕ → StreamHeader → List ℕ
encode_stream_header bytes h =
    write_u32le (write_u32le (write_u16le (write_u16le bytes 0 h.magic) 2 h.n_samples) 4 h.seq) 8
      h.t_us

pub record TimeReply : Type 0 where
  pub status : ℕ
  pub millis : ℕ
  pub micros : ℕ

unfoldable pub decode_time_reply : List ℕ → Result TimeReply
decode_time_reply bytes = do
  throw_unless protocol_error (leb Limit.time_reply_len (length bytes))
  ok (record { status = read_u8 bytes 0; millis = read_u32le bytes 4; micros = read_u32le bytes 8 })

pub record EventHeader : Type 0 where
  pub status : ℕ
  pub count : ℕ
  pub dropped : ℕ
  pub pending : ℕ

unfoldable pub decode_event_header : List ℕ → Result EventHeader
decode_event_header bytes = do
  throw_unless protocol_error (leb Limit.event_header_len (length bytes))
  ok (record {
    status = read_u8 bytes 0;
    count = read_u8 bytes 1;
    dropped = read_u8 bytes 2;
    pending = read_u8 bytes 3;
  })

-- The event at `index` of an EVENT_POP reply.
pub record PinEvent : Type 0 where
  pub pin : ℕ
  pub edge : ℕ
  pub seq : ℕ
  pub t_ms : ℕ

unfoldable pub decode_event : List ℕ → ℕ → PinEvent
decode_event bytes index =
    let base = Limit.event_header_len + Limit.event_len * index in
    record {
      pin = read_u8 bytes base;
      edge = read_u8 bytes (base + 1);
      seq = read_u16le bytes (base + 2);
      t_ms = read_u32le bytes (base + 4);
    }

pub record EventCount : Type 0 where
  pub pin : ℕ
  pub mode : ℕ
  pub count : ℕ

unfoldable pub decode_event_count : List ℕ → ℕ → EventCount
decode_event_count bytes index =
    let base = Limit.event_header_len + Limit.event_count_len * index in
    record {
      pin = read_u8 bytes base;
      mode = read_u8 bytes (base + 1);
      count = read_u16le bytes (base + 2);
    }
