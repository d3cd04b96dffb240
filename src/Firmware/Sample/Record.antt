-- ===== src/Firmware/Sample/Record.antt =====
-- The records that stream_sample of src/UsbIo.cpp builds, as the host reads them.
use arduino_driver.Prelude.{
  ℕ, zero, suc, ◌+◌, ◌*◌, ◌%◌, ◌^◌, ◌≤◌, ◌<◌, ◌≡◌, refl, ap, ◌∙◌, Bool, not, List, [], ◌∷◌, ◌++◌,
  arith, ◌==◌, if◌then◌else◌, length, length-append, append_assoc, bit_and, inl, inr, Bool-cases,
  get_or,
}
use arduino_driver.Protocol.Decode.{decode_stream_header}
use arduino_driver.Protocol.Decode.Wire.{decode_stream_header-bytes}
use arduino_driver.Protocol.Layout
use arduino_driver.Protocol.Limit
use arduino_driver.Protocol.Mode
use arduino_driver.Protocol.Sizes.{stream_record_len, stream_digital_bitmap_len, dio_bitmap_len}
use arduino_driver.Protocol.StreamFlag
use arduino_driver.Firmware.Board.{Board, Core}
use arduino_driver.Firmware.Poll.{read_pin, read_analog}
use arduino_driver.Firmware.Reply.{dio_bitmap}
use arduino_driver.Firmware.Reply.Bitmap.{length-dio_bitmap}
use arduino_driver.Firmware.Sample.{record_bytes, digital_part, sample_channels}
use arduino_driver.Firmware.State.{Device, mode_of}

pub length-header : (magic n seq now : ℕ) → length (Layout.stream_header_bytes magic n seq now) ≡ 12
unfolding Layout.stream_header_bytes
length-header magic n seq now = refl

-- Whether the records of the stream carry the bitmap.
abbrev pub is_digital : Device → Bool
is_digital d = not (bit_and d.stream.flags StreamFlag.digital == 0)

length-digital_part :
    (d : Device) (off : ℕ)
    → off % 2 ≡ 0
    → length (digital_part d off) ≡ stream_digital_bitmap_len d.n_pins
unfolding digital_part stream_digital_bitmap_len dio_bitmap_len
length-digital_part d off even =
    ground (arith, length-dio_bitmap d, length-append (dio_bitmap d) (0 ∷ []))

pub length-record_bytes :
    (d : Device) (now : ℕ) (samples : List ℕ)
    → length samples ≡ 2 * d.stream.n_channels
    → length (record_bytes d now samples)
      ≡ stream_record_len d.stream.n_channels (is_digital d) d.n_pins
unfolding record_bytes stream_record_len
length-record_bytes d now samples h =
    let s = d.stream in
    let header = Layout.stream_header_bytes Limit.stream_magic s.n_channels s.seq now in
    let head : length (header ++ samples) ≡ 12 + 2 * s.n_channels = omega (
      arith,
      length-append header samples,
      length-header Limit.stream_magic s.n_channels s.seq now,
    ) in
    ground (
      arith,
      head,
      length-append (header ++ samples) (digital_part d (length (header ++ samples))),
      length-digital_part d (length (header ++ samples)) (omega arith),
    )

stream_record_len-even :
    (n : ℕ) (digital : Bool) (n_pins : ℕ)
    → n ≤ 8
    → n_pins ≤ 128
    → (stream_record_len n digital n_pins % 2 ≡ 0) × (stream_record_len n digital n_pins < 256)
unfolding stream_record_len stream_digital_bitmap_len dio_bitmap_len
stream_record_len-even n digital n_pins few fits = ground arith

pub decode-record_bytes :
    (d : Device) (now : ℕ) (samples : List ℕ)
    → d.stream.n_channels ≤ 8
    → d.stream.seq < 2 ^ 32
    → now < 2 ^ 32
    → decode_stream_header (record_bytes d now samples) ≡ record {
      magic = Limit.stream_magic;
      n_samples = d.stream.n_channels;
      seq = d.stream.seq;
      t_us = now;
    }
unfolding record_bytes
decode-record_bytes d now samples few seq time =
    let s = d.stream in
    let header = Layout.stream_header_bytes Limit.stream_magic s.n_channels s.seq now in
    let part = digital_part d (length (header ++ samples)) in
    let plain =
      decode_stream_header-bytes Limit.stream_magic s.n_channels s.seq now samples (omega arith)
        (omega arith) seq time in
    let marked =
      decode_stream_header-bytes Limit.stream_magic s.n_channels s.seq now (samples ++ part)
        (omega arith) (omega arith) seq time in
    elim (Bool-cases (is_digital d)) [
      | inl digital ↦
          rw digital (ap decode_stream_header (append_assoc header samples part) ∙ marked)
      | inr analog ↦ rw analog plain
    ]

module _ (b : Board) (c : Core) where
  open c use {World}

  length-sample_channels :
      (d : Device) (i n : ℕ) (w : World) → length (sample_channels b c d i n w).0 ≡ 2 * n
  unfolding sample_channels
  length-sample_channels d i zero w = refl
  length-sample_channels d i (suc n) w =
      let pin = get_or d.stream.channels i 0 in
      let read =
        if mode_of d pin == Mode.analog_in then read_analog b c pin w else read_pin b c pin w in
      omega (arith, length-sample_channels d (suc i) n read.1)

  -- A record of at most eight channels, on at most 128 pins and with a 32-bit sequence number and
  -- time, has the length that the host computes for its shape; that is an even number of bytes, and
  -- less than 256, so that the length byte of the ring holds it. Its header decodes to the magic,
  -- the number of channels, the sequence number and the time of the sample.
  pub stream_record_lem :
      (d : Device) (w : World) (now : ℕ)
      → d.stream.n_channels ≤ 8
      → d.n_pins ≤ 128
      → d.stream.seq < 2 ^ 32
      → now < 2 ^ 32
      → let bytes = record_bytes d now (sample_channels b c d 0 d.stream.n_channels w).0 in
        (length bytes ≡ stream_record_len d.stream.n_channels (is_digital d) d.n_pins)
        × (length bytes % 2 ≡ 0)
        × (length bytes < 256)
        × (decode_stream_header bytes ≡ record {
          magic = Limit.stream_magic;
          n_samples = d.stream.n_channels;
          seq = d.stream.seq;
          t_us = now;
        })
  stream_record_lem d w now few fits seq time =
      let samples = (sample_channels b c d 0 d.stream.n_channels w).0 in
      let len =
        length-record_bytes d now samples (length-sample_channels d 0 d.stream.n_channels w) in
      let shape = stream_record_len-even d.stream.n_channels (is_digital d) d.n_pins few fits in
      (len, rw len shape.0, rw len shape.1, decode-record_bytes d now samples few seq time)
