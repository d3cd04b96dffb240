-- ===== src/Host/Stream/Wire.antt =====
-- A record of src/UsbIo.cpp in the worker of extras/driver/src/Stream.cpp.
use arduino_driver.Prelude.{
  ℕ, suc, ◌+◌, ◌*◌, ◌/◌, ◌%◌, ◌^◌, ◌≤◌, ◌<◌, ◌≡◌, refl, sym, ap, ap₂, ◌∙◌, Bool, true, false, List,
  [], ◌∷◌, ◌++◌, arith, ltb, if◌then◌else◌, length, drop, get_or, length-append, append_assoc, u8,
  some, append-nil, Bool-cases, inl, inr,
}
use arduino_driver.Protocol.Bytes.{put_u16, read_u8, read_u16le}
use arduino_driver.Protocol.Decode.{StreamHeader}
use arduino_driver.Protocol.Layout
use arduino_driver.Protocol.Limit
use arduino_driver.Protocol.Sizes.{stream_record_len}
use arduino_driver.Firmware.Sample.{record_bytes, digital_part}
use arduino_driver.Firmware.Sample.Record.{
  is_digital, length-header, length-record_bytes, decode-record_bytes,
}
use arduino_driver.Firmware.State.{Device}
use arduino_driver.Host.Stream.{
  Session, Worker, Sample, go_on, round, parse, feed, read_samples, accept, is_stale, resynced,
  starts_record, deliver, gap_before,
}
use arduino_driver.Host.Stream.Chunks.{
  parse_go, parse_wait, parse-fuel, round-nil, round_at, record_len-ge,
}

-- The bytes of the values that the firmware sampled.
unfoldable pub value_bytes : List ℕ → List ℕ
value_bytes [] = []
value_bytes (v ∷ vs) = put_u16 v ++ value_bytes vs

pub length-value_bytes : (vs : List ℕ) → length (value_bytes vs) ≡ 2 * length vs
unfolding value_bytes
length-value_bytes [] = refl
length-value_bytes (v ∷ vs) = omega (arith, length-value_bytes vs)

-- Whether every value fits uint16_t.
unfoldable pub all_words : List ℕ → Bool
all_words [] = true
all_words (v ∷ vs) = if ltb v (2 ^ 16) then all_words vs else false

-- A sample for each pin and its value.
unfoldable pub samples_of : List ℕ → List ℕ → ℕ → List Sample
samples_of [] vs t_us = []
samples_of (pin ∷ pins) [] t_us = []
samples_of (pin ∷ pins) (v ∷ vs) t_us =
    record { pin = pin; raw = v; t_us = t_us } ∷ samples_of pins vs t_us

get_or-behind : (xs ys : List ℕ) (i : ℕ) → get_or (xs ++ ys) (i + length xs) 0 ≡ get_or ys i 0
get_or-behind [] ys i = ap (λ (k : ℕ). get_or ys k 0) (let e : i + 0 ≡ i = omega arith in e)
get_or-behind (x ∷ xs) ys i =
    ap (λ (k : ℕ). get_or (x ∷ (xs ++ ys)) k 0)
      (let e : i + suc (length xs) ≡ suc (i + length xs) = omega arith in e)
    ∙ get_or-behind xs ys i

-- A value behind `xs`.
read-value :
    (xs rest : List ℕ) (v k : ℕ)
    → v < 2 ^ 16
    → k ≡ length xs
    → read_u16le (xs ++ (put_u16 v ++ rest)) k ≡ v
unfolding read_u16le read_u8
read-value xs rest v k h e =
    let low = get_or-behind xs (put_u16 v ++ rest) 0 in
    let high = get_or-behind xs (put_u16 v ++ rest) 1 in
    let at_low : get_or (xs ++ (put_u16 v ++ rest)) k 0 ≡ v % 256 =
      ap (λ (i : ℕ). get_or (xs ++ (put_u16 v ++ rest)) i 0)
        (let q : k ≡ 0 + length xs = omega arith in q)
      ∙ low in
    let at_high : get_or (xs ++ (put_u16 v ++ rest)) (k + 1) 0 ≡ u8 (v / 256) =
      ap (λ (i : ℕ). get_or (xs ++ (put_u16 v ++ rest)) i 0)
        (let q : k + 1 ≡ 1 + length xs = omega arith in q)
      ∙ high in
    omega (arith, at_low, at_high)

read_samples-of :
    (xs rest : List ℕ) (i : ℕ) (pins vs : List ℕ) (t_us : ℕ)
    → length xs ≡ 12 + 2 * i
    → length pins ≡ length vs
    → all_words vs ≡ true
    → read_samples (xs ++ (value_bytes vs ++ rest)) i pins t_us ≡ samples_of pins vs t_us
unfolding read_samples samples_of value_bytes all_words
read_samples-of xs rest i [] vs t_us h e words = refl
read_samples-of xs rest i (pin ∷ pins) [] t_us h e words = absurd (omega arith)
read_samples-of xs rest i (pin ∷ pins) (v ∷ vs) t_us h e words =
    ap₂ ◌∷◌
      (ap (λ (raw : ℕ). record { pin = pin; raw = raw; t_us = t_us })
        (read-value xs (value_bytes vs ++ rest) v (12 + 2 * i) (ground arith) (sym h)))
      (ap (λ (bytes : List ℕ). read_samples bytes (suc i) pins t_us)
          (sym (append_assoc xs (put_u16 v) (value_bytes vs ++ rest)))
        ∙ read_samples-of (xs ++ put_u16 v) rest (suc i) pins vs t_us
            (omega (arith, length-append xs (put_u16 v))) (omega arith) (ground arith))

-- The session of the host is the stream that the device runs.
pub record Matches (c : Session) (d : Device) : Type 0 where
  pub channels : length c.pins ≡ d.stream.n_channels
  pub digital : c.digital ≡ is_digital d
  pub n_pins : c.n_pins ≡ d.n_pins

abbrev header_of : Device → ℕ → StreamHeader
header_of d now = record {
  magic = Limit.stream_magic;
  n_samples = d.stream.n_channels;
  seq = d.stream.seq;
  t_us = now;
}

-- What stands behind the values.
abbrev tail_of : Device → ℕ → List ℕ → List ℕ
tail_of d now samples =
    let s = d.stream in
    if is_digital d
    then digital_part d
        (length (Layout.stream_header_bytes Limit.stream_magic s.n_channels s.seq now ++ samples))
    else []

record_bytes-shape :
    (d : Device) (now : ℕ) (samples : List ℕ)
    → record_bytes d now samples
      ≡ Layout.stream_header_bytes Limit.stream_magic d.stream.n_channels d.stream.seq now
        ++ (samples ++ tail_of d now samples)
unfolding record_bytes
record_bytes-shape d now samples =
    let s = d.stream in
    let header = Layout.stream_header_bytes Limit.stream_magic s.n_channels s.seq now in
    elim (Bool-cases (is_digital d)) [
      | inl digital ↦
          rw digital (append_assoc header samples (digital_part d (length (header ++ samples))))
      | inr analog ↦ rw analog (ap (λ (xs : List ℕ). header ++ xs) (sym (append-nil samples)))
    ]

-- The worker after a record with these samples.
abbrev pub received : Session → Worker → List Sample → ℕ → Worker
received c w samples seq =
    let w0 = resynced w in
    deliver c samples (record w0 {
      stats = record (w0.stats) {
        seq_gaps = w0.stats.seq_gaps + gap_before w0.last_seq seq;
        records_received = w0.stats.records_received + 1;
      };
      last_seq = some seq;
    })

accept-record :
    (c : Session) (d : Device) (now : ℕ) (vs : List ℕ) (w : Worker)
    → length c.pins ≡ length vs
    → all_words vs ≡ true
    → accept c (header_of d now) (record_bytes d now (value_bytes vs)) (resynced w)
      ≡ received c w (samples_of c.pins vs now) d.stream.seq
unfolding accept
accept-record c d now vs w e words =
    let s = d.stream in
    let header = Layout.stream_header_bytes Limit.stream_magic s.n_channels s.seq now in
    let read : read_samples (record_bytes d now (value_bytes vs)) 0 c.pins now
        ≡ samples_of c.pins vs now =
      ap (λ (bytes : List ℕ). read_samples bytes 0 c.pins now)
        (record_bytes-shape d now (value_bytes vs))
      ∙ read_samples-of header (tail_of d now (value_bytes vs)) 0 c.pins vs now
          (length-header Limit.stream_magic s.n_channels s.seq now) e words in
    ap (λ (samples : List Sample). received c w samples s.seq) read

round_at-full :
    (c : Session) (header : StreamHeader) (bytes : List ℕ) (w : Worker)
    → starts_record c header ≡ true
    → length bytes ≡ stream_record_len header.n_samples c.digital c.n_pins
    → is_stale c header.t_us ≡ false
    → round_at c header bytes w ≡ go_on (length bytes) (accept c header bytes (resynced w))
round_at-full c header bytes w starts whole current =
    ground (arith, record_len-ge header.n_samples c.digital c.n_pins)

round-record :
    (c : Session) (d : Device) (now : ℕ) (vs : List ℕ) (w : Worker)
    → Matches c d
    → length vs ≡ d.stream.n_channels
    → d.stream.n_channels ≤ 8
    → d.stream.seq < 2 ^ 32
    → now < 2 ^ 32
    → is_stale c now ≡ false
    → let bytes = record_bytes d now (value_bytes vs) in
      round c bytes w ≡ go_on (length bytes) (accept c (header_of d now) bytes (resynced w))
unfolding round
round-record c d now vs w m e few seq time current =
    let bytes = record_bytes d now (value_bytes vs) in
    let len = length-record_bytes d now (value_bytes vs) (omega (arith, length-value_bytes vs)) in
    let shape : stream_record_len d.stream.n_channels c.digital c.n_pins
        ≡ stream_record_len d.stream.n_channels (is_digital d) d.n_pins =
      rw (m.digital, m.n_pins) refl in
    ap (λ (h : StreamHeader). round_at c h bytes w)
      (decode-record_bytes d now (value_bytes vs) few seq time)
    ∙ round_at-full c (header_of d now) bytes w (ground (arith, m.channels)) (len ∙ sym shape)
        current

drop-all : (xs : List ℕ) → drop (length xs) xs ≡ []
drop-all [] = refl
drop-all (x ∷ xs) = drop-all xs

-- A record of at most eight 16-bit values that the firmware sampled for the session's stream, with
-- a 32-bit sequence number and time and not older than the session, is taken whole from an empty
-- buffer: the buffer is empty again, and the worker delivers one sample for each pin, with the
-- values and the time that the firmware sampled, and counts the record and the gap before its
-- number.
pub feed-record :
    (c : Session) (d : Device) (now : ℕ) (vs : List ℕ) (w : Worker)
    → Matches c d
    → length vs ≡ d.stream.n_channels
    → all_words vs ≡ true
    → d.stream.n_channels ≤ 8
    → d.stream.seq < 2 ^ 32
    → now < 2 ^ 32
    → is_stale c now ≡ false
    → feed c (record_bytes d now (value_bytes vs)) ([], w)
      ≡ ([], received c w (samples_of c.pins vs now) d.stream.seq)
unfolding feed
feed-record c d now vs w m e words few seq time current =
    let bytes = record_bytes d now (value_bytes vs) in
    let after = accept c (header_of d now) bytes (resynced w) in
    parse-fuel c (length bytes) (suc (length bytes)) bytes w (omega (arith, m.channels))
      (omega arith) (omega arith)
    ∙ parse_go c (length bytes) bytes w (length bytes) after
        (round-record c d now vs w m e few seq time current)
    ∙ ap (λ (xs : List ℕ). parse c (length bytes) xs after) (drop-all bytes)
    ∙ parse_wait c (length bytes) [] after (round-nil c after)
    ∙ ap (λ (u : Worker). ([], u)) (accept-record c d now vs w (omega (arith, m.channels)) words)
