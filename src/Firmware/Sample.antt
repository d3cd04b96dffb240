-- ===== src/Firmware/Sample.antt =====
-- Streaming on the loop() side of src/UsbIo.cpp: stream_sample and stream_poll.
pub mod Packing
pub mod Record
use arduino_driver.Prelude.{
  ℕ, zero, suc, ◌+◌, ◌%◌, Bool, false, ◌&&◌, ◌||◌, not, List, [], ◌∷◌, ◌++◌, u8, u16, u16_sub, u32,
  u32_sub, ltb, ◌==◌, if◌then◌else◌, get_or, take, length, bit_and,
}
use arduino_driver.Protocol.Bytes.{put_u16}
use arduino_driver.Protocol.Layout
use arduino_driver.Protocol.Limit
use arduino_driver.Protocol.Mode
use arduino_driver.Protocol.StreamFlag
use arduino_driver.Firmware.Board.{Board, Core, WriteResult, sent, busy, failed}
use arduino_driver.Firmware.Poll.{read_pin, read_analog}
use arduino_driver.Firmware.Reply.{dio_bitmap}
use arduino_driver.Firmware.Ring.{is_full, put, front, advance, pending}
use arduino_driver.Firmware.Scan.{before}
use arduino_driver.Firmware.State.{
  Device, Streaming, zeroed_record, mode_of, stream_flush_us, stream_tx_failure_limit,
}

-- The bitmap of DIO_READ_ALL, padded to an even record length.
unfoldable pub digital_part : Device → ℕ → List ℕ
digital_part d off =
    let bitmap = dio_bitmap d in if (off + length bitmap) % 2 == 1 then bitmap ++ 0 ∷ [] else bitmap

-- The bytes of a record, from its samples.
unfoldable pub record_bytes : Device → ℕ → List ℕ → List ℕ
record_bytes d now samples =
    let s = d.stream in
    let head = Layout.stream_header_bytes Limit.stream_magic s.n_channels s.seq now ++ samples in
    if not (bit_and s.flags StreamFlag.digital == 0)
    then head ++ digital_part d (length head)
    else head

-- A full ring drops the record; `seq` moves on in either case.
unfoldable pub push_record : Streaming → List ℕ → Streaming
push_record s bytes =
    let s' = record s { seq = u32 (s.seq + 1) } in
    if is_full s.ring
    then record s' {
      overruns = u32 (s.overruns + 1);
      running = if not (bit_and s.flags StreamFlag.stop_on_overrun == 0) then false else s.running;
    }
    else record s' { ring = put s.ring (record { len = u8 (length bytes); bytes = bytes }) }

-- The reset that a START asks of poll().
unfoldable pub apply_start : Streaming → ℕ → Streaming
apply_start s now = record s {
  start_done = s.start_requests;
  ring = record (s.ring) { head = 0; tail = 0 };
  seq = 0;
  overruns = 0;
  tx_failures = 0;
  packet = [];
  packet_records = 0;
  record_len = 0;
  deadline_us = now;
}

-- `period == 0 || (int32_t)(now - deadline) >= 0`
abbrev pub is_due : Streaming → ℕ → Bool
is_due s now = s.period_us == 0 || not (before now s.deadline_us)

-- The deadline after a record; one that is already past restarts from `now`.
unfoldable pub next_deadline : Streaming → ℕ → Streaming
next_deadline s now =
    let deadline = u32 (s.deadline_us + s.period_us) in
    if s.period_us == 0 then s else record s {
      deadline_us = if not (before now deadline) then u32 (now + s.period_us) else deadline;
    }

-- One record moves from the ring into the packet.
unfoldable pub pack_one : Streaming → Streaming
pack_one s =
    let r = front zeroed_record s.ring in
    record s {
      packet = s.packet ++ take r.len r.bytes;
      record_len = r.len;
      packet_records = u8 (s.packet_records + 1);
      ring = advance s.ring;
    }

-- The packet left, or was dropped.
unfoldable pub clear_packet : Streaming → Streaming
clear_packet s = record s { tx_failures = 0; packet = []; packet_records = 0 }

-- The third failed write in a row ends the stream and counts the backlog as overruns.
unfoldable pub write_failed : Streaming → Streaming
write_failed s =
    let failures = u8 (s.tx_failures + 1) in
    if ltb failures stream_tx_failure_limit then record s { tx_failures = failures } else record s {
      running = false;
      overruns = u32 (s.overruns + s.packet_records + pending s.ring);
      ring = record (s.ring) { tail = s.ring.head };
      packet = [];
      packet_records = 0;
      tx_failures = 0;
    }

unfoldable pub after_write : Streaming → WriteResult → Streaming
after_write s sent = clear_packet s
after_write s busy = s
after_write s failed = write_failed s

module _ (b : Board) (c : Core) where
  open c use {World}

  -- The samples of the selected channels, in selection order.
  unfoldable pub sample_channels : Device → ℕ → ℕ → World → List ℕ × World
  sample_channels d i zero w = ([], w)
  sample_channels d i (suc n) w =
      let pin = get_or d.stream.channels i 0 in
      let (value, w') =
        if mode_of d pin == Mode.analog_in then read_analog b c pin w else read_pin b c pin w in
      let (rest, w'') = sample_channels d (suc i) n w' in (put_u16 value ++ rest, w'')

  unfoldable pub stream_sample : ℕ → Device × World → Device × World
  stream_sample now (d, w) =
      let (samples, w') = sample_channels d 0 d.stream.n_channels w in
      (record d { stream = push_record d.stream (record_bytes d now samples) }, w')

  abbrev pub stream_start_phase : Device × World → Device × World
  stream_start_phase (d, w) =
      let (now, w') = c.micros w in
      if d.stream.start_done == d.stream.start_requests
      then (d, w)
      else (record d { stream = apply_start d.stream now }, w')

  abbrev pub stream_sample_phase : Device × World → Device × World
  stream_sample_phase (d, w) =
      let (now, w') = c.micros w in
      let (d', w'') = stream_sample now (d, w') in
      if not d.stream.running
      then (d, w)
      else if is_due d.stream now
      then (record d' { stream = next_deadline d'.stream now }, w'')
      else (d, w')

  -- `while (_stream_tail != _stream_head)`, on as many rounds as records are queued.
  unfoldable pub pack_loop : ℕ → ℕ → Streaming × World → Streaming × World
  pack_loop packet_max zero s = s
  pack_loop packet_max (suc rounds) (s, w) =
      let (now, w') = c.micros w in
      let rest = pack_loop packet_max rounds (
        if length s.packet == 0
        then (pack_one (record s { packet_since_us = now }), w')
        else (pack_one s, w)) in
      if ltb packet_max (u16 (length s.packet + (front zeroed_record s.ring).len))
      then (s, w)
      else rest

  -- A packet that is not full waits for StreamFlushUs while the stream runs.
  abbrev pub flush_phase : ℕ → Streaming × World → Streaming × World
  flush_phase packet_max (s, w) =
      let full = ltb (u16_sub packet_max (length s.packet)) s.record_len in
      let (now, w') = c.micros w in
      let hold = not full && s.running in
      let clock_read = if hold then w' else w in
      let (result, w'') = c.stream_write s.packet clock_read in
      if length s.packet == 0
      then (s, w)
      else if hold && ltb (u32_sub now s.packet_since_us) stream_flush_us
      then (s, w')
      else (after_write s result, w'')

  unfoldable pub stream_drain : Device × World → Device × World
  stream_drain (d, w) =
      let packet_max = c.stream_packet_max w in
      let (s, w') =
        flush_phase packet_max (pack_loop packet_max (pending d.stream.ring) (d.stream, w)) in
      (record d { stream = s }, w')

  unfoldable pub stream_poll : Device × World → Device × World
  stream_poll s = stream_drain (stream_sample_phase (stream_start_phase s))
