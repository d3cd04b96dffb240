-- ===== src/Host/Stream.antt =====
-- The worker of extras/driver/src/Stream.cpp that cuts the byte stream of the bulk endpoint into records:
-- the parsing loop of Stream::Impl::worker_main, Stream::Impl::deliver, and the copying of Stream::read. The mutex and the callback of
-- the user are left out, and so is Sample::volts, a floating-point function of `raw`.
pub mod Chunks
pub mod Wire
pub mod Ready
use arduino_driver.Prelude.{
  ℕ, zero, suc, ◌+◌, ◌-◌, ◌*◌, ◌^◌, Bool, true, false, ◌&&◌, ◌||◌, not, Option, none, some, List,
  [], ◌∷◌, ◌++◌, ltb, leb, ◌==◌, if◌then◌else◌, length, drop, u16, u32, u32_sub,
}
use arduino_driver.Protocol.Bytes.{read_u16le}
use arduino_driver.Protocol.Decode.{StreamHeader, decode_stream_header}
use arduino_driver.Protocol.Limit
use arduino_driver.Protocol.Sizes.{stream_record_len}

pub record Sample : Type 0 where
  pub pin : ℕ
  pub raw : ℕ
  pub t_us : ℕ

pub record StreamStats : Type 0 where
  pub device_overruns : ℕ
  pub records_received : ℕ
  pub seq_gaps : ℕ
  pub host_drops : ℕ
  pub resyncs : ℕ
  pub stale_records : ℕ

-- What the session was started with.
pub record Session : Type 0 where
  pub pins : List ℕ
  pub n_pins : ℕ
  pub digital : Bool
  pub start_t_us : ℕ
  pub queue_capacity : ℕ

pub record Worker : Type 0 where
  pub ready : List (List Sample)
  pub stats : StreamStats
  pub last_seq : Option ℕ
  pub hunting : Bool

-- `while (ready.size() >= queue_capacity) { ready.pop_front(); ++host_drops; }`; a capacity of 0, which
-- Device::start_stream refuses, would pop from an empty queue, and stops here.
unfoldable pub make_room : ℕ → List (List Sample) → ℕ → List (List Sample) × ℕ
make_room capacity [] drops = ([], drops)
make_room capacity (r ∷ rs) drops =
    let rest = make_room capacity rs (drops + 1) in
    if leb capacity (length (r ∷ rs)) then rest else (r ∷ rs, drops)

unfoldable pub deliver : Session → List Sample → Worker → Worker
deliver c samples w =
    let (kept, drops) = make_room c.queue_capacity w.ready w.stats.host_drops in
    record w { ready = kept ++ samples ∷ []; stats = record (w.stats) { host_drops = drops } }

-- The samples of a record, one for each pin of the session.
unfoldable pub read_samples : List ℕ → ℕ → List ℕ → ℕ → List Sample
read_samples head i [] t_us = []
read_samples head i (pin ∷ pins) t_us =
    record { pin = pin; raw = read_u16le head (Limit.stream_header_len + 2 * i); t_us = t_us }
    ∷ read_samples head (suc i) pins t_us

-- `age != 0 && age < 0x80000000`: sampled before the session started.
abbrev pub is_stale : Session → ℕ → Bool
is_stale c t_us = let age = u32_sub c.start_t_us t_us in not (age == 0) && ltb age (2 ^ 31)

-- The records lost before this one; a jump backwards counts none.
unfoldable pub gap_before : Option ℕ → ℕ → ℕ
gap_before none seq = 0
gap_before (some last) seq =
    let gap = u32_sub seq (u32 (last + 1)) in if ltb gap (2 ^ 31) then gap else 0

unfoldable pub resynced : Worker → Worker
resynced w =
    if w.hunting
    then record w { stats = record (w.stats) { resyncs = w.stats.resyncs + 1 }; hunting = false }
    else w

unfoldable pub discard_stale : Worker → Worker
discard_stale w = record w {
  stats = record (w.stats) { stale_records = w.stats.stale_records + 1 };
}

unfoldable pub accept : Session → StreamHeader → List ℕ → Worker → Worker
accept c header head w = deliver c (read_samples head 0 c.pins header.t_us) (record w {
  stats = record (w.stats) {
    seq_gaps = w.stats.seq_gaps + gap_before w.last_seq header.seq;
    records_received = w.stats.records_received + 1;
  };
  last_seq = some header.seq;
})

-- One round of the loop: it ends with `head` not used up, or goes on behind what it used.
pub data Round : Type 0 where
  wait : Round
  go_on : ℕ → Worker → Round

-- Whether a record of this session can start here.
abbrev pub starts_record : Session → StreamHeader → Bool
starts_record c header =
    header.magic == Limit.stream_magic && header.n_samples == u16 (length c.pins)

unfoldable pub round : Session → List ℕ → Worker → Round
round c head w =
    let header = decode_stream_header head in
    let len = stream_record_len header.n_samples c.digital c.n_pins in
    if ltb (length head) Limit.stream_header_len
    then wait
    else if not (starts_record c header)
    then go_on 1 (record w { hunting = true })
    else if ltb (length head) len
    then wait
    else if is_stale c header.t_us
    then go_on len (discard_stale (resynced w))
    else go_on len (accept c header head (resynced w))

-- The loop over the buffer. Each round that goes on uses a byte at least, so the length of the buffer is fuel enough.
unfoldable pub parse : Session → ℕ → List ℕ → Worker → List ℕ × Worker
parse c zero buffer w = (buffer, w)
parse c (suc fuel) buffer w = elim (round c buffer w) [
  | wait ↦ (buffer, w)
  | go_on used w' ↦ parse c fuel (drop used buffer) w'
]

-- A chunk arrives behind what the buffer still holds.
unfoldable pub feed : Session → List ℕ → List ℕ × Worker → List ℕ × Worker
feed c chunk (buffer, w) = parse c (length (buffer ++ chunk)) (buffer ++ chunk) w

-- The copying loop of Stream::read: whole records, while they fit into what is left of `out`.
unfoldable pub read : ℕ → List (List Sample) → List Sample × List (List Sample)
read room [] = ([], [])
read room (front ∷ ready) =
    let (copied, left) = read (room - length front) ready in
    if ltb room (length front) then ([], front ∷ ready) else (front ++ copied, left)
