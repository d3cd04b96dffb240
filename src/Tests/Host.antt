-- ===== src/Tests/Host.antt =====
-- The host's stream worker on records of the device of Fixtures.
use arduino_driver.Prelude.{
  ◌≡◌, ◌≤◌, ◌+◌, ◌++◌, refl, arith, true, false, [], ◌∷◌, length, drop, none, ℕ, ◌⊎◌, ◌<◌, take,
  get_or,
}
use arduino_driver.Firmware.Sample.{record_bytes}
use arduino_driver.Host.Stream.{Session, Worker, Sample, feed, deliver, read}
use arduino_driver.Host.Stream.Chunks.{feed-append}
use arduino_driver.Host.Stream.Ready.{deliver_lem, read_lem, flatten}
use arduino_driver.Host.Stream.Wire.{
  Matches, value_bytes, all_words, samples_of, received, feed-record,
}
use arduino_driver.Tests.Fixtures.{device}

-- The stream of the device: pins 3 and 2, with the bitmap.
abbrev session : Session
session = record {
  pins = 3 ∷ 2 ∷ [];
  n_pins = 4;
  digital = true;
  start_t_us = 5000;
  queue_capacity = 2;
}

abbrev sample : ℕ → Sample
sample raw = record { pin = 3; raw = raw; t_us = 6000 }

abbrev worker : Worker
worker = record {
  ready = (sample 1 ∷ []) ∷ (sample 2 ∷ sample 3 ∷ []) ∷ [];
  stats = record {
    device_overruns = 0;
    records_received = 2;
    seq_gaps = 0;
    host_drops = 0;
    resyncs = 0;
    stale_records = 0;
  };
  last_seq = none;
  hunting = false;
}

-- A byte that starts no record, and a record cut in two.
feed-append_example :
    feed session (1 ∷ 2 ∷ []) (feed session (7 ∷ 0x55 ∷ []) (0x53 ∷ [], worker))
    ≡ feed session (7 ∷ 0x55 ∷ 1 ∷ 2 ∷ []) (0x53 ∷ [], worker)
feed-append_example =
    feed-append session (7 ∷ 0x55 ∷ []) (1 ∷ 2 ∷ []) (0x53 ∷ []) worker (omega arith)

session-Matches : Matches session device
session-Matches = record { channels = refl; digital = refl; n_pins = refl }

two_words : all_words (700 ∷ 1 ∷ []) ≡ true
unfolding all_words
two_words = refl

feed-record_example :
    feed session (record_bytes device 7000 (value_bytes (700 ∷ 1 ∷ []))) ([], worker)
    ≡ ([], received session worker (samples_of (3 ∷ 2 ∷ []) (700 ∷ 1 ∷ []) 7000) 0)
feed-record_example =
    feed-record session device 7000 (700 ∷ 1 ∷ []) worker session-Matches refl two_words
      (omega arith) (omega arith) (omega arith) refl

-- The queue is full: its oldest record goes.
deliver_lem_example :
    let after = deliver session (sample 9 ∷ []) worker in
    (after.ready ≡ drop 1 (worker.ready ++ (sample 9 ∷ []) ∷ []))
    × (after.stats.host_drops ≡ 0 + 1)
    × (length after.ready ≤ 2)
deliver_lem_example = deliver_lem session (sample 9 ∷ []) worker (omega arith)

-- Room for two samples: the second record does not fit.
read_lem_example :
    let (copied, left) = read 2 worker.ready in
    (k : ℕ) × (copied ≡ flatten (take k worker.ready))
    × (left ≡ drop k worker.ready)
    × (length copied ≤ 2)
    × ((left ≡ []) ⊎ (2 < length copied + length (get_or left 0 [])))
read_lem_example = read_lem 2 worker.ready
