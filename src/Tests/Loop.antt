-- ===== src/Tests/Loop.antt =====
-- RESET, a packet and a run of scans at concrete values.
use arduino_driver.Prelude.{
  ℕ, ◌≡◌, ◌<◌, refl, arith, true, u16, [], ◌∷◌, length, map, replicate, set, get_or, zero, suc,
}
use arduino_driver.Firmware.Poll.{drain}
use arduino_driver.Firmware.Poll.Cancel.{all_recent, request_reset_cancels}
use arduino_driver.Firmware.Poll.Drain.{emptied}
use arduino_driver.Firmware.Queue.{request_reset}
use arduino_driver.Firmware.Queue.Fifo.{waiting}
use arduino_driver.Firmware.Ring.{IsValid, pending, to_list, window, slot_of}
use arduino_driver.Firmware.Sample.{pack_loop}
use arduino_driver.Firmware.Sample.Packing.{Packed, pack_loop_lem}
use arduino_driver.Firmware.Scan.{scan_watch}
use arduino_driver.Firmware.Scan.Trace.{run_watch, run_watch_lem, events_of, seq_of, count_up}
use arduino_driver.Firmware.State.{
  Device, zeroed_command, EventWatch, Streaming, StreamRecord, zeroed_record,
}
use arduino_driver.Tests.Fixtures.{board, core, device, watched}

-- Two commands wait, and a RESET came between them.
abbrev mixed : Device
mixed = record device {
  commands = record {
    slots =
        set (set (replicate 32 zeroed_command) 0 (record zeroed_command { epoch = 255 })) 1
          zeroed_command;
    head = 2;
    tail = 0;
  };
  epoch = 0;
}

mixed-IsValid : IsValid mixed.commands
mixed-IsValid = omega arith

two_recent : all_recent 0 (waiting mixed) ≡ true
unfolding all_recent to_list window slot_of
two_recent = refl

request_reset_cancels_example :
    drain board core (request_reset board mixed, 0)
    ≡ (record (request_reset board mixed) { commands = emptied board core mixed.commands }, 0)
request_reset_cancels_example =
    request_reset_cancels board core mixed 0 mixed-IsValid (omega arith) two_recent

-- Two records of 40 bytes wait; the packet takes 63.
abbrev two_records : Streaming
two_records = record (device.stream) {
  ring = record {
    slots = replicate 32 (record { len = 40; bytes = replicate 40 9 });
    head = 1;
    tail = 255;
  };
}

two_records-IsValid : IsValid two_records.ring
two_records-IsValid = omega arith

replicate-lens :
    (n : ℕ) (r : StreamRecord)
    → r.len < 256
    → (i : ℕ) → (get_or (replicate n r) i zeroed_record).len < 256
replicate-lens zero r h i = omega arith
replicate-lens (suc n) r h zero = h
replicate-lens (suc n) r h (suc i) = replicate-lens n r h i

pack_loop_lem_example :
    Packed 63 two_records (pack_loop board core 63 (pending two_records.ring) (two_records, 0)).0
pack_loop_lem_example =
    pack_loop_lem board core 63 two_records 0 (omega arith) two_records-IsValid
      (replicate-lens 32 (record { len = 40; bytes = replicate 40 9 }) (omega arith)) (omega arith)

-- Pin 0 is armed anew while it is high.
abbrev fresh : EventWatch
fresh = record (watched 0) { arm_seq = 9; count = 5 }

run_watch_lem_example :
    let (after, events) = run_watch ((100, 1) ∷ (110, 0) ∷ (120, 1) ∷ []) fresh in
    (events_of (scan_watch 100 1 fresh) ≡ [])
    × (map seq_of events ≡ map u16 (count_up 1 (length events)))
    × (after.count ≡ u16 (length events))
run_watch_lem_example = run_watch_lem 100 1 ((110, 0) ∷ (120, 1) ∷ []) fresh refl refl
