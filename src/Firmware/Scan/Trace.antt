-- ===== src/Firmware/Scan/Trace.antt =====
-- One watched pin over many scans of event_poll in src/UsbIo.cpp.
use arduino_driver.Prelude.{
  ℕ, zero, suc, ◌+◌, ◌≡◌, refl, ap₂, ◌∙◌, true, false, List, [], ◌∷◌, ◌++◌, arith, length, map, u16,
  ◌==◌,
}
use arduino_driver.Firmware.Scan.{Verdict, idle, accepted, scan_watch, watch_after}
use arduino_driver.Firmware.State.{Event, EventWatch}

abbrev pub events_of : Verdict → List Event
events_of (idle w) = []
events_of (accepted w event) = event ∷ []

-- A scan at each of the times, with the level that the pin has then.
unfoldable pub run_watch : List (ℕ × ℕ) → EventWatch → EventWatch × List Event
run_watch [] w = (w, [])
run_watch ((now, level) ∷ samples) w =
    let verdict = scan_watch now level w in
    let (w', events) = run_watch samples (watch_after verdict) in (w', events_of verdict ++ events)

-- `first`, `first + 1`, … as many as `n`.
unfoldable pub count_up : ℕ → ℕ → List ℕ
count_up first zero = []
count_up first (suc n) = first ∷ count_up (suc first) n

abbrev pub seq_of : Event → ℕ
seq_of event = event.seq

-- What one scan does to a watch that poll() knows.
abbrev Scanned : EventWatch → Verdict → Type 0
Scanned w (idle w') = (w'.active ≡ true) × (w'.seen_seq ≡ w'.arm_seq) × (w'.count ≡ w.count)
Scanned w (accepted w' event) =
    (w'.active ≡ true)
    × (w'.seen_seq ≡ w'.arm_seq)
    × (w'.count ≡ u16 (w.count + 1))
    × (event.seq ≡ u16 (w.count + 1))

scan_watch-Scanned :
    (now level : ℕ) (w : EventWatch)
    → w.active ≡ true
    → w.seen_seq ≡ w.arm_seq
    → Scanned w (scan_watch now level w)
unfolding scan_watch
scan_watch-Scanned now level w active seen = ground arith

-- The events of a run after `first` others, and the count it leaves.
record Counted (first : ℕ) (out : EventWatch × List Event) : Type 0 where
  seqs : map seq_of out.1 ≡ map u16 (count_up (suc first) (length out.1))
  count : out.0.count ≡ u16 (first + length out.1)

-- One scan before a run.
Counted-cons :
    (first : ℕ) (w : EventWatch) (v : Verdict) (rest : EventWatch × List Event)
    → w.count ≡ u16 first
    → Scanned w v
    → ((next : ℕ) → (watch_after v).count ≡ u16 next → Counted next rest)
    → Counted first (rest.0, events_of v ++ rest.1)
unfolding count_up
Counted-cons first w (idle w') rest few s later =
    let c = later first (s.2 ∙ few) in record { seqs = c.seqs; count = c.count }
Counted-cons first w (accepted w' event) rest few s later =
    let e : u16 (w.count + 1) ≡ u16 (suc first) = omega arith in
    let c = later (suc first) (s.2 ∙ e) in
    record { seqs = ap₂ ◌∷◌ (s.3 ∙ e) c.seqs; count = omega (arith, c.count) }

Scanned-active : (w : EventWatch) (v : Verdict) → Scanned w v → (watch_after v).active ≡ true
Scanned-active w (idle w') s = s.0
Scanned-active w (accepted w' event) s = s.0

Scanned-seen :
    (w : EventWatch) (v : Verdict)
    → Scanned w v
    → (watch_after v).seen_seq ≡ (watch_after v).arm_seq
Scanned-seen w (idle w') s = s.1
Scanned-seen w (accepted w' event) s = s.1

run_watch-Counted :
    (samples : List (ℕ × ℕ)) (first : ℕ) (w : EventWatch)
    → w.active ≡ true
    → w.seen_seq ≡ w.arm_seq
    → w.count ≡ u16 first
    → Counted first (run_watch samples w)
unfolding run_watch
run_watch-Counted [] first w active seen count = record {
  seqs = unfold count_up in refl;
  count = omega (arith, count);
}
run_watch-Counted ((now, level) ∷ samples) first w active seen count =
    let v = scan_watch now level w in
    let s = scan_watch-Scanned now level w active seen in
    Counted-cons first w v (run_watch samples (watch_after v)) count s (λ next e.
      run_watch-Counted samples next (watch_after v) (Scanned-active w v s) (Scanned-seen w v s) e)

-- The scan that first sees an arm.
fresh_scan :
    (now level : ℕ) (w : EventWatch)
    → w.active ≡ true
    → (w.seen_seq == w.arm_seq) ≡ false
    → scan_watch now level w
      ≡ idle
          (record w { seen_seq = w.arm_seq; count = 0; prev_level = level; debounce_until = now })
unfolding scan_watch
fresh_scan now level w active fresh = ground arith

-- For a watch in use whose arming stamp differs from the stamp that poll() saw last, from the scan that
-- first sees its arm on and over any number of scans after it, at any times and levels: that first scan
-- reports no event, whatever the level; the events after it carry the sequence numbers 1, 2, 3, …
-- without a gap, modulo 2 ^ 16; and the count of the watch is the number of events modulo 2 ^ 16.
pub run_watch_lem :
    (now level : ℕ) (samples : List (ℕ × ℕ)) (w : EventWatch)
    → w.active ≡ true
    → (w.seen_seq == w.arm_seq) ≡ false
    → let (after, events) = run_watch ((now, level) ∷ samples) w in
      (events_of (scan_watch now level w) ≡ [])
      × (map seq_of events ≡ map u16 (count_up 1 (length events)))
      × (after.count ≡ u16 (length events))
unfolding run_watch
run_watch_lem now level samples w active fresh =
    let base : EventWatch = record w {
      seen_seq = w.arm_seq;
      count = 0;
      prev_level = level;
      debounce_until = now;
    } in
    let c = run_watch-Counted samples 0 base active refl refl in
    rw (fresh_scan now level w active fresh) (refl, c.seqs, omega (arith, c.count))
