-- ===== src/Firmware/Scan.antt =====
-- Edge detection on the loop() side of src/UsbIo.cpp: push_event and event_poll.
pub mod Trace
use arduino_driver.Prelude.{
  ℕ, ◌+◌, ◌^◌, Bool, ◌||◌, not, List, [], ◌∷◌, u8, u16, u32, u32_sub, ltb, leb, ◌==◌, if◌then◌else◌,
  get_or,
}
use arduino_driver.Protocol.Edge
use arduino_driver.Firmware.Board.{Core}
use arduino_driver.Firmware.Ring.{is_full, put}
use arduino_driver.Firmware.State.{Device, Event, EventWatch, Events}

-- A full ring drops the newest edge, and `dropped` saturates.
unfoldable pub push_event : Events → Event → Events
push_event e event =
    if is_full e.ring
    then (if ltb e.dropped 0xff then record e { dropped = u8 (e.dropped + 1) } else e)
    else record e { ring = put e.ring event }

abbrev pub matches_edge : ℕ → Bool → Bool
matches_edge edge_mode rising =
    edge_mode == Edge.change
    || (if rising then edge_mode == Edge.rising else edge_mode == Edge.falling)

-- `(int32_t)(now - until) < 0`
abbrev pub before : ℕ → ℕ → Bool
before now until = leb (2 ^ 31) (u32_sub now until)

-- What one round of the scan decides for a slot.
pub data Verdict : Type 0 where
  idle : EventWatch → Verdict
  accepted : EventWatch → Event → Verdict

unfoldable pub scan_watch : ℕ → ℕ → EventWatch → Verdict
scan_watch now level w =
    let rising = not (level == 0) in
    let seen = record w { prev_level = level } in
    let count = u16 (w.count + 1) in
    if not w.active
    then idle w
    else if not (w.seen_seq == w.arm_seq)
    then idle
        (record w { seen_seq = w.arm_seq; count = 0; prev_level = level; debounce_until = now })
    else if level == w.prev_level
    then idle w
    else if not (matches_edge w.edge_mode rising) || before now w.debounce_until
    then idle seen
    else accepted (record seen { count = count; debounce_until = u32 (now + w.debounce_ms) })
        (record {
          pin = w.pin;
          edge = if rising then Edge.rising else Edge.falling;
          seq = count;
          t_ms = now;
        })

abbrev pub push_verdict : Events → Verdict → Events
push_verdict e (idle w) = e
push_verdict e (accepted w event) = push_event e event

abbrev pub watch_after : Verdict → EventWatch
watch_after (idle w) = w
watch_after (accepted w event) = w

-- The slots in table order; a round pushes into the ring that the rounds before it left.
unfoldable pub scan : List ℕ → ℕ → List EventWatch → Events → List EventWatch × Events
scan dio now [] e = ([], e)
scan dio now (w ∷ ws) e =
    let verdict = scan_watch now (get_or dio w.pin 0) w in
    let (ws', e') = scan dio now ws (push_verdict e verdict) in (watch_after verdict ∷ ws', e')

unfoldable pub event_poll_at : ℕ → Device → Device
event_poll_at now d =
    let (watch, e) = scan d.dio now d.events.watch d.events in
    record d { events = record e { watch = watch } }

module _ (c : Core) where
  open c use {World}

  unfoldable pub event_poll : Device × World → Device × World
  event_poll (d, w) =
      let (now, w') = c.millis w in if d.n_pins == 0 then (d, w) else (event_poll_at now d, w')
