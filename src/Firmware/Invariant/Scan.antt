-- ===== src/Firmware/Invariant/Scan.antt =====
-- event_poll of src/UsbIo.cpp neither arms nor disarms, and never overfills the event ring.
use arduino_driver.Prelude.{
  ℕ, suc, ◌≡◌, refl, ap, sym, ◌∙◌, Bool, List, [], ◌∷◌, arith, get_or, length,
}
use arduino_driver.Prelude.Tally.{tally}
use arduino_driver.Firmware.Invariant.Events.{IsWatching}
use arduino_driver.Firmware.Ring.{IsValid}
use arduino_driver.Firmware.Ring.Fifo.{put-IsValid}
use arduino_driver.Firmware.Scan.{
  Verdict, idle, accepted, scan_watch, watch_after, push_verdict, push_event, scan, event_poll_at,
}
use arduino_driver.Firmware.State.{Device, Event, EventWatch, Events}
use arduino_driver.Firmware.Watch.{watches}
use arduino_driver.Firmware.Watch.Table.{is_active}

push_event-IsValid :
    (e : Events) (event : Event) → IsValid e.ring → IsValid (push_event e event).ring
unfolding push_event
push_event-IsValid e event v = ground (arith, put-IsValid {r = e.ring} event v)

push_verdict-IsValid : (e : Events) (v : Verdict) → IsValid e.ring → IsValid (push_verdict e v).ring
push_verdict-IsValid e (idle w) v = v
push_verdict-IsValid e (accepted w event) v = push_event-IsValid e event v

push_verdict-n_watched : (e : Events) (v : Verdict) → (push_verdict e v).n_watched ≡ e.n_watched
unfolding push_event
push_verdict-n_watched e (idle w) = refl
push_verdict-n_watched e (accepted w event) = ground arith

-- A test that reads only the slot's pin and whether it is in use.
record OnlyPin (test : EventWatch → Bool) : Type 0 where
  same : (now level : ℕ) (w : EventWatch) → test (watch_after (scan_watch now level w)) ≡ test w

is_active-OnlyPin : OnlyPin is_active
unfolding scan_watch
is_active-OnlyPin = record { same = λ now level w. ground arith }

watches-OnlyPin : (pin : ℕ) → OnlyPin (λ (w : EventWatch). watches w pin)
unfolding scan_watch
watches-OnlyPin pin = record { same = λ now level w. ground arith }

tally-scan :
    (test : EventWatch → Bool)
    → OnlyPin test
    → (dio : List ℕ) (now : ℕ) (ws : List EventWatch) (e : Events)
    → tally test (scan dio now ws e).0 ≡ tally test ws
unfolding scan tally
tally-scan test only dio now [] e = refl
tally-scan test only dio now (w ∷ ws) e =
    let verdict = scan_watch now (get_or dio w.pin 0) w in
    ground (
      arith,
      only.same now (get_or dio w.pin 0) w,
      tally-scan test only dio now ws (push_verdict e verdict),
    )

length-scan :
    (dio : List ℕ) (now : ℕ) (ws : List EventWatch) (e : Events)
    → length (scan dio now ws e).0 ≡ length ws
unfolding scan
length-scan dio now [] e = refl
length-scan dio now (w ∷ ws) e =
    ap suc (length-scan dio now ws (push_verdict e (scan_watch now (get_or dio w.pin 0) w)))

-- What the scan leaves alone of the events, and what it keeps.
record Scanned (e after : Events) : Type 0 where
  ring_valid : IsValid e.ring → IsValid after.ring
  n_watched : after.n_watched ≡ e.n_watched

scan-Scanned :
    (dio : List ℕ) (now : ℕ) (ws : List EventWatch) (e : Events) → Scanned e (scan dio now ws e).1
unfolding scan
scan-Scanned dio now [] e = record { ring_valid = λ v. v; n_watched = refl }
scan-Scanned dio now (w ∷ ws) e =
    let verdict = scan_watch now (get_or dio w.pin 0) w in
    let rest = scan-Scanned dio now ws (push_verdict e verdict) in
    record {
      ring_valid = λ v. rest.ring_valid (push_verdict-IsValid e verdict v);
      n_watched = rest.n_watched ∙ push_verdict-n_watched e verdict;
    }

pub event_poll_at-IsWatching :
    (d : Device) (now : ℕ)
    → IsWatching d.n_pins d.mode d.events
    → IsWatching d.n_pins d.mode (event_poll_at now d).events
unfolding event_poll_at
event_poll_at-IsWatching d now v =
    let ws = d.events.watch in
    let kept = scan-Scanned d.dio now ws d.events in
    let same = λ (p : ℕ).
      tally-scan (λ (w : EventWatch). watches w p) (watches-OnlyPin p) d.dio now ws d.events in
    record {
      ring_valid = kept.ring_valid v.ring_valid;
      table = record {
        full_length = length-scan d.dio now ws d.events ∙ v.table.full_length;
        counted =
            kept.n_watched
            ∙ v.table.counted
            ∙ sym (tally-scan is_active is_active-OnlyPin d.dio now ws d.events);
        distinct = λ p. omega (arith, same p, v.table.distinct p);
      };
      inputs = λ p h. v.inputs p (omega (arith, same p));
    }
