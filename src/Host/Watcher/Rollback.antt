-- ===== src/Host/Watcher/Rollback.antt =====
-- What the constructor and stop() of extras/driver/src/EventWatcher.cpp leave watched on the device of
-- src/UsbIo.cpp.
use arduino_driver.Prelude.{
  ℕ, ◌+◌, ◌<◌, ◌≤◌, ◌≡◌, ◌≢◌, refl, sym, subst, ap, ◌∙◌, true, List, [], ◌∷◌, map, arith, ◌==◌,
  if◌then◌else◌, length, not,
}
use arduino_driver.Prelude.Signed.{pos}
use arduino_driver.Prelude.Tally.{tally}
use arduino_driver.Protocol.Edge
use arduino_driver.Protocol.Errors.{Result, ok, err, invalid_argument}
use arduino_driver.Firmware.Board.{Board}
use arduino_driver.Firmware.Select.Slice.{times}
use arduino_driver.Firmware.State.{Device}
use arduino_driver.Firmware.Watch.Table.{slots_of}
use arduino_driver.Host.Driver.{Driver, Options}
use arduino_driver.Host.Driver.Events.{configure_event}
use arduino_driver.Host.Driver.Events.Configure.{
  IsAttached, Steps, slots_after, configure_event-Steps, configure_event-off,
}
use arduino_driver.Host.Driver.Steps.{require-bind}
use arduino_driver.Host.Exec.{attempt_all, best_efforts, or_undo}
use arduino_driver.Host.Exec.Loops.{Kept, attempt_all-keeps, best_efforts-keeps}
use arduino_driver.Host.Transfers.Refusal.{usb}
use arduino_driver.Host.Watcher.{WatchedPin, arm_pin, disarm_pin, arm_pins}

abbrev pub pins_of : List WatchedPin → List ℕ
pins_of ws = map (λ (w : WatchedPin). w.pin) ws

-- With `ws` armed, or left to disarm: the pins are the device's, and no other pin is watched that was not.
record Bounded (before : Driver Device) (ws : List WatchedPin) (d : Driver Device) : Type 0 where
  attached : IsAttached before d
  chosen : (p : ℕ) → 0 < times p (pins_of ws) → p < length before.caps
  others :
      (p : ℕ) → times p (pins_of ws) ≡ 0 → slots_of d.link.events p ≤ slots_of before.link.events p

times-cons : (p x : ℕ) (xs : List ℕ) → times p (x ∷ xs) ≡ (if x == p then 1 else 0) + times p xs
unfolding tally
times-cons p x xs = refl

module _ (b : Board) (o : Options) (now_ms now_us : ℕ) (before : Driver Device) where
  arm_pin-Kept :
      (w : WatchedPin) (ws : List WatchedPin) (d : Driver Device)
      → Bounded before ws d
      → Kept (Bounded before) w ws (arm_pin (usb b now_ms now_us) o w d)
  unfolding arm_pin
  arm_pin-Kept w ws d v =
      by_result (configure_event (usb b now_ms now_us) o w.pin w.edge w.debounce d).0 _
        (configure_event-Steps b o now_ms now_us before d w.pin w.edge w.debounce v.attached)
    where
      by_result :
          (r : Result (Unit {0})) (d' : Driver Device)
          → Steps before d w.pin w.edge (r, d')
          → Kept (Bounded before) w ws (r, d')
      by_result (err e) d' s = record {
        attached = s.attached;
        chosen = v.chosen;
        others = λ p h. omega (arith, s.slots p, v.others p h);
      }
      by_result (ok tt) d' s = record {
        attached = s.attached;
        chosen = λ p h. ground (arith, times-cons p w.pin (pins_of ws), s.below refl, v.chosen p);
        others = λ p h. ground (arith, times-cons p w.pin (pins_of ws), s.slots p, v.others p);
      }

  disarm_pin-Bounded :
      (w : WatchedPin) (ws : List WatchedPin) (d : Driver Device)
      → Bounded before (w ∷ ws) d
      → Bounded before ws (disarm_pin (usb b now_ms now_us) o w d).1
  unfolding disarm_pin
  disarm_pin-Bounded w ws d v =
      let below = v.chosen w.pin (ground (arith, times-cons w.pin w.pin (pins_of ws))) in
      let s = configure_event-Steps b o now_ms now_us before d w.pin Edge.off (pos 0) v.attached in
      let off = configure_event-off b o now_ms now_us before d w.pin v.attached below in
      record {
        attached = s.attached;
        chosen = λ p h. v.chosen p (ground (arith, times-cons p w.pin (pins_of ws)));
        others = λ p h.
            let slots = s.slots p ∙ ap (λ r. slots_after d w.pin Edge.off r p) off in
            ground (arith, times-cons p w.pin (pins_of ws), slots, v.others p);
      }

  undo-Bounded :
      (ws : List WatchedPin) (d : Driver Device)
      → Bounded before ws d
      → Bounded before [] (best_efforts (disarm_pin (usb b now_ms now_us) o) ws d).1
  undo-Bounded =
      best_efforts-keeps (disarm_pin (usb b now_ms now_us) o) (Bounded before) disarm_pin-Bounded

  or_undo-lem :
      (r : Result (Unit {0})) (ws : List WatchedPin) (d : Driver Device) (p : ℕ)
      → Bounded before ws d
      → let (result, after) = or_undo (best_efforts (disarm_pin (usb b now_ms now_us) o) ws) r d in
        result ≢ ok tt → slots_of after.link.events p ≤ slots_of before.link.events p
  unfolding tally
  or_undo-lem (ok done) ws d p v failed = absurd (failed refl)
  or_undo-lem (err e) ws d p v failed = (undo-Bounded ws d v).others p refl

  -- On an open device with pin events, without a stream and with a valid watch table: if the constructor throws,
  -- whichever of its pins it could not arm, then no pin is watched that was not watched before.
  pub arm_pins_lem :
      (pins : List WatchedPin) (p : ℕ)
      → IsAttached before before
      → (arm_pins (usb b now_ms now_us) o pins before).0 ≢ ok tt
      → let after = (arm_pins (usb b now_ms now_us) o pins before).1 in
        slots_of after.link.events p ≤ slots_of before.link.events p
  unfolding arm_pins tally
  arm_pins_lem [] p a failed = omega arith
  arm_pins_lem (w ∷ ws) p a failed =
      let t = usb b now_ms now_us in
      let start : Bounded before [] before = record {
        attached = a;
        chosen = λ q h. absurd (omega arith);
        others = λ q h. omega arith;
      } in
      let armed = attempt_all (arm_pin t o) (w ∷ ws) [] before in
      let undone = or_undo (best_efforts (disarm_pin t o) armed.0.1) armed.0.0 armed.1 in
      let nonempty : not (length (w ∷ ws) == 0) ≡ true = ground arith in
      let whole : arm_pins t o (w ∷ ws) before ≡ undone =
        require-bind invalid_argument (not (length (w ∷ ws) == 0)) _ before nonempty in
      subst Unwatched (sym whole)
        (or_undo-lem armed.0.0 armed.0.1 armed.1 p
          (attempt_all-keeps (arm_pin t o) (Bounded before) arm_pin-Kept (w ∷ ws) [] before start))
        failed
    where
      Unwatched : Result (Unit {0}) × Driver Device → Type 0
      Unwatched s = s.0 ≢ ok tt → slots_of s.1.link.events p ≤ slots_of before.link.events p
