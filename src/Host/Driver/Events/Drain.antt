-- ===== src/Host/Driver/Events/Drain.antt =====
-- Device::poll_events of extras/driver/src/Device.cpp against EVENT_POP of src/UsbIo.cpp.
use arduino_driver.Prelude.{
  ℕ, zero, suc, ◌+◌, ◌*◌, ◌-◌, ◌<◌, ◌≤◌, ◌≡◌, refl, sym, ap, ap₂, ◌∙◌, true, false, List, [], ◌++◌,
  arith, length, map, min, ◌==◌, if◌then◌else◌, take, drop, length-drop, append-nil, Bool-cases,
  inl, inr,
}
use arduino_driver.Protocol.Decode.{PinEvent}
use arduino_driver.Protocol.Errors.{Result, ok, err}
use arduino_driver.Protocol.Features.{has_events}
use arduino_driver.Firmware.Board.{Board}
use arduino_driver.Firmware.Reply.Pop.{event_pop_answer_lem}
use arduino_driver.Firmware.Ring.{Ring, IsValid, to_list}
use arduino_driver.Firmware.Ring.Fifo.{length-to_list}
use arduino_driver.Firmware.State.{Device, Event, zeroed_event}
use arduino_driver.Firmware.Watch.Discard.{live}
use arduino_driver.Host.Driver.{Driver, Options, require_events}
use arduino_driver.Host.Driver.Events.{Batch, pop_events_once, poll_loop, poll_events}
use arduino_driver.Host.Driver.Events.Entries.{seen}
use arduino_driver.Host.Driver.Steps.{idle-bind, events-bind}
use arduino_driver.Host.Exec.{◌>>◌}
use arduino_driver.Host.Transfers.Refusal.{usb}
use arduino_driver.Host.Driver.Events.Pop.{
  queued, popped, left, length-live, length-zero, seen-take-drop, pop_events_once-usb,
}

module _ (b : Board) (o : Options) (now_ms now_us : ℕ) where
  -- The loop brought every event of the device, and left it none.
  abbrev ended : Driver Device → List PinEvent → ℕ → Ring Event → Result Batch × Driver Device
  ended d events dropped r =
      (ok (record { events = events; dropped = dropped; pending = false }), popped d r)

  record Drained (d : Driver Device) (out : List PinEvent) (total : ℕ)
      (s : Result Batch × Driver Device) : Type 0 where
    ring : Ring Event
    returns :
        s ≡ ended d (out ++ map seen (queued d.link)) (min 255 (total + d.link.events.dropped)) ring
    empty : live (to_list zeroed_event ring) ≡ []
    valid : IsValid ring

  -- What the loop does with one batch.
  abbrev after_pop : ℕ → ℕ → Driver Device → Result Batch → Result Batch × Driver Device
  after_pop rounds total d (err e) = (err e, d)
  after_pop rounds total d (ok batch) =
      let sum = min 255 (total + batch.dropped) in
      if batch.pending
      then poll_loop (usb b now_ms now_us) o rounds batch.events sum d
      else (ok (record batch { dropped = sum }), d)

  one_round :
      (rounds total : ℕ) (out : List PinEvent) (d : Driver Device)
      → let (result, d') = pop_events_once (usb b now_ms now_us) o 0 out d in
        poll_loop (usb b now_ms now_us) o (suc rounds) out total d
        ≡ after_pop rounds total d' result
  unfolding poll_loop
  one_round rounds total out d = refl

  -- A round, given what the rounds after it do.
  round-Drained :
      (rounds total : ℕ) (out : List PinEvent) (d : Driver Device)
      → IsValid d.link.events.ring
      → ((out' : List PinEvent) (d' : Driver Device) (total' : ℕ)
          → IsValid d'.link.events.ring
          → 0 < length (queued d'.link)
          → length (queued d'.link) + 7 ≡ length (queued d.link)
          → Drained d' out' total' (poll_loop (usb b now_ms now_us) o rounds out' total' d'))
      → Drained d out total (poll_loop (usb b now_ms now_us) o (suc rounds) out total d)
  round-Drained rounds total out d v more =
      let q = queued d.link in
      let answer = event_pop_answer_lem d.link 0 v in
      let taken = out ++ map seen (take 7 q) in
      let dropped = d.link.events.dropped in
      let first =
        one_round rounds total out d
        ∙ ap (λ (s : Result Batch × Driver Device). after_pop rounds total (s.1) (s.0))
            (pop_events_once-usb b o now_ms now_us d out v) in
      elim (Bool-cases (length (drop 7 q) == 0)) [
        | inl last ↦
            let none_left = length-zero (drop 7 q) (ground arith) in
            let all =
              sym (append-nil taken)
              ∙ ap (λ (es : List Event). taken ++ map seen es) (sym none_left)
              ∙ seen-take-drop 7 out q in
            record {
              ring = left b o now_ms now_us d;
              returns = first ∙ rw (last, all) refl;
              empty = answer.1 ∙ none_left;
              valid = answer.2;
            }
        | inr again ↦
            let sum = min 255 (total + dropped) in
            let next = popped d (left b o now_ms now_us d) in
            let longer : length (queued next.link) ≡ length (drop 7 q) = ap length answer.1 in
            let rest =
              more taken next sum (answer.2) (ground (arith, longer))
                (ground (arith, longer, length-drop 7 q)) in
            let all =
              ap (λ (es : List Event). taken ++ map seen es) answer.1 ∙ seen-take-drop 7 out q in
            let same : min 255 (sum + 0) ≡ sum = omega arith in
            let step : poll_loop (usb b now_ms now_us) o (suc rounds) out total d
                ≡ poll_loop (usb b now_ms now_us) o rounds taken sum next =
              first ∙ rw again refl in
            record {
              ring = rest.ring;
              returns = step ∙ rest.returns ∙ ap₂ (λ es n. ended d es n rest.ring) all same;
              empty = rest.empty;
              valid = rest.valid;
            }
      ]

  poll_loop-Drained :
      (rounds total : ℕ) (out : List PinEvent) (d : Driver Device)
      → IsValid d.link.events.ring
      → length (queued d.link) ≤ 7 * rounds + 7
      → Drained d out total (poll_loop (usb b now_ms now_us) o (suc rounds) out total d)
  poll_loop-Drained zero total out d v room =
      round-Drained 0 total out d v (λ out' d' total' v' some_left shorter. absurd (omega arith))
  poll_loop-Drained (suc rounds) total out d v room =
      round-Drained (suc rounds) total out d v (λ out' d' total' v' some_left shorter.
        poll_loop-Drained rounds total' out' d' v' (omega arith))

  -- On an open device with pin events, without a stream and with a valid event ring, poll_events ends after at
  -- most five transfers. It returns every event that the device can still deliver, each once and oldest first, with `seq` and the time cut to their
  -- types, the number of dropped events up to 255, and no event pending. No event is left
  -- on the device, its count of drops is 0, and nothing else of it or of the object changes.
  pub poll_events_lem :
      (rounds : ℕ) (d : Driver Device)
      → d.streaming ≡ false
      → has_events d.info ≡ true
      → IsValid d.link.events.ring
      → 5 ≤ rounds
      → let (result, after) = poll_events (usb b now_ms now_us) o rounds d in
        (result
          ≡ ok (record {
            events = map seen (queued d.link);
            dropped = min 255 d.link.events.dropped;
            pending = false;
          }))
        × (queued after.link ≡ [])
        × (after ≡ popped d after.link.events.ring)
        × IsValid after.link.events.ring
  unfolding poll_events
  poll_events_lem rounds d idle eventful v enough =
      let t = usb b now_ms now_us in
      let more : rounds ≡ suc (rounds - 1) = omega arith in
      let few : length (queued d.link) ≤ 32 = omega (
        arith,
        length-live (to_list zeroed_event d.link.events.ring),
        length-to_list zeroed_event d.link.events.ring,
        v.bounded,
      ) in
      let drained = poll_loop-Drained (rounds - 1) 0 [] d v (omega (arith, few)) in
      let sum : min 255 (0 + d.link.events.dropped) ≡ min 255 d.link.events.dropped = omega arith in
      let whole : poll_events t o rounds d
          ≡ ended d (map seen (queued d.link)) (min 255 d.link.events.dropped) drained.ring =
        idle-bind t o d (require_events >> poll_loop t o rounds [] 0) idle
        ∙ events-bind t o d (poll_loop t o rounds [] 0) eventful
        ∙ ap (λ (k : ℕ). poll_loop t o k [] 0 d) more
        ∙ drained.returns
        ∙ ap (λ (n : ℕ). ended d (map seen (queued d.link)) n drained.ring) sum in
      rw whole (refl, drained.empty, refl, drained.valid)
