-- ===== src/Host/Driver/Events/Pop.antt =====
-- Device::pop_events_once of extras/driver/src/Device.cpp against EVENT_POP of src/UsbIo.cpp.
use arduino_driver.Prelude.{
  ℕ, zero, suc, ◌+◌, ◌*◌, ◌-◌, ◌≤◌, ◌≡◌, refl, ap, ◌∙◌, true, not, List, [], ◌∷◌, ◌++◌, arith,
  length, map, leb, ◌==◌, take, drop, replicate, length-take, append_assoc,
}
use arduino_driver.Protocol.Bytes.{read_u8}
use arduino_driver.Protocol.Decode.{PinEvent, decode_event_header}
use arduino_driver.Protocol.Errors.{ok}
use arduino_driver.Protocol.Layout
use arduino_driver.Protocol.Request
use arduino_driver.Protocol.Sizes.{event_pop_len}
use arduino_driver.Protocol.Status
use arduino_driver.Firmware.Board.{Board}
use arduino_driver.Firmware.Reply.{dispatch_in, entry_bytes, concat, pop_events}
use arduino_driver.Firmware.Reply.Pop.{event_pop_answer_lem}
use arduino_driver.Firmware.Ring.{Ring, IsValid, to_list}
use arduino_driver.Firmware.State.{Device, Event, zeroed_event}
use arduino_driver.Firmware.Watch.Discard.{live}
use arduino_driver.Host.Driver.{Driver, Options}
use arduino_driver.Host.Driver.Events.{pop_events_once}
use arduino_driver.Host.Driver.Events.Entries.{seen, length-entries, events_from-entries}
use arduino_driver.Host.Driver.Steps.{read-bind}
use arduino_driver.Host.Transfers.Cable.{read-usb}
use arduino_driver.Host.Transfers.Refusal.{usb}

-- The events that the device can still deliver, oldest first.
abbrev pub queued : Device → List Event
queued f = live (to_list zeroed_event f.events.ring)

-- The device with another event ring and no drops.
abbrev pub popped : Driver Device → Ring Event → Driver Device
popped d r = record d {
  link = record (d.link) { events = record (d.link.events) { ring = r; dropped = 0 } };
}

pub length-live : (es : List Event) → length (live es) ≤ length es
unfolding live
length-live [] = omega arith
length-live (e ∷ es) = ground (arith, length-live es)

pub length-zero : (es : List Event) → length es ≡ 0 → es ≡ []
length-zero [] h = refl
length-zero (e ∷ es) h = absurd (omega arith)

pub seen-take-drop :
    (n : ℕ) (out : List PinEvent) (es : List Event)
    → (out ++ map seen (take n es)) ++ map seen (drop n es) ≡ out ++ map seen es
seen-take-drop n out es =
    append_assoc out (map seen (take n es)) (map seen (drop n es))
    ∙ ap (λ (xs : List PinEvent). out ++ xs) (go n es)
  where
    go : (n : ℕ) (es : List Event) → map seen (take n es) ++ map seen (drop n es) ≡ map seen es
    go zero es = refl
    go (suc n) [] = refl
    go (suc n) (e ∷ es) = ap (λ (xs : List PinEvent). seen e ∷ xs) (go n es)

module _ (b : Board) (o : Options) (now_ms now_us : ℕ) where
  -- The ring after one EVENT_POP.
  abbrev pub left : Driver Device → Ring Event
  left d = (pop_events d.link.events.ring 7).1

  -- One transfer takes the seven oldest events.
  pub pop_events_once-usb :
      (d : Driver Device) (out : List PinEvent)
      → IsValid d.link.events.ring
      → let q = queued d.link in
        pop_events_once (usb b now_ms now_us) o 0 out d ≡ (
          ok (record {
            events = out ++ map seen (take 7 q);
            dropped = d.link.events.dropped;
            pending = not (length (drop 7 q) == 0);
          }),
          popped d (left d),
        )
  unfolding pop_events_once event_pop_len dispatch_in decode_event_header Layout.event_header_bytes
      read_u8
  pop_events_once-usb d out v =
      let q = queued d.link in
      let es = take 7 q in
      let answer = event_pop_answer_lem d.link 0 v in
      let entries = concat (map entry_bytes es) in
      let long : length entries ≡ 8 * length es = length-entries es in
      let few : length es ≤ 7 = omega (arith, length-take 7 q) in
      let rest = length es ∷ d.link.events.dropped ∷ length (drop 7 q) ∷ entries in
      let pad : List ℕ = replicate (60 - suc (suc (suc (suc (length entries))))) 0 in
      let enough : leb (4 + 8 * length es) (suc (suc (suc (suc (length entries))))) ≡ true =
        ground (arith, long) in
      let whole : leb 4 (suc (suc (suc (suc (length (entries ++ pad)))))) ≡ true = ground arith in
      read-bind (usb b now_ms now_us) o d Request.event_pop 0 60 4 _ _ (popped d (left d)).link (
        read-usb b now_ms now_us d.link (popped d (left d)).link o.busy_max_attempts
          Request.event_pop 0 60 4 rest (answer.0) (omega (arith, long, few)) (omega arith))
      ∙ rw
          (
            whole,
            enough,
            events_from-entries Status.ok (length es) d.link.events.dropped (length (drop 7 q)) es
                pad,
          )
          refl
