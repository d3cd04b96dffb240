-- ===== src/Firmware/Watch/Discard.antt =====
-- What discard_events_for_pin and count_queued_events of src/UsbIo.cpp do to the queued events.
use arduino_driver.Prelude.{
  ℕ, zero, suc, ◌+◌, ◌≤◌, ◌<◌, ◌≡◌, ◌≢◌, refl, ap, ap₂, ◌∙◌, Bool, not, List, [], ◌∷◌, map, arith,
  u8, ◌==◌, if◌then◌else◌, get_or, length, length-set, get_or-set_self, get_or-set_ne,
}
use arduino_driver.Firmware.Ring.{Ring, IsValid, slot_of, pending, window, to_list}
use arduino_driver.Firmware.Ring.Fifo.{slot_of-ne, window-set_before, slot_of-lt}
use arduino_driver.Firmware.State.{Event, event_tombstone, zeroed_event}
use arduino_driver.Firmware.Watch.{
  discard_at, discard_loop, discard_events_for_pin, count_loop, count_queued_events,
}

abbrev pub is_live : Event → Bool
is_live e = not (e.pin == event_tombstone)

-- The events that EVENT_POP can still deliver.
unfoldable pub live : List Event → List Event
live [] = []
live (e ∷ es) = if is_live e then e ∷ live es else live es

unfoldable pub without : ℕ → List Event → List Event
without pin [] = []
without pin (e ∷ es) = if e.pin == pin then without pin es else e ∷ without pin es

abbrev pub bury : ℕ → Event → Event
bury pin e = if e.pin == pin then record e { pin = event_tombstone } else e

length-discard_at :
    (pin i : ℕ) (slots : List Event) → length (discard_at pin i slots) ≡ length slots
unfolding discard_at
length-discard_at pin i slots = ground (
  arith,
  length-set slots (slot_of i)
      (record (get_or slots (slot_of i) zeroed_event) { pin = event_tombstone }),
)

discard_at_self :
    (pin i : ℕ) (slots : List Event)
    → slot_of i < length slots
    → get_or (discard_at pin i slots) (slot_of i) zeroed_event
      ≡ bury pin (get_or slots (slot_of i) zeroed_event)
unfolding discard_at
discard_at_self pin i slots h = ground (
  arith,
  get_or-set_self slots (slot_of i)
      (record (get_or slots (slot_of i) zeroed_event) { pin = event_tombstone }) zeroed_event h,
)

discard_at_other :
    (pin i j : ℕ) (slots : List Event)
    → slot_of i ≢ j
    → get_or (discard_at pin i slots) j zeroed_event ≡ get_or slots j zeroed_event
unfolding discard_at
discard_at_other pin i j slots h = ground (
  arith,
  get_or-set_ne slots (slot_of i) j
      (record (get_or slots (slot_of i) zeroed_event) { pin = event_tombstone }) zeroed_event h,
)

window-discard_at :
    (pin i n : ℕ) (slots : List Event)
    → i < 256
    → n < 32
    → window zeroed_event (discard_at pin i slots) (u8 (i + 1)) n
      ≡ window zeroed_event slots (u8 (i + 1)) n
unfolding discard_at
window-discard_at pin i n slots hi hn = ground (
  arith,
  window-set_before zeroed_event slots i 0 n
      (record (get_or slots (slot_of i) zeroed_event) { pin = event_tombstone }),
)

-- The rounds after the first leave its slot alone.
discard_loop_before :
    (pin i k n : ℕ) (slots : List Event)
    → i < 256
    → k + n < 32
    → get_or (discard_loop pin (u8 (i + suc k)) n slots) (slot_of i) zeroed_event
      ≡ get_or slots (slot_of i) zeroed_event
unfolding discard_loop
discard_loop_before pin i k zero slots hi h = refl
discard_loop_before pin i k (suc n) slots hi h =
    rw (let step : u8 (u8 (i + suc k) + 1) ≡ u8 (i + suc (suc k)) = omega arith in step) (
      discard_loop_before pin i (suc k) n (discard_at pin (u8 (i + suc k)) slots) hi (omega arith)
      ∙ discard_at_other pin (u8 (i + suc k)) (slot_of i) slots (slot_of-ne i k hi (omega arith)))

-- The loop buries the pin's entries in the window and keeps the others.
window-discard_loop :
    (pin i n : ℕ) (slots : List Event)
    → length slots ≡ 32
    → i < 256
    → n ≤ 32
    → window zeroed_event (discard_loop pin i n slots) i n
      ≡ map (bury pin) (window zeroed_event slots i n)
unfolding discard_loop window
window-discard_loop pin i zero slots hl hi hn = refl
window-discard_loop pin i (suc n) slots hl hi hn =
    ap₂ ◌∷◌
      (discard_loop_before pin i 0 n (discard_at pin i slots) hi (omega arith)
        ∙ discard_at_self pin i slots (slot_of-lt slots i hl hi))
      (window-discard_loop pin (u8 (i + 1)) n (discard_at pin i slots)
          (length-discard_at pin i slots ∙ hl) (omega arith) (omega arith)
        ∙ ap (map (bury pin)) (window-discard_at pin i n slots hi hn))

length-discard_loop :
    (pin i n : ℕ) (slots : List Event) → length (discard_loop pin i n slots) ≡ length slots
unfolding discard_loop
length-discard_loop pin i zero slots = refl
length-discard_loop pin i (suc n) slots =
    length-discard_loop pin (u8 (i + 1)) n (discard_at pin i slots) ∙ length-discard_at pin i slots

live-bury : (pin : ℕ) (es : List Event) → live (map (bury pin) es) ≡ without pin (live es)
unfolding live without
live-bury pin [] = refl
live-bury pin (e ∷ es) = ground (arith, live-bury pin es)

pub discard_events_for_pin-IsValid :
    {r : Ring Event} (pin : ℕ) → IsValid r → IsValid (discard_events_for_pin r pin)
unfolding discard_events_for_pin
discard_events_for_pin-IsValid {r} pin v = record {
  full_length = length-discard_loop pin r.tail (pending r) r.slots ∙ v.full_length;
  head_byte = v.head_byte;
  tail_byte = v.tail_byte;
  bounded = v.bounded;
}

-- In a valid event ring, discarding takes exactly the pin's events out of those that can still be
-- delivered; the others stay, in order. Events of other pins that were discarded before stay
-- discarded.
pub live-discard_events_for_pin :
    (r : Ring Event) (pin : ℕ)
    → IsValid r
    → live (to_list zeroed_event (discard_events_for_pin r pin))
      ≡ without pin (live (to_list zeroed_event r))
unfolding discard_events_for_pin to_list
live-discard_events_for_pin r pin v =
    ap live (window-discard_loop pin r.tail (pending r) r.slots v.full_length v.tail_byte v.bounded)
    ∙ live-bury pin (window zeroed_event r.slots r.tail (pending r))

count_loop-window :
    (i n : ℕ) (slots : List Event) (acc : ℕ)
    → acc + n < 256
    → count_loop i n slots acc ≡ acc + length (live (window zeroed_event slots i n))
unfolding count_loop window live
count_loop-window i zero slots acc h = omega arith
count_loop-window i (suc n) slots acc h = ground (
  arith,
  count_loop-window (u8 (i + 1)) n slots acc,
  count_loop-window (u8 (i + 1)) n slots (u8 (acc + 1)),
)

-- The count of the queued events is the number of those that can still be delivered.
pub count_queued_events-length :
    (r : Ring Event) → IsValid r → count_queued_events r ≡ length (live (to_list zeroed_event r))
unfolding count_queued_events to_list
count_queued_events-length r v =
    omega (arith, count_loop-window r.tail (pending r) r.slots 0 (omega (arith, v.bounded)))
