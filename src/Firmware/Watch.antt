-- ===== src/Firmware/Watch.antt =====
-- Pin events on the interrupt side of src/UsbIo.cpp: event_watch_index, find_free_event_slot,
-- discard_events_for_pin, count_queued_events and handle_event_config.
pub mod Discard
pub mod Table
pub mod Change
pub mod Config
use arduino_driver.Prelude.{
  ℕ, zero, suc, ◌+◌, ◌/◌, ◌%◌, Bool, true, false, ◌&&◌, ◌||◌, not, Option, none, some, List, [],
  ◌∷◌, u8, u8_sub, leb, ◌==◌, if◌then◌else◌, get_or, set,
}
use arduino_driver.Protocol.Caps
use arduino_driver.Protocol.Edge
use arduino_driver.Protocol.Limit
use arduino_driver.Protocol.Status
use arduino_driver.Firmware.Modes.{mode_is_input}
use arduino_driver.Firmware.Queue.{Outcome, stall}
use arduino_driver.Firmware.Ring.{Ring, slot_of, pending}
use arduino_driver.Firmware.State.{
  Device, Event, EventWatch, Events, event_tombstone, zeroed_event, zeroed_watch, caps_of, mode_of,
}

abbrev pub watches : EventWatch → ℕ → Bool
watches w pin = w.active && w.pin == pin

-- The table from slot `i` on; -1 is `none`.
unfoldable pub watch_index_from : ℕ → List EventWatch → ℕ → Option ℕ
watch_index_from i [] pin = none
watch_index_from i (w ∷ ws) pin = if watches w pin then some i else watch_index_from (suc i) ws pin

unfoldable pub event_watch_index : Events → ℕ → Option ℕ
event_watch_index e pin = watch_index_from 0 e.watch pin

unfoldable pub free_slot_from : ℕ → List EventWatch → ℕ
free_slot_from i [] = 0
free_slot_from i (w ∷ ws) = if not w.active then i else free_slot_from (suc i) ws

unfoldable pub find_free_event_slot : Events → ℕ
find_free_event_slot e = free_slot_from 0 e.watch

-- One round of the loop: an entry of the pin becomes a tombstone.
unfoldable pub discard_at : ℕ → ℕ → List Event → List Event
discard_at pin i slots =
    let slot = get_or slots (slot_of i) zeroed_event in
    if slot.pin == pin then set slots (slot_of i) (record slot { pin = event_tombstone }) else slots

-- `for (i = tail; i != head; ++i)` makes `(uint8_t)(head - tail)` rounds.
unfoldable pub discard_loop : ℕ → ℕ → ℕ → List Event → List Event
discard_loop pin i zero slots = slots
discard_loop pin i (suc rounds) slots =
    discard_loop pin (u8 (i + 1)) rounds (discard_at pin i slots)

unfoldable pub discard_events_for_pin : Ring Event → ℕ → Ring Event
discard_events_for_pin r pin = record r { slots = discard_loop pin r.tail (pending r) r.slots }

unfoldable pub count_loop : ℕ → ℕ → List Event → ℕ → ℕ
count_loop i zero slots n = n
count_loop i (suc rounds) slots n =
    count_loop (u8 (i + 1)) rounds slots (
      if not ((get_or slots (slot_of i) zeroed_event).pin == event_tombstone)
      then u8 (n + 1)
      else n)

unfoldable pub count_queued_events : Ring Event → ℕ
count_queued_events r = count_loop r.tail (pending r) r.slots 0

-- `_event_watch[idx].active = 0; --_event_n_watched`
unfoldable pub unwatch : Events → ℕ → Events
unwatch e idx = record e {
  watch = set e.watch idx (record (get_or e.watch idx zeroed_watch) { active = false });
  n_watched = u8_sub e.n_watched 1;
}

unfoldable pub event_off : Events → ℕ → Option ℕ → Events
event_off e pin none = e
event_off e pin (some idx) =
    let off = unwatch e idx in record off { ring = discard_events_for_pin off.ring pin }

-- Fill the slot's fields, and publish it by `arm_seq` and `active`.
unfoldable pub arm : Events → ℕ → ℕ → ℕ → ℕ → Events
arm e idx pin edge debounce_ms =
    let arm_seq = u8 (e.arm_seq + 1) in
    record e {
      watch = set e.watch idx (record (get_or e.watch idx zeroed_watch) {
        pin = pin;
        edge_mode = edge;
        debounce_ms = debounce_ms;
        arm_seq = arm_seq;
        active = true;
      });
      arm_seq = arm_seq;
    }

unfoldable pub arm_or_full : Device → ℕ → ℕ → ℕ → Option ℕ → Outcome
arm_or_full d pin edge debounce_ms (some idx) =
    (true, record d { events = arm d.events idx pin edge debounce_ms })
arm_or_full d pin edge debounce_ms none =
    if leb Limit.max_event_pins d.events.n_watched then stall d Status.bad_value else (
      true,
      record d {
        events =
            arm (record (d.events) { n_watched = u8 (d.events.n_watched + 1) })
              (find_free_event_slot d.events) pin edge debounce_ms;
      },
    )

unfoldable pub handle_event_config : Device → ℕ → ℕ → Outcome
handle_event_config d pin w_value =
    let edge = w_value % 256 in
    let idx = event_watch_index d.events pin in
    if edge == Edge.off
    then (true, record d { events = event_off d.events pin idx })
    else if not (Caps.any_of (caps_of d pin) Caps.dio) || not (mode_is_input (mode_of d pin))
    then stall d Status.bad_mode
    else if leb Edge.count edge
    then stall d Status.bad_value
    else arm_or_full d pin edge (u8 (w_value / 256)) idx
