-- ===== src/Firmware/Invariant/Events.antt =====
-- Watched pins are inputs: what EVENT_CONFIG, PIN_MODE and RESET of src/UsbIo.cpp keep of the events.
use arduino_driver.Prelude.{
  ℕ, ◌/◌, ◌%◌, ◌<◌, ◌≡◌, refl, true, List, Option, none, some, arith, ◌==◌, if◌then◌else◌, get_or,
  u8, set, map, length-map, ◌∙◌, subst, sym, ◌&&◌, not, get_or-set_self, get_or-set_ne, length,
}
use arduino_driver.Protocol.Mode
use arduino_driver.Firmware.Modes.{mode_is_input}
use arduino_driver.Prelude.Tally.{tally, tally-map_none}
use arduino_driver.Firmware.Queue.{stall, deactivate, reset_events}
use arduino_driver.Firmware.Ring.{IsValid}
use arduino_driver.Firmware.State.{Device, Events, EventWatch, mode_of}
use arduino_driver.Firmware.Watch.{
  event_watch_index, event_off, arm, arm_or_full, unwatch, watches, handle_event_config,
}
use arduino_driver.Firmware.Watch.Config.{handle_event_config_lem}
use arduino_driver.Firmware.Out.{unwatch_if_output}
use arduino_driver.Firmware.Watch.Change.{unwatch-IsTable, unwatch-WatchesBut}
use arduino_driver.Firmware.Watch.Discard.{discard_events_for_pin-IsValid}
use arduino_driver.Firmware.Watch.Table.{IsTable, slots_of, is_active, no_slot}

-- The event ring and the watch table are sound, and each watched pin exists and is meant to be an input.
pub record IsWatching (n_pins : ℕ) (mode : List ℕ) (e : Events) : Type 0 where
  pub ring_valid : IsValid e.ring
  pub table : IsTable e
  pub inputs :
      (pin : ℕ)
      → 0 < slots_of e pin
      → (pin < n_pins) × (mode_is_input (get_or mode pin Mode.none) ≡ true)

event_off-ring :
    (e : Events) (pin : ℕ) (idx : Option ℕ) → IsValid e.ring → IsValid (event_off e pin idx).ring
unfolding event_off unwatch
event_off-ring e pin none v = v
event_off-ring e pin (some i) v = discard_events_for_pin-IsValid pin v

arm_or_full-ring :
    (d : Device) (pin edge debounce_ms : ℕ) (idx : Option ℕ)
    → (arm_or_full d pin edge debounce_ms idx).1.events.ring ≡ d.events.ring
unfolding arm_or_full arm stall
arm_or_full-ring d pin edge debounce_ms (some i) = refl
arm_or_full-ring d pin edge debounce_ms none = ground arith

handle_event_config-ring :
    (d : Device) (pin w_value : ℕ)
    → IsValid d.events.ring
    → IsValid (handle_event_config d pin w_value).1.events.ring
unfolding handle_event_config stall
handle_event_config-ring d pin w_value v =
    let idx = event_watch_index d.events pin in
    let off = event_off-ring d.events pin idx v in
    ground (arith, off, arm_or_full-ring d pin (w_value % 256) (u8 (w_value / 256)) idx)

handle_event_config-inputs :
    (d : Device) (pin p w_value : ℕ)
    → IsTable d.events
    → pin < d.n_pins
    → (0 < slots_of d.events p → (p < d.n_pins) × (mode_is_input (mode_of d p) ≡ true))
    → 0 < slots_of (handle_event_config d pin w_value).1.events p
    → (p < d.n_pins) × (mode_is_input (mode_of d p) ≡ true)
handle_event_config-inputs d pin p w_value v below inputs h =
    grind (arith, handle_event_config_lem d pin p w_value v)

pub handle_event_config-IsWatching :
    (d : Device) (pin w_value : ℕ)
    → pin < d.n_pins
    → IsWatching d.n_pins d.mode d.events
    → IsWatching d.n_pins d.mode (handle_event_config d pin w_value).1.events
handle_event_config-IsWatching d pin w_value below v = record {
  ring_valid = handle_event_config-ring d pin w_value v.ring_valid;
  table = (handle_event_config_lem d pin 0 w_value v.table).1;
  inputs = λ p h. handle_event_config-inputs d pin p w_value v.table below (v.inputs p) h;
}

-- A pin that becomes an output is unwatched.
abbrev unwatch_found : Events → Option ℕ → Events
unwatch_found e none = e
unwatch_found e (some i) = unwatch e i

unwatch_found-lem :
    (e : Events) (pin p : ℕ) (idx : Option ℕ)
    → IsTable e
    → event_watch_index e pin ≡ idx
    → let after = unwatch_found e idx in
      IsTable after
      × (after.ring ≡ e.ring)
      × (slots_of after p ≡ (if p == pin then 0 else slots_of e p))
unwatch_found-lem e pin p none v h = (v, refl, ground (arith, no_slot e pin h))
unwatch_found-lem e pin p (some i) v h =
    (unwatch-IsTable e pin i v h, unfold unwatch in refl, unwatch-WatchesBut e pin i v h p)

unwatch_if_output-lem :
    (e : Events) (pin p m : ℕ)
    → IsTable e
    → let after = unwatch_if_output e pin m in
      IsTable after
      × (after.ring ≡ e.ring)
      × (slots_of after p ≡ (if p == pin && not (mode_is_input m) then 0 else slots_of e p))
unfolding unwatch_if_output
unwatch_if_output-lem e pin p m v =
    ground (arith, unwatch_found-lem e pin p (event_watch_index e pin) v refl)

pub unwatch_if_output-IsWatching :
    (n_pins : ℕ) (mode : List ℕ) (e : Events) (pin m : ℕ)
    → pin < length mode
    → IsWatching n_pins mode e
    → IsWatching n_pins (set mode pin m) (unwatch_if_output e pin m)
unwatch_if_output-IsWatching n_pins mode e pin m below v = record {
  ring_valid =
      let (t, same, s) = unwatch_if_output-lem e pin 0 m v.table in
      subst IsValid (sym same) v.ring_valid;
  table = (unwatch_if_output-lem e pin 0 m v.table).0;
  inputs = λ p h. grind (
    arith,
    unwatch_if_output-lem e pin p m v.table,
    v.inputs p,
    get_or-set_self mode pin m Mode.none below,
    get_or-set_ne mode pin p m Mode.none,
  );
}

-- RESET empties the table and the ring.
pub reset_events-IsWatching :
    (n_pins : ℕ) (mode after : List ℕ) (e : Events)
    → IsWatching n_pins mode e
    → IsWatching n_pins after (reset_events e)
unfolding reset_events
reset_events-IsWatching n_pins mode after e v =
    let cleared = tally-map_none is_active deactivate (λ w. refl) e.watch in
    record {
      ring_valid = record {
        full_length = v.ring_valid.full_length;
        head_byte = v.ring_valid.head_byte;
        tail_byte = v.ring_valid.head_byte;
        bounded = omega arith;
      };
      table = record {
        full_length = length-map e.watch deactivate ∙ v.table.full_length;
        counted = omega (arith, cleared);
        distinct = λ p. omega (arith, unwatched p);
      };
      inputs = λ p h. absurd (omega (arith, unwatched p));
    }
  where
    unwatched : (p : ℕ) → tally (λ (w : EventWatch). watches w p) (map deactivate e.watch) ≡ 0
    unwatched p = tally-map_none (λ (w : EventWatch). watches w p) deactivate (λ w. refl) e.watch
