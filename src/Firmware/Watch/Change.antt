-- ===== src/Firmware/Watch/Change.antt =====
-- What disarming and arming a slot do to the set of watched pins: unwatch and arm of the table in
-- src/UsbIo.cpp.
use arduino_driver.Prelude.{
  ℕ, ◌+◌, ◌<◌, ◌≡◌, true, false, none, some, arith, u8, ◌==◌, if◌then◌else◌, get_or, length-set,
  ◌∙◌,
}
use arduino_driver.Prelude.Tally.{tally-set, tally-le-length, unit_of-le-tally}
use arduino_driver.Firmware.State.{EventWatch, Events, zeroed_watch}
use arduino_driver.Firmware.Watch.{watches, event_watch_index, find_free_event_slot, unwatch, arm}
use arduino_driver.Firmware.Watch.Table.{
  IsTable, slots_of, is_active, slot_of_index, no_slot, free_slot,
}

-- `e'` watches what `e` does, but for one pin.
abbrev pub WatchesBut : ℕ → ℕ → Events → Events → Type 0
WatchesBut pin n e after = (p : ℕ) → slots_of after p ≡ (if p == pin then n else slots_of e p)

pub unwatch-IsTable :
    (e : Events) (pin i : ℕ) → IsTable e → event_watch_index e pin ≡ some i → IsTable (unwatch e i)
unfolding unwatch
unwatch-IsTable e pin i v h =
    let s = slot_of_index e pin i h in
    let w = get_or e.watch i zeroed_watch in
    let off : EventWatch = record w { active = false } in
    record {
      full_length = length-set e.watch i off ∙ v.full_length;
      counted = ground (
        arith,
        tally-set is_active e.watch i off zeroed_watch s.0,
        unit_of-le-tally is_active e.watch i zeroed_watch s.0,
        tally-le-length is_active e.watch,
        v.counted,
        v.full_length,
        s.1,
      );
      distinct = λ p. ground (
        arith,
        tally-set (λ (w : EventWatch). watches w p) e.watch i off zeroed_watch s.0,
        v.distinct p,
        s.1,
      );
    }

pub unwatch-WatchesBut :
    (e : Events) (pin i : ℕ)
    → IsTable e
    → event_watch_index e pin ≡ some i
    → WatchesBut pin 0 e (unwatch e i)
unfolding unwatch
unwatch-WatchesBut e pin i v h p =
    let s = slot_of_index e pin i h in
    let w = get_or e.watch i zeroed_watch in
    let off : EventWatch = record w { active = false } in
    ground (
      arith,
      tally-set (λ (w : EventWatch). watches w p) e.watch i off zeroed_watch s.0,
      v.distinct p,
      s.1,
    )

-- The slot after `arm`.
abbrev armed : Events → ℕ → ℕ → ℕ → ℕ → EventWatch
armed e i pin edge debounce_ms = record (get_or e.watch i zeroed_watch) {
  pin = pin;
  edge_mode = edge;
  debounce_ms = debounce_ms;
  arm_seq = u8 (e.arm_seq + 1);
  active = true;
}

pub rearm-IsTable :
    (e : Events) (pin i edge debounce_ms : ℕ)
    → IsTable e
    → event_watch_index e pin ≡ some i
    → IsTable (arm e i pin edge debounce_ms)
unfolding arm
rearm-IsTable e pin i edge debounce_ms v h =
    let s = slot_of_index e pin i h in
    let w = armed e i pin edge debounce_ms in
    record {
      full_length = length-set e.watch i w ∙ v.full_length;
      counted = ground (arith, tally-set is_active e.watch i w zeroed_watch s.0, v.counted, s.1);
      distinct = λ p. ground (
        arith,
        tally-set (λ (w : EventWatch). watches w p) e.watch i w zeroed_watch s.0,
        v.distinct p,
        s.1,
      );
    }

pub rearm-WatchesBut :
    (e : Events) (pin i edge debounce_ms : ℕ)
    → IsTable e
    → event_watch_index e pin ≡ some i
    → WatchesBut pin 1 e (arm e i pin edge debounce_ms)
unfolding arm
rearm-WatchesBut e pin i edge debounce_ms v h p =
    let s = slot_of_index e pin i h in
    let w = armed e i pin edge debounce_ms in
    ground (
      arith,
      tally-set (λ (w : EventWatch). watches w p) e.watch i w zeroed_watch s.0,
      unit_of-le-tally (λ (w : EventWatch). watches w p) e.watch i zeroed_watch s.0,
      v.distinct p,
      s.1,
    )

-- The table when a new watch starts: a slot is taken, and the count has gone up.
abbrev pub fresh_arm : Events → ℕ → ℕ → ℕ → Events
fresh_arm e pin edge debounce_ms =
    arm (record e { n_watched = u8 (e.n_watched + 1) }) (find_free_event_slot e) pin edge
      debounce_ms

pub fresh_arm-WatchesBut :
    (e : Events) (pin edge debounce_ms : ℕ)
    → IsTable e
    → e.n_watched < 8
    → event_watch_index e pin ≡ none
    → WatchesBut pin 1 e (fresh_arm e pin edge debounce_ms)
unfolding arm
fresh_arm-WatchesBut e pin edge debounce_ms v room h p =
    let i = find_free_event_slot e in
    let s = free_slot e v room in
    let w = armed e i pin edge debounce_ms in
    ground (
      arith,
      tally-set (λ (w : EventWatch). watches w p) e.watch i w zeroed_watch s.0,
      no_slot e pin h,
      v.distinct p,
      s.1,
    )

pub fresh_arm-IsTable :
    (e : Events) (pin edge debounce_ms : ℕ)
    → IsTable e
    → e.n_watched < 8
    → event_watch_index e pin ≡ none
    → IsTable (fresh_arm e pin edge debounce_ms)
fresh_arm-IsTable e pin edge debounce_ms v room h =
    let i = find_free_event_slot e in
    let s = free_slot e v room in
    let w = armed e i pin edge debounce_ms in
    record {
      full_length = unfold arm in (length-set e.watch i w ∙ v.full_length);
      counted =
          unfold arm in
          ground (arith, tally-set is_active e.watch i w zeroed_watch s.0, v.counted, s.1);
      distinct =
          λ p. ground (arith, fresh_arm-WatchesBut e pin edge debounce_ms v room h p, v.distinct p);
    }
