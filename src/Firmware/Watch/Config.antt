-- ===== src/Firmware/Watch/Config.antt =====
-- handle_event_config of src/UsbIo.cpp as the change of a set of at most eight watched pins.
use arduino_driver.Prelude.{
  ℕ, ◌/◌, ◌%◌, ◌<◌, ◌≡◌, refl, Bool, ◌&&◌, ◌||◌, Option, none, some, arith, ltb, ◌==◌,
  if◌then◌else◌, u8,
}
use arduino_driver.Protocol.Caps
use arduino_driver.Protocol.Edge
use arduino_driver.Firmware.Modes.{mode_is_input}
use arduino_driver.Firmware.Queue.{Outcome, stall}
use arduino_driver.Firmware.State.{Device, Events, caps_of, mode_of}
use arduino_driver.Firmware.Watch.{event_watch_index, event_off, arm_or_full, handle_event_config}
use arduino_driver.Firmware.Watch.Table.{IsTable, slots_of, no_slot, one_slot}
use arduino_driver.Firmware.Watch.Change.{
  WatchesBut, unwatch-IsTable, unwatch-WatchesBut, rearm-IsTable, rearm-WatchesBut,
  fresh_arm-IsTable, fresh_arm-WatchesBut,
}

event_off-Off :
    (e : Events) (pin : ℕ) (idx : Option ℕ)
    → IsTable e
    → event_watch_index e pin ≡ idx
    → IsTable (event_off e pin idx) × WatchesBut pin 0 e (event_off e pin idx)
unfolding event_off
event_off-Off e pin none v h = (v, λ p. ground (arith, no_slot e pin h))
event_off-Off e pin (some i) v h =
    let t = unwatch-IsTable e pin i v h in
    (
      record { full_length = t.full_length; counted = t.counted; distinct = t.distinct },
      unwatch-WatchesBut e pin i v h,
    )

-- Whether there is room for a watch on the pin.
abbrev pub has_room : Events → ℕ → Bool
has_room e pin = slots_of e pin == 1 || ltb e.n_watched 8

abbrev Armed : Device → ℕ → ℕ → Outcome → Type 0
Armed d pin p out =
    (out.0 ≡ has_room d.events pin)
    × IsTable out.1.events
    × (slots_of out.1.events p ≡ (if out.0 && p == pin then 1 else slots_of d.events p))

arm_or_full-Armed :
    (d : Device) (pin p edge debounce_ms : ℕ) (idx : Option ℕ)
    → IsTable d.events
    → event_watch_index d.events pin ≡ idx
    → Armed d pin p (arm_or_full d pin edge debounce_ms idx)
unfolding arm_or_full stall
arm_or_full-Armed d pin p edge debounce_ms (some i) v h = (
  ground (arith, one_slot d.events pin i v h),
  rearm-IsTable d.events pin i edge debounce_ms v h,
  ground (arith, rearm-WatchesBut d.events pin i edge debounce_ms v h p),
)
arm_or_full-Armed d pin p edge debounce_ms none v h =
    let table =
      λ (room : d.events.n_watched < 8). fresh_arm-IsTable d.events pin edge debounce_ms v room h in
    let watched = λ (room : d.events.n_watched < 8).
      fresh_arm-WatchesBut d.events pin edge debounce_ms v room h p in
    ground (arith, no_slot d.events pin h, table, watched)

-- Whether EVENT_CONFIG with this edge is accepted.
abbrev pub accepts : Device → ℕ → ℕ → Bool
accepts d pin edge =
    edge == Edge.off
    || Caps.any_of (caps_of d pin) Caps.dio
      && mode_is_input (mode_of d pin)
      && ltb edge Edge.count
      && has_room d.events pin

-- For a valid watch table, EVENT_CONFIG is accepted exactly when it turns the pin off, or when the pin
-- is a digital input, the edge mode is known, and the pin is watched already or fewer than eight pins are.
-- If it is accepted, the pin is watched afterwards if and only if the edge mode is not OFF. Any other pin
-- `p` is watched as before, and so is every pin if it is refused. The table stays valid: at most one slot
-- for each pin, and a counter that counts the slots in use.
pub handle_event_config_lem :
    (d : Device) (pin p w_value : ℕ)
    → IsTable d.events
    → let edge = w_value % 256 in
      let (accepted, after) = handle_event_config d pin w_value in
      (accepted ≡ accepts d pin edge)
      × IsTable after.events
      × (slots_of after.events p ≡ (
          if accepted && p == pin
          then (if edge == Edge.off then 0 else 1)
          else slots_of d.events p))
unfolding handle_event_config stall
handle_event_config_lem d pin p w_value v =
    let idx = event_watch_index d.events pin in
    let off = event_off-Off d.events pin idx v refl in
    ground (
      arith,
      off.0,
      off.1 p,
      arm_or_full-Armed d pin p (w_value % 256) (u8 (w_value / 256)) idx v refl,
    )
