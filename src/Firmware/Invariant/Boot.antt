-- ===== src/Firmware/Invariant/Boot.antt =====
-- The constructor and begin of src/UsbIo.cpp leave the device consistent.
use arduino_driver.Prelude.{ℕ, ◌≡◌, refl, ap, ◌∙◌, subst, sym, arith, length, length-set, List}
use arduino_driver.Prelude.Loop.{for_range, for_range_keeps}
use arduino_driver.Prelude.Tally.{tally}
use arduino_driver.Protocol.Mode
use arduino_driver.Firmware.Board.{Board, IsSound}
use arduino_driver.Firmware.Invariant.Consistent.{IsConsistent}
use arduino_driver.Firmware.Invariant.Events.{IsWatching}
use arduino_driver.Firmware.Invariant.Streaming.{IsStreaming}
use arduino_driver.Firmware.Ring.{IsValid}
use arduino_driver.Firmware.Select.Slice.{slice}
use arduino_driver.Firmware.Setup.{begin, begin_pin}
use arduino_driver.Firmware.State.{Device, initial, initial_events, initial_stream}

-- What the loop over the pins leaves alone.
record PinsOnly (d after : Device) : Type 0 where
  same : after ≡ record d {
    n_ain = after.n_ain;
    caps = after.caps;
    mode = after.mode;
    dio = after.dio;
    ain = after.ain;
  }
  mode_length : length after.mode ≡ length d.mode

PinsOnly-trans : {d e f : Device} → PinsOnly d e → PinsOnly e f → PinsOnly d f
PinsOnly-trans {d} {e} {f} p q = record {
  same =
      q.same
      ∙ ap
          (λ (x : Device). record x {
            n_ain = f.n_ain;
            caps = f.caps;
            mode = f.mode;
            dio = f.dio;
            ain = f.ain;
          })
          p.same;
  mode_length = q.mode_length ∙ p.mode_length;
}

begin_pin-PinsOnly : (b : Board) (pin : ℕ) (d : Device) → PinsOnly d (begin_pin b pin d)
unfolding begin_pin
begin_pin-PinsOnly b pin d = record { same = refl; mode_length = length-set d.mode pin Mode.none }

pins-PinsOnly :
    (b : Board) (first n : ℕ) (d : Device) → PinsOnly d (for_range first n (begin_pin b) d)
pins-PinsOnly b first n d =
    for_range_keeps (λ p t. PinsOnly d t) first n (begin_pin b) d
      (λ p t lo hi kept. PinsOnly-trans kept (begin_pin-PinsOnly b p t))
      (record { same = refl; mode_length = refl })

-- No slot of the fresh table is in use.
initial-IsWatching : (n_pins : ℕ) (mode : List ℕ) → IsWatching n_pins mode initial_events
unfolding initial_events tally
initial-IsWatching n_pins mode = record {
  ring_valid = record {
    full_length = refl;
    head_byte = omega arith;
    tail_byte = omega arith;
    bounded = omega arith;
  };
  table = record { full_length = refl; counted = refl; distinct = λ pin. omega arith };
  inputs = λ pin h. absurd (omega arith);
}

initial-IsStreaming : (n_pins : ℕ) → IsStreaming n_pins initial_stream
unfolding initial_stream tally slice
initial-IsStreaming n_pins = record {
  selection = record {
    full_length = refl;
    bounded = omega arith;
    distinct = λ pin. omega arith;
    sampling = λ h. absurd (ground arith);
  };
  chosen = λ pin h. absurd (omega arith);
  records = record {
    full_length = refl;
    head_byte = omega arith;
    tail_byte = omega arith;
    bounded = omega arith;
  };
}

initial-commands : IsValid initial.commands
unfolding initial
initial-commands = record {
  full_length = refl;
  head_byte = omega arith;
  tail_byte = omega arith;
  bounded = omega arith;
}

initial-mode : length initial.mode ≡ 128
unfolding initial
initial-mode = refl

-- A device that begin() has just set up is consistent, for any board whose constants are sound.
pub begin-IsConsistent : (b : Board) → IsSound b → IsConsistent (begin b initial)
unfolding begin initial_events initial_stream initial
begin-IsConsistent b sound =
    let d : Device = record initial { n_pins = b.pin_count; n_ain = 0 } in
    let after = for_range 0 b.pin_count (begin_pin b) d in
    let p = pins-PinsOnly b 0 b.pin_count d in
    subst IsConsistent (sym p.same) (
      sound.pins_fit,
      p.mode_length ∙ initial-mode,
      initial-commands,
      initial-IsWatching b.pin_count after.mode,
      initial-IsStreaming b.pin_count,
    )
