-- ===== src/Firmware/Poll/Shadow.antt =====
-- What the loop() side of src/UsbIo.cpp leaves alone: apply_reset, execute and refresh_shadow write the
-- shadow of the pins and the analog cursor only.
use arduino_driver.Prelude.{ℕ, zero, suc, ◌+◌, ◌%◌, ◌≡◌, refl, ap, ◌∙◌, List, [], ◌∷◌, arith, u8}
use arduino_driver.Prelude.Loop.{for_range, for_range_keeps}
use arduino_driver.Firmware.Board.{Board, Core}
use arduino_driver.Firmware.Poll.{
  State, execute, execute_as, apply_mode, sample_dio, sample_ain, read_pin, read_analog, reset_pin,
  apply_reset, refresh_pin, analog_loop, refresh_shadow,
}
use arduino_driver.Firmware.Poll.Drain.{run_current, run_commands}
use arduino_driver.Firmware.State.{Device, Command}

-- `after` differs from `d` in the shadow at most.
pub record OnlyShadow (d after : Device) : Type 0 where
  pub same : after ≡ record d { dio = after.dio; ain = after.ain; ain_cursor = after.ain_cursor }

pub OnlyShadow-refl : (d : Device) → OnlyShadow d d
OnlyShadow-refl d = record { same = refl }

pub OnlyShadow-trans : {d e f : Device} → OnlyShadow d e → OnlyShadow e f → OnlyShadow d f
OnlyShadow-trans {d} {e} {f} p q = record {
  same =
      q.same
      ∙ ap (λ (x : Device). record x { dio = f.dio; ain = f.ain; ain_cursor = f.ain_cursor })
          p.same;
}

module _ (b : Board) (c : Core) where
  open c use {World}

  pub execute-OnlyShadow : (cmd : Command) (s : State b c) → OnlyShadow s.0 (execute b c cmd s).0
  unfolding execute execute_as apply_mode sample_dio sample_ain read_pin read_analog
  execute-OnlyShadow cmd (d, w) = ground arith

  reset_pin-OnlyShadow : (pin : ℕ) (s : State b c) → OnlyShadow s.0 (reset_pin b c pin s).0
  unfolding reset_pin sample_dio read_pin
  reset_pin-OnlyShadow pin (d, w) = ground arith

  pub run_commands-OnlyShadow :
      (cmds : List Command) (s : State b c) → OnlyShadow s.0 (run_commands b c cmds s).0
  unfolding run_commands run_current
  run_commands-OnlyShadow [] (d, w) = OnlyShadow-refl d
  run_commands-OnlyShadow (cmd ∷ cmds) (d, w) =
      OnlyShadow-trans (ground (arith, execute-OnlyShadow cmd (d, w), OnlyShadow-refl d))
        (run_commands-OnlyShadow cmds (run_current b c cmd (d, w)))

  pub apply_reset-OnlyShadow : (s : State b c) → OnlyShadow s.0 (apply_reset b c s).0
  unfolding apply_reset
  apply_reset-OnlyShadow (d, w) =
      OnlyShadow-trans
        (for_range_keeps (λ p t. OnlyShadow d t.0) 0 d.n_pins (reset_pin b c) (d, w)
          (λ p t lo hi h. OnlyShadow-trans h (reset_pin-OnlyShadow p t)) (OnlyShadow-refl d))
        (record { same = refl })

  refresh_pin-OnlyShadow : (pin : ℕ) (s : State b c) → OnlyShadow s.0 (refresh_pin b c pin s).0
  unfolding refresh_pin sample_dio read_pin
  refresh_pin-OnlyShadow pin (d, w) = ground arith

  analog_loop-OnlyShadow : (n : ℕ) (s : State b c) → OnlyShadow s.0 (analog_loop b c n s).0
  unfolding analog_loop sample_ain read_analog
  analog_loop-OnlyShadow zero (d, w) = OnlyShadow-refl d
  analog_loop-OnlyShadow (suc n) (d, w) =
      let d' : Device = record d { ain_cursor = u8 ((d.ain_cursor + 1) % d.n_pins) } in
      ground (
        arith,
        OnlyShadow-trans {d = d} {e = d'} (record { same = refl })
            (analog_loop-OnlyShadow n (d', w)),
      )

  pub refresh_shadow-OnlyShadow : (s : State b c) → OnlyShadow s.0 (refresh_shadow b c s).0
  unfolding refresh_shadow
  refresh_shadow-OnlyShadow (d, w) =
      let pins =
        for_range_keeps (λ p t. OnlyShadow d t.0) 0 d.n_pins (refresh_pin b c) (d, w)
          (λ p t lo hi h. OnlyShadow-trans h (refresh_pin-OnlyShadow p t)) (OnlyShadow-refl d) in
      ground (
        arith,
        OnlyShadow-refl d,
        OnlyShadow-trans pins
            (analog_loop-OnlyShadow d.n_pins (for_range 0 d.n_pins (refresh_pin b c) (d, w))),
      )
