-- ===== src/Firmware/Poll/Cancel.antt =====
-- What a RESET cancels: request_reset of src/UsbIo.cpp and the loop() side that follows it.
use arduino_driver.Prelude.{
  ℕ, ◌<◌, ◌+◌, u8, u8_sub, ltb, ◌≡◌, refl, ap, ◌∙◌, Bool, true, ◌&&◌, List, [], ◌∷◌, arith,
}
use arduino_driver.Firmware.Board.{Board, Core}
use arduino_driver.Firmware.Poll.{State, drain}
use arduino_driver.Firmware.Poll.Drain.{run_current, run_commands, drain_lem, emptied}
use arduino_driver.Firmware.Queue.{request_reset}
use arduino_driver.Firmware.Queue.Fifo.{waiting}
use arduino_driver.Firmware.Ring.{IsValid}
use arduino_driver.Firmware.State.{Device, Command}

-- Whether fewer than 255 RESETs came since each of the commands was accepted, by its epoch.
unfoldable pub all_recent : ℕ → List Command → Bool
all_recent epoch [] = true
all_recent epoch (cmd ∷ cmds) =
    ltb cmd.epoch 256 && (ltb (u8_sub epoch cmd.epoch) 255 && all_recent epoch cmds)

module _ (b : Board) (c : Core) where
  open c use {World}

  -- Recent commands do nothing under the next epoch.
  run_commands_stale :
      (cmds : List Command) (epoch : ℕ) (d : Device) (w : World)
      → all_recent epoch cmds ≡ true
      → epoch < 256
      → d.epoch ≡ u8 (epoch + 1)
      → run_commands b c cmds (d, w) ≡ (d, w)
  unfolding run_commands all_recent run_current
  run_commands_stale [] epoch d w h small next = refl
  run_commands_stale (cmd ∷ cmds) epoch d w h small next =
      ap (run_commands b c cmds) (let e : run_current b c cmd (d, w) ≡ (d, w) = ground arith in e)
      ∙ run_commands_stale cmds epoch d w (ground arith) small next

  -- For a valid queue and an epoch that is a byte, a RESET cancels all waiting commands, whatever RESETs came
  -- between them, if by their epochs fewer than 255 RESETs came since each was accepted: the next
  -- drain takes them off the queue without touching the hardware or the shadow.
  pub request_reset_cancels :
      (d : Device) (w : World)
      → IsValid d.commands
      → d.epoch < 256
      → all_recent d.epoch (waiting d) ≡ true
      → drain b c (request_reset b d, w)
        ≡ (record (request_reset b d) { commands = emptied b c d.commands }, w)
  unfolding request_reset
  request_reset_cancels d w v small recent =
      let r = request_reset b d in
      drain_lem b c r w v
      ∙ ap (λ (s : State b c). (record s.0 { commands = emptied b c d.commands }, s.1))
          (run_commands_stale (waiting d) d.epoch r w recent small refl)
