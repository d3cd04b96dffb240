-- ===== src/Firmware/Poll/Drain.antt =====
-- What the drain of poll() in src/UsbIo.cpp does: every waiting command runs once, in order, unless a
-- RESET came after it, and the queue is empty afterwards.
use arduino_driver.Prelude.{
  ℕ, zero, suc, ◌<◌, ◌≡◌, refl, sym, ap, ◌∙◌, List, [], ◌∷◌, arith, ◌==◌, if◌then◌else◌,
}
use arduino_driver.Firmware.Board.{Board, Core}
use arduino_driver.Firmware.Poll.{
  State, execute, execute_as, apply_mode, sample_dio, sample_ain, read_pin, read_analog, drain,
  drain_loop, drain_one,
}
use arduino_driver.Firmware.Ring.{Ring, IsValid, pending, to_list, front, advance}
use arduino_driver.Firmware.Ring.Fifo.{
  to_list-advance, advance-IsValid, pending-advance, to_list-empty,
}
use arduino_driver.Firmware.State.{Device, Command, zeroed_command}

module _ (b : Board) (c : Core) where
  open c use {World}

  -- A command runs unless it carries another epoch than the device.
  unfoldable pub run_current : Command → State b c → State b c
  run_current cmd (d, w) = if cmd.epoch == d.epoch then execute b c cmd (d, w) else (d, w)

  unfoldable pub run_commands : List Command → State b c → State b c
  run_commands [] s = s
  run_commands (cmd ∷ cmds) s = run_commands cmds (run_current cmd s)

  with_commands : Ring Command → State b c → State b c
  with_commands r (d, w) = (record d { commands = r }, w)

  -- Running a command neither reads nor writes the queue.
  execute-with_commands :
      (r : Ring Command) (cmd : Command) (s : State b c)
      → execute b c cmd (with_commands r s) ≡ with_commands r (execute b c cmd s)
  unfolding with_commands execute execute_as apply_mode sample_dio sample_ain read_pin read_analog
  execute-with_commands r cmd (d, w) = ground arith

  run_current-with_commands :
      (r : Ring Command) (cmd : Command) (s : State b c)
      → run_current cmd (with_commands r s) ≡ with_commands r (run_current cmd s)
  unfolding with_commands run_current
  run_current-with_commands r cmd (d, w) = ground (arith, execute-with_commands r cmd (d, w))

  run_commands-with_commands :
      (r : Ring Command) (cmds : List Command) (s : State b c)
      → run_commands cmds (with_commands r s) ≡ with_commands r (run_commands cmds s)
  unfolding run_commands
  run_commands-with_commands r [] s = refl
  run_commands-with_commands r (cmd ∷ cmds) s =
      ap (run_commands cmds) (run_current-with_commands r cmd s)
      ∙ run_commands-with_commands r cmds (run_current cmd s)

  drain_one_lem :
      (s : State b c)
      → drain_one b c s
        ≡ with_commands (advance s.0.commands) (run_current (front zeroed_command s.0.commands) s)
  unfolding drain_one
  drain_one_lem (d, w) =
      unfold drain_one run_current with_commands in
      (ground (
        arith,
        execute-with_commands (advance d.commands) (front zeroed_command d.commands) (d, w),
      ))

  abbrev pub emptied : Ring Command → Ring Command
  emptied r = record r { tail = r.head }

  -- One round, given the rounds after it.
  drain_loop_step :
      (n : ℕ) (r : Ring Command) (s : State b c)
      → IsValid r
      → n ≡ pending r
      → (IsValid r
          → n ≡ pending r
          → drain_loop b c n (with_commands r s)
            ≡ with_commands
                (emptied r)
                (run_commands (to_list zeroed_command r) (with_commands r s)))
      → drain_loop b c n (with_commands r s)
        ≡ with_commands (emptied r) (run_commands (to_list zeroed_command r) s)
  drain_loop_step n r s v e rest =
      rest v e
      ∙ rw (run_commands-with_commands r (to_list zeroed_command r) s)
          (unfold with_commands in refl)

  drain_loop_lem :
      (n : ℕ) (s : State b c)
      → IsValid s.0.commands
      → n ≡ pending s.0.commands
      → drain_loop b c n s
        ≡ with_commands
            (emptied s.0.commands)
            (run_commands (to_list zeroed_command s.0.commands) s)
  unfolding drain_loop with_commands
  drain_loop_lem zero (d, w) v e = rw (to_list-empty zeroed_command d.commands (sym e)) (
      unfold run_commands with_commands in
      (ap (λ (t : ℕ). (record d { commands = record (d.commands) { tail = t } }, w))
        (omega (arith, v.head_byte, v.tail_byte))))
  drain_loop_lem (suc n) (d, w) v e =
      let r = d.commands in
      let cmd = front zeroed_command r in
      let rest = to_list zeroed_command (advance r) in
      let some_left : 0 < pending r = omega arith in
      rw (drain_one_lem (d, w), to_list-advance zeroed_command r v some_left)
        (drain_loop_step n (advance r) (run_current cmd (d, w)) (advance-IsValid v some_left)
            (omega (arith, pending-advance r v some_left))
            (drain_loop_lem n (with_commands (advance r) (run_current cmd (d, w))))
          ∙ unfold run_commands advance in refl)

  -- For a valid queue, a drain runs the waiting commands in the order in which they were accepted,
  -- each once, skipping those with another epoch than the device's, and leaves the queue empty.
  pub drain_lem :
      (d : Device) (w : World)
      → IsValid d.commands
      → let (d', w') = run_commands (to_list zeroed_command d.commands) (d, w) in
        drain b c (d, w) ≡ (record d' { commands = emptied d.commands }, w')
  unfolding drain with_commands
  drain_lem d w v = drain_loop_lem (pending d.commands) (d, w) v refl
