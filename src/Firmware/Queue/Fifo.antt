-- ===== src/Firmware/Queue/Fifo.antt =====
-- enqueue of src/UsbIo.cpp as the push of a FIFO of at most 32 commands.
use arduino_driver.Prelude.{ℕ, ◌≡◌, List, [], ◌∷◌, ◌++◌, arith, ltb, if◌then◌else◌, length}
use arduino_driver.Protocol.Request.{Request}
use arduino_driver.Firmware.Queue.{enqueue}
use arduino_driver.Firmware.Ring.{IsValid, to_list}
use arduino_driver.Firmware.Ring.Fifo.{to_list-put, put-IsValid, length-to_list}
use arduino_driver.Firmware.State.{Device, Command, zeroed_command}

-- The commands that wait, oldest first.
abbrev pub waiting : Device → List Command
waiting d = to_list zeroed_command d.commands

-- For a valid queue, a command is accepted exactly when fewer than 32 wait. Then it is the last one
-- to wait, under the current epoch, and nothing but the queue changes; otherwise nothing changes.
-- The queue stays valid.
pub enqueue_lem :
    (d : Device) (cmd : Request) (pin value : ℕ)
    → IsValid d.commands
    → let (queued, after) = enqueue d cmd pin value in
      (queued ≡ ltb (length (waiting d)) 32)
      × (after ≡ record d { commands = after.commands })
      × (waiting after ≡ (
          if queued
          then waiting d ++ record { cmd = cmd; pin = pin; epoch = d.epoch; value = value } ∷ []
          else waiting d))
      × IsValid after.commands
unfolding enqueue
enqueue_lem d cmd pin value v =
    let c : Command = record { cmd = cmd; pin = pin; epoch = d.epoch; value = value } in
    ground (
      arith,
      length-to_list zeroed_command d.commands,
      to_list-put zeroed_command d.commands c v,
      put-IsValid {r = d.commands} c v,
    )
