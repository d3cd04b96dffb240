-- ===== src/Firmware/Invariant/Reach.antt =====
-- The device over time: src/UsbIo.cpp's interrupt and its loop, interleaved.
use arduino_driver.Prelude.{ℕ, ◌≡◌, false}
use arduino_driver.Firmware.Board.{Board, Core, IsSound}
use arduino_driver.Firmware.Invariant.Boot.{begin-IsConsistent}
use arduino_driver.Firmware.Invariant.Consistent.{IsConsistent}
use arduino_driver.Firmware.Invariant.Poll.{
  poll_lem, settle-IsConsistent, refresh_shadow-IsConsistent, event_poll-IsConsistent,
  stream_poll-IsConsistent,
}
use arduino_driver.Firmware.Invariant.Requests.{halted-IsStreaming}
use arduino_driver.Firmware.Invariant.Setup.{handle_setup-IsConsistent}
use arduino_driver.Firmware.Main.{poll}
use arduino_driver.Firmware.Poll.{State, settle, refresh_shadow}
use arduino_driver.Firmware.Queue.{busy, handle_usb_disconnected}
use arduino_driver.Firmware.Sample.{stream_poll}
use arduino_driver.Firmware.Scan.{event_poll}
use arduino_driver.Firmware.Setup.{begin, handle_setup}
use arduino_driver.Firmware.State.{Device, initial}

module _ (b : Board) (c : Core) where
  open c use {World}

  -- A request, a disconnect or a change of the hardware may come between any two phases of poll().
  pub data Step : State b c → State b c → Type 0 where
    request :
        (d : Device) (w : World)
        (bm_request_type b_request w_value w_index w_length now_ms now_us : ℕ)
        → Step
            (d, w)
            (
              (handle_setup b d bm_request_type b_request w_value w_index w_length now_ms now_us).2,
              w,
            )
    disconnected : (d : Device) (w : World) → Step (d, w) (handle_usb_disconnected b d, w)
    hardware : (d : Device) (w w' : World) → Step (d, w) (d, w')
    settled : (d : Device) (w : World) → Step (d, w) (settle b c 2 (d, w))
    refreshed : (d : Device) (w : World) → Step (d, w) (refresh_shadow b c (d, w))
    scanned : (d : Device) (w : World) → Step (d, w) (event_poll c (d, w))
    streamed : (d : Device) (w : World) → Step (d, w) (stream_poll b c (d, w))

  pub data Reachable : State b c → Type 0 where
    booted : (w : World) → Reachable (begin b initial, w)
    next : {s t : State b c} → Reachable s → Step s t → Reachable t

  disconnect-IsConsistent :
      (d : Device) → IsConsistent d → IsConsistent (handle_usb_disconnected b d)
  unfolding handle_usb_disconnected
  disconnect-IsConsistent d v = (v.0, v.1, v.2, v.3, halted-IsStreaming b d.n_pins d.stream v.4)

  Step-IsConsistent : {s t : State b c} → Step s t → IsConsistent s.0 → IsConsistent t.0
  Step-IsConsistent (request d w t r v i l ms us) h =
      handle_setup-IsConsistent b d t r v i l ms us h
  Step-IsConsistent (disconnected d w) h = disconnect-IsConsistent d h
  Step-IsConsistent (hardware d w w') h = h
  Step-IsConsistent (settled d w) h = settle-IsConsistent b c d w h
  Step-IsConsistent (refreshed d w) h = refresh_shadow-IsConsistent b c d w h
  Step-IsConsistent (scanned d w) h = event_poll-IsConsistent b c d w h
  Step-IsConsistent (streamed d w) h = stream_poll-IsConsistent b c d w h

  -- For a board whose constants are sound: whatever requests, disconnects, changes of the hardware
  -- and phases of poll() follow begin(), in any order, the device is consistent: full tables, rings
  -- of at most 32 entries, at most eight watched input pins with one slot each, at most eight
  -- selected pins, each once. And a call of poll() then leaves nothing pending.
  pub reachable-IsConsistent :
      {s : State b c} → IsSound b → Reachable s → IsConsistent s.0 × (busy (poll b c s).0 ≡ false)
  reachable-IsConsistent {s} sound r = let v = consistent r in (v, (poll_lem b c s.0 s.1 v).1)
    where
      consistent : {t : State b c} → Reachable t → IsConsistent t.0
      consistent (booted w) = begin-IsConsistent b sound
      consistent (next r step) = Step-IsConsistent step (consistent r)
