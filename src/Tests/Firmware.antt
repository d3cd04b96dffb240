-- ===== src/Tests/Firmware.antt =====
-- The firmware's handlers and its loop on the device of Fixtures.
use arduino_driver.Prelude.{
  ◌≡◌, refl, arith, false, [], ◌∷◌, ◌++◌, map, ltb, length, take, drop, if◌then◌else◌,
}
use arduino_driver.Protocol.Layout
use arduino_driver.Protocol.Request
use arduino_driver.Protocol.Status
use arduino_driver.Firmware.Out.{handle_out, dispatch_out, handle_dio_write}
use arduino_driver.Firmware.Poll.Drain.{run_commands, drain_lem, emptied}
use arduino_driver.Firmware.Reply.{pop_events, event_pop_answer, replied, concat, entry_bytes}
use arduino_driver.Firmware.Reply.Pop.{event_pop_answer_lem}
use arduino_driver.Firmware.State.{zeroed_command, zeroed_event}
use arduino_driver.Firmware.Watch.{discard_events_for_pin}
use arduino_driver.Firmware.Watch.Discard.{live, without, live-discard_events_for_pin}
use arduino_driver.Firmware.Poll.{State, settle, settle_under, drain}
use arduino_driver.Firmware.Poll.Settle.{settle_under_lem, one_round}
use arduino_driver.Firmware.Queue.{busy, enqueue, stall, request_reset}
use arduino_driver.Firmware.Queue.Fifo.{enqueue_lem, waiting}
use arduino_driver.Firmware.Setup.{handle_setup}
use arduino_driver.Firmware.Setup.Atomic.{handle_setup_refused, OnlyError}
use arduino_driver.Firmware.Ring.{IsValid, to_list, window, slot_of}
use arduino_driver.Tests.Fixtures.{board, core, device, press, three_events}

commands-IsValid : IsValid device.commands
commands-IsValid = omega arith

events-IsValid : IsValid device.events.ring
events-IsValid = omega arith

-- DIO_WRITE on pin 0, which is an input, is refused.
write_refused : (handle_setup board device 0x40 4 1 0 0 0 0).0 ≡ false
unfolding handle_setup handle_out dispatch_out handle_dio_write Request.of_code stall
write_refused = refl

handle_setup_refused_example :
    let (accepted, reply, after) = handle_setup board device 0x40 4 1 0 0 0 0 in
    (reply ≡ []) × OnlyError device after
handle_setup_refused_example = handle_setup_refused board device 0x40 4 1 0 0 0 0 write_refused

enqueue_lem_example :
    let (queued, after) = enqueue device Request.dio_write 1 1 in
    (queued ≡ ltb (length (waiting device)) 32)
    × (after ≡ record device { commands = after.commands })
    × (waiting after ≡ (
        if queued
        then waiting device
          ++ record { cmd = Request.dio_write; pin = 1; epoch = 0; value = 1 } ∷ []
        else waiting device))
    × IsValid after.commands
enqueue_lem_example = enqueue_lem device Request.dio_write 1 1 commands-IsValid

-- A RESET lands after the first drain.
settle_under_lem_example :
    let s : State board core = (device, 0) in
    let resets = request_reset board ∷ [] in
    let out = settle_under board core resets 2 s in
    let quiet = settle board core 2 s in
    let (d, w) = one_round board core s in
    let reset = settle_under board core resets 3 s in
    (out.0.reset_done ≡ out.0.reset_requests)
    × (out ≡ settle_under board core resets 2 s)
    × (quiet ≡ one_round board core s)
    × (busy quiet.0 ≡ false)
    × (reset ≡ one_round board core (request_reset board d, w))
    × (busy reset.0 ≡ false)
settle_under_lem_example =
    settle_under_lem board core (request_reset board ∷ []) 1 device 0 commands-IsValid (omega arith)

drain_lem_example :
    let (d', w') = run_commands board core (to_list zeroed_command device.commands) (device, 0) in
    drain board core (device, 0) ≡ (record d' { commands = emptied board core device.commands }, w')
drain_lem_example = drain_lem board core device 0 commands-IsValid

live-discard_events_for_pin_example :
    live (to_list zeroed_event (discard_events_for_pin three_events 2)) ≡ press 0 1 ∷ []
unfolding without live to_list window slot_of
live-discard_events_for_pin_example = live-discard_events_for_pin three_events 2 events-IsValid

-- wIndex 2 of the three events.
event_pop_answer_lem_example :
    let q = live (to_list zeroed_event three_events) in
    let r = (pop_events three_events 2).1 in
    (event_pop_answer device 2
      ≡ replied
          (Layout.event_header_bytes Status.ok (length (take 2 q)) 1 (length (drop 2 q))
            ++ concat (map entry_bytes (take 2 q)))
          (record device { events = record (device.events) { ring = r; dropped = 0 } }))
    × (live (to_list zeroed_event r) ≡ drop 2 q)
    × IsValid r
event_pop_answer_lem_example = event_pop_answer_lem device 2 events-IsValid
