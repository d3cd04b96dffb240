-- ===== src/Host/Watcher/Delivery.antt =====
-- The worker thread of extras/driver/src/EventWatcher.cpp on the events of src/UsbIo.cpp.
use arduino_driver.Prelude.{
  ℕ, ◌+◌, ◌^◌, ◌<◌, ◌≤◌, ◌≡◌, refl, ap, ◌∙◌, true, false, some, List, [], ◌∷◌, map, min, arith,
  length,
}
use arduino_driver.Protocol.Decode.{PinEvent}
use arduino_driver.Protocol.Features.{has_events}
use arduino_driver.Firmware.Board.{Board}
use arduino_driver.Firmware.Ring.{IsValid}
use arduino_driver.Host.Driver.{Options}
use arduino_driver.Host.Driver.Events.{poll_events}
use arduino_driver.Host.Driver.Events.Drain.{poll_events_lem}
use arduino_driver.Host.Driver.Events.Pop.{queued}
use arduino_driver.Host.Driver.Events.Entries.{seen}
use arduino_driver.Host.Transfers.Refusal.{usb}
use arduino_driver.Host.Watcher.{
  Watching, u64, deliver_event, deliver_events, add_dropped, worker_pass, after_poll,
}

module _ (b : Board) (o : Options) (now_ms now_us : ℕ) {World : Type 0}
    (call : PinEvent → World → World) where
  -- The calls of the callback, in order.
  abbrev pub called : List PinEvent → World → World
  called [] world = world
  called (e ∷ events) world = called events (call e world)

  abbrev Watched : Type 0
  Watched = Watching (usb b now_ms now_us) o World

  deliver_events-called :
      (events : List PinEvent) (w : Watched)
      → w.stats.events_delivered < 2 ^ 64
      → let after = deliver_events (usb b now_ms now_us) o (some call) events w in
        (after.world ≡ called events w.world)
        × (after.stats.events_delivered ≡ u64 (w.stats.events_delivered + length events))
        × (after.stats.dropped ≡ w.stats.dropped)
        × (after.device ≡ w.device)
  unfolding deliver_events deliver_event
  deliver_events-called [] w fits = (refl, omega arith, refl, refl)
  deliver_events-called (e ∷ events) w fits =
      let rest =
        deliver_events-called events (deliver_event (usb b now_ms now_us) o (some call) e w)
          (omega arith) in
      (rest.0, omega (arith, rest.1), rest.2, rest.3)

  -- On an open device with pin events, without a stream and with a valid event ring, one pass of the worker
  -- calls the callback once for each event that the device can still deliver, oldest first; the 64-bit counts grow by the number
  -- of these events and by the dropped ones, and no event is left on the device.
  pub worker_pass_lem :
      (rounds : ℕ) (w : Watched)
      → w.device.streaming ≡ false
      → has_events w.device.info ≡ true
      → IsValid w.device.link.events.ring
      → 5 ≤ rounds
      → w.stats.events_delivered < 2 ^ 64
      → w.stats.dropped < 2 ^ 64
      → let after = worker_pass (usb b now_ms now_us) o (some call) rounds w in
        let events = map seen (queued w.device.link) in
        (after.world ≡ called events w.world)
        × (after.stats.events_delivered ≡ u64 (w.stats.events_delivered + length events))
        × (after.stats.dropped ≡ u64 (w.stats.dropped + min 255 w.device.link.events.dropped))
        × (queued after.device.link ≡ [])
  unfolding worker_pass
  worker_pass_lem rounds w idle eventful v enough fits fits' =
      let t = usb b now_ms now_us in
      let poll = poll_events t o rounds w.device in
      let polled = poll_events_lem b o now_ms now_us rounds w.device idle eventful v enough in
      let events = map seen (queued w.device.link) in
      let dropped = min 255 w.device.link.events.dropped in
      let counted : Watched = record w {
        device = poll.1;
        stats = add_dropped t o (some call) dropped w.stats;
      } in
      let whole : worker_pass t o (some call) rounds w
          ≡ deliver_events t o (some call) events counted =
        ap (λ r. after_poll t o (some call) r (record w { device = poll.1 })) polled.0 in
      let same : counted.stats.events_delivered ≡ w.stats.events_delivered = ground arith in
      let more : counted.stats.dropped ≡ u64 (w.stats.dropped + dropped) = ground arith in
      let delivered = deliver_events-called events counted (omega (arith, same)) in
      rw whole (
        delivered.0,
        delivered.1 ∙ ap (λ n. u64 (n + length events)) same,
        delivered.2 ∙ more,
        ap (λ d. queued d.link) delivered.3 ∙ polled.1,
      )
