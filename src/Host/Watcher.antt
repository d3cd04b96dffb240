-- ===== src/Host/Watcher.antt =====
-- EventWatcher of extras/driver/src/EventWatcher.cpp: the constructor with its rollback, the rounds of the
-- worker thread and stop(). The thread itself and its waits are left out.
pub mod Rollback
pub mod Delivery
use arduino_driver.Prelude.{
  ℕ, zero, suc, ◌+◌, ◌%◌, ◌^◌, not, Option, none, some, List, [], ◌∷◌, ◌==◌, length, ltb,
  if◌then◌else◌,
}
use arduino_driver.Prelude.Signed.{ℤ, pos}
use arduino_driver.Protocol.Decode.{PinEvent}
use arduino_driver.Protocol.Edge
use arduino_driver.Protocol.Errors.{Result, ok, err, invalid_argument}
use arduino_driver.Host.Driver.{Driver, Options, Call}
use arduino_driver.Host.Driver.Events.{Batch, configure_event, poll_events}
use arduino_driver.Host.Exec.{Exec, require, attempt_all, best_efforts, or_undo, ◌>>=◌, ◌>>◌}
use arduino_driver.Host.Transfers.{Transport}

pub record WatchedPin : Type 0 where
  pub pin : ℕ
  pub edge : ℕ
  pub debounce : ℤ

-- Two uint64_t.
pub record EventWatcherStats : Type 0 where
  pub events_delivered : ℕ
  pub dropped : ℕ

abbrev pub u64 : ℕ → ℕ
u64 n = n % 2 ^ 64

module _ (t : Transport) (o : Options) where
  open t use {Link}

  unfoldable pub arm_pin : WatchedPin → Call t o (Unit {0})
  arm_pin w = configure_event t o w.pin w.edge w.debounce

  unfoldable pub disarm_pin : WatchedPin → Call t o (Unit {0})
  disarm_pin w = configure_event t o w.pin Edge.off (pos 0)

  -- The constructor, up to the start of the thread.
  unfoldable pub arm_pins : List WatchedPin → Call t o (Unit {0})
  arm_pins pins d =
      (do
        require invalid_argument (not (length pins == 0))
        (λ d'.
            let (result, d'') = attempt_all arm_pin pins [] d' in
            or_undo (best_efforts disarm_pin (result.1)) (result.0) d''))
        d

  -- The first stop(); a later one does nothing.
  unfoldable pub disarm_pins : List WatchedPin → Call t o (Unit {0})
  disarm_pins = best_efforts disarm_pin

  -- What the worker thread changes; `world` is what the callback changes.
  pub record Watching (World : Type 0) : Type 0 where
    pub device : Driver Link
    pub stats : EventWatcherStats
    pub world : World

  module _ {World : Type 0} (callback : Option (PinEvent → World → World)) where
    unfoldable pub deliver_event : PinEvent → Watching World → Watching World
    deliver_event e w = record w {
      world = elim callback [ none ↦ w.world | some call ↦ call e w.world ];
      stats = record (w.stats) { events_delivered = u64 (w.stats.events_delivered + 1) };
    }

    unfoldable pub deliver_events : List PinEvent → Watching World → Watching World
    deliver_events [] w = w
    deliver_events (e ∷ events) w = deliver_events events (deliver_event e w)

    abbrev pub add_dropped : ℕ → EventWatcherStats → EventWatcherStats
    add_dropped dropped s =
        if ltb 0 dropped then record s { dropped = u64 (s.dropped + dropped) } else s

    -- An Error is ignored: the next round tries again.
    abbrev pub after_poll : Result Batch → Watching World → Watching World
    after_poll (err e) w = w
    after_poll (ok batch) w =
        deliver_events batch.events (record w { stats = add_dropped batch.dropped w.stats })

    -- One pass of worker_main's loop; `rounds` bounds the replies that poll_events takes.
    unfoldable pub worker_pass : ℕ → Watching World → Watching World
    worker_pass rounds w =
        let (result, device) = poll_events t o rounds w.device in
        after_poll result (record w { device = device })

    -- `passes` of them, until stop() is seen.
    unfoldable pub worker_main : ℕ → ℕ → Watching World → Watching World
    worker_main rounds zero w = w
    worker_main rounds (suc passes) w = worker_main rounds passes (worker_pass rounds w)
