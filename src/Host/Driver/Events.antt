-- ===== src/Host/Driver/Events.antt =====
-- The pin events of Device in extras/driver/src/Device.cpp: configure_event, pop_events_once, poll_events,
-- event_counts and wait_event.
pub mod Configured
pub mod Configure
pub mod Entries
pub mod Pop
pub mod Drain
use arduino_driver.Prelude.{
  ℕ, zero, suc, ◌+◌, Bool, true, false, not, Option, none, some, List, [], ◌∷◌, ◌++◌, leb, ltb,
  ◌==◌, if◌then◌else◌, min,
}
use arduino_driver.Prelude.Signed.{ℤ, pos, negsuc}
use arduino_driver.Protocol.Decode.{
  PinEvent, EventCount, EventHeader, decode_event_header, decode_event, decode_event_count,
}
use arduino_driver.Protocol.Edge
use arduino_driver.Protocol.Errors.{Result, ok, err, protocol_error, invalid_value}
use arduino_driver.Protocol.Limit
use arduino_driver.Protocol.Request
use arduino_driver.Protocol.Sizes.{event_pop_len, event_counts_len, encode_event_config_value}
use arduino_driver.Host.Driver.{
  Driver, Options, Call, send, read, pause, pin_caps, check_not_streaming, require_events,
}
use arduino_driver.Host.Exec.{Exec, pure, lift, require, ◌>>=◌, ◌>>◌}
use arduino_driver.Host.Transfers.{Transport}

unfoldable pub events_from : List ℕ → ℕ → ℕ → List PinEvent
events_from reply i zero = []
events_from reply i (suc n) = decode_event reply i ∷ events_from reply (suc i) n

unfoldable pub counts_from : List ℕ → ℕ → ℕ → List EventCount
counts_from reply i zero = []
counts_from reply i (suc n) = decode_event_count reply i ∷ counts_from reply (suc i) n

-- A debounce time that the wire can carry.
abbrev pub debounce_code : ℤ → Result ℕ
debounce_code (negsuc n) = err invalid_value
debounce_code (pos ms) = if ltb Limit.max_debounce_ms ms then err invalid_value else ok ms

-- What pop_events_once leaves in its out-parameters.
pub record Batch : Type 0 where
  pub events : List PinEvent
  pub dropped : ℕ
  pub pending : Bool

module _ (t : Transport) (o : Options) where
  open t use {Link}

  unfoldable pub configure_event : ℕ → ℕ → ℤ → Call t o (Unit {0})
  configure_event pin edge debounce d =
      (do
        check_not_streaming
        require_events
        lift (pin_caps d pin)
        require invalid_value (ltb edge Edge.count)
        debounce_ms ← lift (debounce_code debounce)
        send t o Request.event_config (encode_event_config_value debounce_ms edge) pin)
        d

  -- The events are appended to `out`.
  unfoldable pub pop_events_once : ℕ → List PinEvent → Call t o Batch
  pop_events_once max_events out = do
    reply ←
        read t o Request.event_pop max_events (event_pop_len Limit.max_events_per_pop)
          Limit.event_header_len
    header ← lift (decode_event_header (reply.1))
    require protocol_error (leb (event_pop_len header.count) (reply.0))
    pure (record {
      events = out ++ events_from (reply.1) 0 header.count;
      dropped = header.dropped;
      pending = not (header.pending == 0);
    })

  -- At most `rounds` of them, the last one without an answer: `pending` is then still set.
  unfoldable pub poll_loop : ℕ → List PinEvent → ℕ → Driver Link → Result Batch × Driver Link
  poll_loop zero events total_dropped d =
      (ok (record { events = events; dropped = total_dropped; pending = true }), d)
  poll_loop (suc rounds) events total_dropped d =
      let (result, d') = pop_events_once 0 events d in
      elim result [
        | err e ↦ (err e, d')
        | ok batch ↦
            let total = min 255 (total_dropped + batch.dropped) in
            (if batch.pending
              then poll_loop rounds batch.events total d'
              else (ok (record batch { dropped = total }), d'))
      ]

  unfoldable pub poll_events : ℕ → Call t o Batch
  poll_events rounds = do check_not_streaming; require_events; poll_loop rounds [] 0

  unfoldable pub event_counts : Call t o (List EventCount)
  event_counts = do
    check_not_streaming
    require_events
    reply ←
        read t o Request.event_counts 0 (event_counts_len Limit.max_event_pins)
          Limit.event_header_len
    header ← lift (decode_event_header (reply.1))
    require protocol_error (leb (event_counts_len header.count) (reply.0))
    pure (counts_from (reply.1) 0 header.count)

  -- One look at the queue of the device.
  unfoldable pub pop_front : Call t o (Option PinEvent)
  pop_front = do
    batch ← pop_events_once 1 []
    pure (elim batch.events [ [] ↦ none | event ∷ events ↦ some event ])

  -- The clock is past the deadline when it is read for the `readings`-th time, counted from 0.
  unfoldable pub wait_loop : ℕ → Driver Link → Result (Option PinEvent) × Driver Link
  wait_loop zero d = pop_front d
  wait_loop (suc more) d =
      let (result, d') = pop_front d in
      elim result [
        | err e ↦ (err e, d')
        | ok found ↦ elim found [
          | some event ↦ (ok (some event), d')
          | none ↦ wait_loop more (pause t o d').1
        ]
      ]

  unfoldable pub wait_event : ℕ → Call t o (Option PinEvent)
  wait_event readings = do check_not_streaming; require_events; wait_loop readings
