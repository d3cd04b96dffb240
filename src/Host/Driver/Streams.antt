-- ===== src/Host/Driver/Streams.antt =====
-- The streams of Device in extras/driver/src/Device.cpp: start_stream with its rollback, poll_stream_status
-- and end_stream.
pub mod Distinct
pub mod Select
pub mod Status
pub mod Channels
pub mod Checks
pub mod Started
pub mod Launch
use arduino_driver.Prelude.{
  ℕ, zero, suc, Bool, true, false, ◌&&◌, ◌||◌, not, List, [], ◌∷◌, leb, ltb, ◌==◌, if◌then◌else◌,
  length,
}
use arduino_driver.Prelude.Signed.{ℤ, pos, negsuc}
use arduino_driver.Protocol.Decode.{StreamStatus, decode_stream_status, decode_time_reply}
use arduino_driver.Protocol.Errors.{Result, ok, err, protocol_error, invalid_value, not_supported}
use arduino_driver.Protocol.Features
use arduino_driver.Protocol.Limit
use arduino_driver.Protocol.Request
use arduino_driver.Host.Driver.{
  Driver, Options, Call, send, read, raw, pin_caps, check_not_streaming,
}
use arduino_driver.Host.Exec.{
  pure, lift, require, modify, best_effort, when, continue, attempt_all, best_efforts, or_undo,
  ◌>>=◌, ◌>>◌,
}
use arduino_driver.Host.Transfers.{Transport}

pub record StreamConfig : Type 0 where
  pub pins : List ℕ
  pub period : ℤ
  pub flags : ℕ
  pub queue_capacity : ℕ

abbrev pub default_stream_queue_capacity : ℕ
default_stream_queue_capacity = 1024

-- `std::find(pins.begin(), pins.end(), pin) != pins.end()`
abbrev pub contains : List ℕ → ℕ → Bool
contains [] pin = false
contains (p ∷ pins) pin = p == pin || contains pins pin

unfoldable pub insert_sorted : ℕ → List ℕ → List ℕ
insert_sorted x [] = x ∷ []
insert_sorted x (y ∷ ys) = if leb x y then x ∷ y ∷ ys else y ∷ insert_sorted x ys

-- std::sort
unfoldable pub sorted : List ℕ → List ℕ
sorted [] = []
sorted (x ∷ xs) = insert_sorted x (sorted xs)

-- `std::adjacent_find(pins.begin(), pins.end()) != pins.end()`
unfoldable pub adjacent_equal : List ℕ → Bool
adjacent_equal [] = false
adjacent_equal (x ∷ []) = false
adjacent_equal (x ∷ y ∷ ys) = x == y || adjacent_equal (y ∷ ys)

-- A period that STREAM_START can carry, in microseconds.
abbrev pub period_code : ℕ → ℤ → Result ℕ
period_code min_period (negsuc n) = err invalid_value
period_code min_period (pos us) =
    if ltb 0xffff us || (not (us == 0) && ltb us min_period) then err invalid_value else ok us

module _ (t : Transport) (o : Options) where
  open t use {Link}

  unfoldable pub read_stream_status : Call t o StreamStatus
  read_stream_status = do
    reply ← raw t o Request.stream_status 0 Limit.stream_status_len
    require protocol_error (leb Limit.stream_status_len (reply.0))
    lift (decode_stream_status (reply.1))

  -- The range check of each pin.
  unfoldable pub check_pins : List ℕ → Call t o (Unit {0})
  check_pins [] d = (ok tt, d)
  check_pins (pin ∷ pins) d = (do lift (pin_caps d pin); check_pins pins) d

  -- What start_stream asks of its argument before the first transfer; the result is the period.
  unfoldable pub check_config : StreamConfig → Call t o ℕ
  check_config config d =
      (do
        check_not_streaming
        require not_supported (Features.has_streaming d.info)
        require invalid_value (not (length config.pins == 0))
        require invalid_value (leb (length config.pins) d.info.stream_max_channels)
        check_pins config.pins
        require invalid_value (not (adjacent_equal (sorted config.pins)))
        period_us ← lift (period_code (Features.min_stream_period_us d.info) config.period)
        require invalid_value (not (config.queue_capacity == 0))
        pure period_us)
        d

  -- `try { send_out(StreamSelect, 0, pin) } catch (...) {}`
  abbrev pub deselect : ℕ → Call t o (Unit {0})
  deselect pin = best_effort (send t o Request.stream_select 0 pin)

  -- Each of `pins` that `wanted` has not is deselected.
  unfoldable pub deselect_unwanted : List ℕ → List ℕ → Call t o (Unit {0})
  deselect_unwanted wanted [] = pure tt
  deselect_unwanted wanted (pin ∷ pins) = do
    when (not (contains wanted pin)) (deselect pin)
    deselect_unwanted wanted pins

  -- The same for the pins `from` to `from + n - 1`.
  unfoldable pub deselect_others : List ℕ → ℕ → ℕ → Call t o (Unit {0})
  deselect_others wanted from zero = pure tt
  deselect_others wanted from (suc n) = do
    when (not (contains wanted from)) (deselect from)
    deselect_others wanted (suc from) n

  unfoldable pub select_pins : List ℕ → Driver Link → (Result (Unit {0}) × List ℕ) × Driver Link
  select_pins pins = attempt_all (send t o Request.stream_select 1) pins []

  unfoldable pub clear_stale : StreamConfig → Call t o (Unit {0})
  clear_stale config d =
      (do
        deselect_others config.pins 0 (length d.caps)
        after ← read_stream_status
        require protocol_error (after.n_channels == length config.pins))
        d

  unfoldable pub check_channels : StreamConfig → Call t o (Unit {0})
  check_channels config = do
    before ← read_stream_status
    when (not (before.n_channels == length config.pins)) (clear_stale config)

  -- The device's clock, in microseconds.
  unfoldable pub device_clock : Call t o ℕ
  device_clock = do
    reply ← read t o Request.get_time 0 Limit.time_reply_len Limit.time_reply_len
    time ← lift (decode_time_reply (reply.1))
    pure time.micros

  -- From the selected pins to the running stream; the result is the device's clock before it.
  unfoldable pub begin_stream : StreamConfig → ℕ → Call t o ℕ
  begin_stream config period_us = do
    check_channels config
    start_t_us ← device_clock
    send t o Request.stream_start period_us config.flags
    pure start_t_us

  -- The rollback of `added`, the last pin first.
  unfoldable pub roll_back : List ℕ → Call t o (Unit {0})
  roll_back = best_efforts (send t o Request.stream_select 0)

  -- The try block, and what catches its exceptions.
  unfoldable pub try_start : StreamConfig → ℕ → Call t o ℕ
  try_start config period_us d =
      let (selected, d') = select_pins config.pins d in
      let (result, d'') = continue (λ done. begin_stream config period_us) (selected.0) d' in
      or_undo (roll_back (selected.1)) result d''

  -- What an earlier stream left behind.
  unfoldable pub clear_earlier : StreamConfig → Call t o (Unit {0})
  clear_earlier config = do
    status ← read_stream_status
    when status.running (send t o Request.stream_stop 0 0)
    (λ d. deselect_unwanted config.pins d.selected d)

  unfoldable pub launch : StreamConfig → ℕ → Call t o ℕ
  launch config period_us = do
    start_t_us ← try_start config period_us
    modify (λ d. record d { selected = config.pins; streaming = true })
    pure start_t_us

  -- The result is the time that the Stream is given.
  unfoldable pub start_stream : StreamConfig → Call t o ℕ
  start_stream config = do
    period_us ← check_config config
    clear_earlier config
    launch config period_us

  unfoldable pub end_stream : Driver Link → Driver Link
  end_stream d =
      if not d.streaming
      then d
      else (let (result, d') = send t o Request.stream_stop 0 0 d in
          record d' { streaming = false })
