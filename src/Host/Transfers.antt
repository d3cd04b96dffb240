-- ===== src/Host/Transfers.antt =====
-- The control transfers of extras/driver/src/Device.cpp: raw_in, read_in, send_out and throw_for_status,
-- over the Transport of Transport.h as a parameter. The texts of the exceptions are left out.
pub mod Refusal
pub mod Retry
pub mod Cable
use arduino_driver.Prelude.{ℕ, zero, suc, List, not, ltb, ◌==◌, if◌then◌else◌, max}
use arduino_driver.Protocol.Bytes.{read_u8}
use arduino_driver.Protocol.Errors.{
  DriverError, Result, ok, err, protocol_error, stall_error, invalid_pin, invalid_mode,
  not_supported, invalid_value, queue_full, device_busy,
}
use arduino_driver.Protocol.Limit
use arduino_driver.Protocol.Request
use arduino_driver.Protocol.Request.{Request}
use arduino_driver.Protocol.Status

-- A transport and what is at its other end. `control_in` returns the number of bytes that the transfer moved
-- and the buffer after it; `pause` lets time go by.
pub record Transport : Type 1 where
  pub Link : Type 0
  pub control_in : ℕ → ℕ → ℕ → Link → Result (ℕ × List ℕ) × Link
  pub control_out : ℕ → ℕ → ℕ → Link → Result (Unit {0}) × Link
  pub pause : Link → Link

-- The exception for a status; OK and a code that is none are a ProtocolError.
unfoldable pub throw_for_status : ℕ → DriverError
throw_for_status status =
    if status == Status.bad_pin
    then invalid_pin
    else if status == Status.bad_mode
    then invalid_mode
    else if status == Status.unsupported
    then not_supported
    else if status == Status.bad_value
    then invalid_value
    else if status == Status.queue_full
    then queue_full
    else if status == Status.busy
    then device_busy
    else protocol_error

-- More bytes than were asked for are an error.
abbrev pub within_request : ℕ → Result (ℕ × List ℕ) → Result (ℕ × List ℕ)
within_request asked (err e) = err e
within_request asked (ok (n, reply)) = if ltb asked n then err protocol_error else ok (n, reply)

-- What one reply of a read means: a result, an exception, or a device that is busy.
pub data Reading : Type 0 where
  done : Result (ℕ × List ℕ) → Reading
  again : Reading

abbrev pub judge : ℕ → Result (ℕ × List ℕ) → Reading
judge min_len (err e) = done (err e)
judge min_len (ok (n, reply)) =
    let status = read_u8 reply 0 in
    if n == 0
    then done (err protocol_error)
    else if status == Status.busy
    then again
    else if not (status == Status.ok)
    then done (err (throw_for_status status))
    else if ltb n min_len
    then done (err protocol_error)
    else done (ok (n, reply))

-- The reason that GET_STATUS gives for a STALL.
abbrev pub reason_of : Result (ℕ × List ℕ) → DriverError
reason_of (err e) = e
reason_of (ok (n, reply)) =
    if ltb n Limit.status_reply_len
    then protocol_error
    else if read_u8 reply 2 == Status.ok
    then stall_error
    else throw_for_status (read_u8 reply 2)

module _ (t : Transport) where
  open t use {Link}

  unfoldable pub raw_in : Request → ℕ → ℕ → Link → Result (ℕ × List ℕ) × Link
  raw_in request index len link =
      let (result, link') = t.control_in (Request.code request) index len link in
      (within_request len result, link')

  -- `attempts` rounds at most; the last one does not wait.
  unfoldable pub read_loop : ℕ → Request → ℕ → ℕ → ℕ → Link → Result (ℕ × List ℕ) × Link
  read_loop zero request index len min_len link = (err device_busy, link)
  read_loop (suc more) request index len min_len link =
      let (result, link') = raw_in request index len link in
      elim (judge min_len result) [
        | done outcome ↦ (outcome, link')
        | again ↦
            (if more == 0
              then (err device_busy, link')
              else read_loop more request index len min_len (t.pause link'))
      ]

  -- `max(1u, busy_max_attempts)`
  unfoldable pub read_in : ℕ → Request → ℕ → ℕ → ℕ → Link → Result (ℕ × List ℕ) × Link
  read_in busy_max_attempts = read_loop (max 1 busy_max_attempts)

  -- What follows the OUT transfer: only a STALL is looked into.
  unfoldable pub after_out : Result (Unit {0}) → Link → Result (Unit {0}) × Link
  after_out (err stall_error) link =
      let (status, link') = raw_in Request.get_status 0 Limit.status_reply_len link in
      (err (reason_of status), link')
  after_out result link = (result, link)

  unfoldable pub send_out : Request → ℕ → ℕ → Link → Result (Unit {0}) × Link
  send_out request value index link =
      let (result, link') = t.control_out (Request.code request) value index link in
      after_out result link'
