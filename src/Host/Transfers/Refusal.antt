-- ===== src/Host/Transfers/Refusal.antt =====
-- send_out of extras/driver/src/Device.cpp against the device of src/UsbIo.cpp: what the host is told of a
-- request that the firmware refuses.
use arduino_driver.Prelude.{
  ℕ, ◌-◌, ◌≡◌, refl, ap, ◌∙◌, Bool, true, false, List, [], ◌∷◌, ◌++◌, length, replicate, ◌==◌,
  if◌then◌else◌, arith,
}
use arduino_driver.Protocol.Bytes.{read_u8}
use arduino_driver.Protocol.Errors.{
  DriverError, Result, ok, err, stall_error, protocol_error, invalid_pin, invalid_mode,
  not_supported, invalid_value, queue_full, device_busy,
}
use arduino_driver.Protocol.Request
use arduino_driver.Protocol.Request.{Request}
use arduino_driver.Protocol.Status
use arduino_driver.Firmware.Board.{Board}
use arduino_driver.Firmware.Out.{handle_out}
use arduino_driver.Firmware.Queue.{Outcome, queue_pending}
use arduino_driver.Firmware.Reply.{handle_in, dispatch_in, status_reply}
use arduino_driver.Firmware.Setup.{handle_setup, no_reply}
use arduino_driver.Firmware.State.{Device}
use arduino_driver.Host.Transfers.{
  Transport, send_out, after_out, raw_in, reason_of, throw_for_status,
}

-- What a transfer brings: a STALL, or the reply at the front of the buffer that the host cleared.
abbrev transferred : ℕ → Bool × List ℕ × Device → Result (ℕ × List ℕ) × Device
transferred len (accepted, reply, d) = (
  if accepted
      then ok (length reply, reply ++ replicate (len - length reply) 0)
      else err stall_error,
  d,
)

abbrev acknowledged : Bool × List ℕ × Device → Result (Unit {0}) × Device
acknowledged (accepted, reply, d) = (if accepted then ok tt else err stall_error, d)

-- A cable to the device: vendor requests to it, 0xC0 and 0x40, while no loop() runs.
abbrev pub usb : Board → ℕ → ℕ → Transport
usb b now_ms now_us = record {
  Link = Device;
  control_in =
      λ code index len d. transferred len (handle_setup b d 0xc0 code 0 index len now_ms now_us);
  control_out =
      λ code value index d. acknowledged (handle_setup b d 0x40 code value index 0 now_ms now_us);
  pause = λ d. d;
}

-- GET_STATUS gives the recorded error and clears it.
status-usb :
    (b : Board) (now_ms now_us : ℕ) (d : Device)
    → raw_in (usb b now_ms now_us) Request.get_status 0 4 d ≡ (
      ok (4, Status.ok ∷ queue_pending d ∷ d.last_error ∷ 0 ∷ []),
      record d { last_error = Status.ok },
    )
unfolding raw_in handle_setup handle_in dispatch_in status_reply Request.of_code
status-usb b now_ms now_us d = refl

out-usb :
    (b : Board) (now_ms now_us : ℕ) (d : Device) (code value index : ℕ)
    → handle_setup b d 0x40 code value index 0 now_ms now_us
      ≡ no_reply (handle_out b d code value index 0)
unfolding handle_setup
out-usb b now_ms now_us d code value index = refl

-- The host's view of an outcome.
abbrev pub told : Outcome → Result (Unit {0}) × Device
told (accepted, d) = if accepted then (ok tt, d) else (
  err (if d.last_error == Status.ok then stall_error else throw_for_status d.last_error),
  record d { last_error = Status.ok },
)

after_out-told :
    (b : Board) (now_ms now_us : ℕ) (out : Outcome)
    → let (result, d) = acknowledged (no_reply out) in
      after_out (usb b now_ms now_us) result d ≡ told out
unfolding after_out read_u8
after_out-told b now_ms now_us (true, d) = refl
after_out-told b now_ms now_us (false, d) =
    ap
      (λ (s : Result (ℕ × List ℕ) × Device).
        let r : Result (Unit {0}) × Device = (err (reason_of s.0), s.1) in r)
      (status-usb b now_ms now_us d)

pub send_out-told :
    (b : Board) (now_ms now_us : ℕ) (d : Device) (request : Request) (value index : ℕ)
    → send_out (usb b now_ms now_us) request value index d
      ≡ told (handle_out b d (Request.code request) value index 0)
unfolding send_out
send_out-told b now_ms now_us d request value index =
    ap
      (λ (s : Bool × List ℕ × Device).
        after_out (usb b now_ms now_us) (acknowledged s).0 (acknowledged s).1)
      (out-usb b now_ms now_us d (Request.code request) value index)
    ∙ after_out-told b now_ms now_us (handle_out b d (Request.code request) value index 0)

-- The classes of exceptions that Errors.h describes, by the codes of enum usbio_status: a pin that is not
-- there, a request that does not fit the mode, an unknown request, a missing capability, a full queue and a
-- value out of range. A device may also be busy.
abbrev pub documented : List (ℕ × DriverError)
documented =
    (1, device_busy)
    ∷ (2, invalid_pin)
    ∷ (3, invalid_mode)
    ∷ (4, protocol_error)
    ∷ (5, not_supported)
    ∷ (6, queue_full)
    ∷ (7, invalid_value)
    ∷ []

-- A code that is none is an answer that the protocol does not allow.
abbrev pub class_for : List (ℕ × DriverError) → ℕ → DriverError
class_for [] status = protocol_error
class_for ((code, e) ∷ codes) status = if status == code then e else class_for codes status

throw_for_status-documented : (status : ℕ) → throw_for_status status ≡ class_for documented status
unfolding throw_for_status
throw_for_status-documented status = ground arith

-- How a request ends for the host by the documents.
abbrev pub expected : Outcome → Result (Unit {0}) × Device
expected (true, d) = (ok tt, d)
expected (false, d) = (
  err (if d.last_error == 0 then stall_error else class_for documented d.last_error),
  record d { last_error = 0 },
)

told-expected : (out : Outcome) → told out ≡ expected out
told-expected (true, d) = refl
told-expected (false, d) = rw (throw_for_status-documented d.last_error) refl

-- A request that the host sends to a device ends as handle_out decides: it succeeds if the firmware accepts it,
-- with the device as the firmware leaves it. If not, the host throws the exception of the class that is
-- documented for the reason that the firmware recorded, ProtocolError for a code that is none and a bare
-- StallError if no reason is recorded, and the record is cleared.
pub send_out_lem :
    (b : Board) (now_ms now_us : ℕ) (d : Device) (request : Request) (value index : ℕ)
    → send_out (usb b now_ms now_us) request value index d
      ≡ expected (handle_out b d (Request.code request) value index 0)
send_out_lem b now_ms now_us d request value index =
    send_out-told b now_ms now_us d request value index
    ∙ told-expected (handle_out b d (Request.code request) value index 0)
