-- ===== src/CApi/Errors/Classes.antt =====
-- What a caller of the entry points in extras/c_api/src knows of the C++ call behind them.
use arduino_driver.Prelude.{◌≡◌, refl, true, ◌≢◌, Option, none, some}
use arduino_driver.Protocol.Errors.{
  DriverError, usb_error, stall_error, timeout_error, protocol_error, invalid_pin, invalid_mode,
  not_supported, invalid_value, queue_full, device_busy, not_ready, device_not_found,
  invalid_argument, Result, ok, err,
}
use arduino_driver.Host.Exec.{Exec}
use arduino_driver.CApi.Errors.{
  AdrvStatus, adrv_ok, adrv_err_usb, adrv_err_stall, adrv_err_timeout, adrv_err_protocol,
  adrv_err_device_busy, adrv_err_invalid_pin, adrv_err_invalid_mode, adrv_err_invalid_value,
  adrv_err_not_supported, adrv_err_queue_full, adrv_err_not_ready, adrv_err_device_not_found,
  Session, LastError, thrown, message_of, status_of, out_of, class_id, derives_usb_error, is_a,
  handle_exception, adrv_guard, entry,
}

-- The class that the documentation of adrv_status_t gives for a code.
abbrev pub class_of : AdrvStatus → Option DriverError
class_of adrv_err_usb = some usb_error
class_of adrv_err_stall = some stall_error
class_of adrv_err_timeout = some timeout_error
class_of adrv_err_protocol = some protocol_error
class_of adrv_err_device_busy = some device_busy
class_of adrv_err_invalid_pin = some invalid_pin
class_of adrv_err_invalid_mode = some invalid_mode
class_of adrv_err_invalid_value = some invalid_value
class_of adrv_err_not_supported = some not_supported
class_of adrv_err_queue_full = some queue_full
class_of adrv_err_not_ready = some not_ready
class_of adrv_err_device_not_found = some device_not_found
class_of status = none

module _ {A : Type 0} where
  -- The result that a caller reads off the status and the out-parameters.
  abbrev pub result_of : AdrvStatus → Option A → Option (Result A)
  result_of adrv_ok (some a) = some (ok a)
  result_of adrv_ok none = none
  result_of status out = elim (class_of status) [ none ↦ none | some e ↦ some (err e) ]

  result_of-status_of :
      (r : Result A) → r ≢ err invalid_argument → result_of (status_of r) (out_of r) ≡ some r
  unfolding handle_exception is_a class_id derives_usb_error
  result_of-status_of (ok a) h = refl
  result_of-status_of (err usb_error) h = refl
  result_of-status_of (err stall_error) h = refl
  result_of-status_of (err timeout_error) h = refl
  result_of-status_of (err protocol_error) h = refl
  result_of-status_of (err invalid_pin) h = refl
  result_of-status_of (err invalid_mode) h = refl
  result_of-status_of (err not_supported) h = refl
  result_of-status_of (err invalid_value) h = refl
  result_of-status_of (err queue_full) h = refl
  result_of-status_of (err device_busy) h = refl
  result_of-status_of (err not_ready) h = refl
  result_of-status_of (err device_not_found) h = refl
  result_of-status_of (err invalid_argument) h = absurd (h refl)

  -- After a call that threw, the message is that of its exception.
  abbrev pub IsReported : Result A → LastError → Type 0
  IsReported (ok a) message = Unit {0}
  IsReported (err e) message = message ≡ thrown e

  message_of-IsReported : (r : Result A) → IsReported r (message_of r)
  message_of-IsReported (ok a) = tt
  message_of-IsReported (err e) = refl

  -- Whatever the C++ call behind an entry point does on a handle that is not null, with the pointers that it
  -- needs: the handle has the object as the call leaves it; if the call throws, the thread's message is that of the
  -- exception; and the status with the out-parameters tells the call's result: the value, or the exception's own class and not a
  -- base of it. This holds for the exceptions of the driver, not for std::invalid_argument.
  pub entry_lem :
      {Object : Type 0} (body : Exec Object A) (object : Object) (message : LastError)
      → (body object).0 ≢ err invalid_argument
      → let (r, object') = body object in
        let s : Session Object = record { object = some object; last_error = message } in
        let ((status, out), after) = entry true body s in
        (result_of status out ≡ some r)
        × (after.object ≡ some object')
        × IsReported r after.last_error
  unfolding entry adrv_guard
  entry_lem body object message known =
      (result_of-status_of (body object).0 known, refl, message_of-IsReported (body object).0)
