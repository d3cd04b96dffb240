-- ===== src/CApi/Errors.antt =====
-- The translation of exceptions in extras/c_api/src/errors.cpp and error_mapping.h: handle_exception and
-- adrv_guard.
pub mod Classes
use arduino_driver.Prelude.{
  ℕ, Bool, true, false, ◌&&◌, ◌||◌, Option, none, some, ◌==◌, if◌then◌else◌,
}
use arduino_driver.Protocol.Errors.{
  DriverError, usb_error, stall_error, timeout_error, protocol_error, invalid_pin, invalid_mode,
  not_supported, invalid_value, queue_full, device_busy, not_ready, device_not_found,
  invalid_argument, Result, ok, err,
}
use arduino_driver.Host.Driver.{Driver}
use arduino_driver.Host.Exec.{Exec}

-- adrv_status_t
pub data AdrvStatus : Type 0 where
  adrv_ok adrv_err_usb adrv_err_stall adrv_err_timeout adrv_err_protocol : AdrvStatus
  adrv_err_device_busy adrv_err_invalid_pin adrv_err_invalid_mode adrv_err_invalid_value :
      AdrvStatus
  adrv_err_not_supported adrv_err_queue_full adrv_err_not_ready : AdrvStatus
  adrv_err_device_not_found adrv_err_invalid_argument adrv_err_other : AdrvStatus

-- A number for each class.
unfoldable pub class_id : DriverError → ℕ
class_id usb_error = 0
class_id stall_error = 1
class_id timeout_error = 2
class_id protocol_error = 3
class_id device_busy = 4
class_id invalid_pin = 5
class_id invalid_mode = 6
class_id invalid_value = 7
class_id not_supported = 8
class_id queue_full = 9
class_id not_ready = 10
class_id device_not_found = 11
class_id invalid_argument = 12

-- StallError and TimeoutError derive from UsbError.
unfoldable pub derives_usb_error : DriverError → Bool
derives_usb_error stall_error = true
derives_usb_error timeout_error = true
derives_usb_error e = false

-- `dynamic_cast<const C *>(&e) != nullptr`, for the class of `c`.
unfoldable pub is_a : DriverError → DriverError → Bool
is_a c e = class_id c == class_id e || (class_id c == class_id usb_error && derives_usb_error e)

-- In the code's order.
unfoldable pub handle_exception : DriverError → AdrvStatus
handle_exception e =
    if is_a stall_error e
    then adrv_err_stall
    else if is_a timeout_error e
    then adrv_err_timeout
    else if is_a usb_error e
    then adrv_err_usb
    else if is_a protocol_error e
    then adrv_err_protocol
    else if is_a device_busy e
    then adrv_err_device_busy
    else if is_a invalid_pin e
    then adrv_err_invalid_pin
    else if is_a invalid_mode e
    then adrv_err_invalid_mode
    else if is_a invalid_value e
    then adrv_err_invalid_value
    else if is_a not_supported e
    then adrv_err_not_supported
    else if is_a queue_full e
    then adrv_err_queue_full
    else if is_a not_ready e
    then adrv_err_not_ready
    else if is_a device_not_found e
    then adrv_err_device_not_found
    else adrv_err_other

-- What the thread's last message is about.
pub data LastError : Type 0 where
  cleared : LastError
  thrown : DriverError → LastError
  null_argument : LastError

-- A handle, whose `device` is null for `none`, and the message of the thread that uses it.
pub record Session (Object : Type 0) : Type 0 where
  pub object : Option Object
  pub last_error : LastError

-- The status, the out-parameters if the call sets them, and what the call leaves.
abbrev pub Returned : Type 0 → Type 0 → Type 0
Returned Object A = (AdrvStatus × Option A) × Session Object

module _ {A : Type 0} where
  abbrev pub status_of : Result A → AdrvStatus
  status_of (ok a) = adrv_ok
  status_of (err invalid_argument) = adrv_err_other
  status_of (err e) = handle_exception e

  abbrev pub message_of : Result A → LastError
  message_of (ok a) = cleared
  message_of (err e) = thrown e

  abbrev pub out_of : Result A → Option A
  out_of (ok a) = some a
  out_of (err e) = none

module _ {Object A : Type 0} where
  -- adrv_guard, for a body that works on `object`.
  unfoldable pub adrv_guard : Exec Object A → Object → Session Object → Returned Object A
  adrv_guard body object s =
      let (result, object') = body object in
      (
        (status_of result, out_of result),
        record { object = some object'; last_error = message_of result },
      )

  unfoldable pub refuse : Session Object → Returned Object A
  refuse s = ((adrv_err_invalid_argument, none), record s { last_error = null_argument })

  -- An entry point: the test of its pointers, and then the guarded body.
  unfoldable pub entry : Bool → Exec Object A → Session Object → Returned Object A
  entry pointers body s = elim s.object [
    | none ↦ refuse s
    | some object ↦ if pointers then adrv_guard body object s else refuse s
  ]
