-- ===== src/Protocol/Errors.antt =====
-- The exceptions of extras/driver/include/arduino_driver/Errors.h as values, and what may fail.
use arduino_driver.Prelude.{Bool, if◌then◌else◌}

-- A constructor for each class, and std::invalid_argument, which is no Error; the message text is left out.
pub data DriverError : Type 0 where
  usb_error stall_error timeout_error protocol_error invalid_pin invalid_mode not_supported :
      DriverError
  invalid_value queue_full device_busy not_ready device_not_found invalid_argument : DriverError

pub data Result {ℓ} (T : Type ℓ) : Type ℓ where
  err : DriverError → Result T
  ok : T → Result T

-- `if (!test) { throw e; }`
abbrev pub throw_unless : DriverError → Bool → Result (Unit {0})
throw_unless e test = if test then ok tt else err e

-- The statements after a call run if it did not throw.
abbrev pub ◌>>=◌ {ℓ κ} : {S : Type ℓ} {T : Type κ} → Result S → (S → Result T) → Result T
err e >>= next = err e
ok x >>= next = next x

abbrev pub ◌>>◌ {ℓ} : {T : Type ℓ} → Result (Unit {0}) → Result T → Result T
first >> next = first >>= λ done. next

infixl 4 ◌>>=◌ ◌>>◌
