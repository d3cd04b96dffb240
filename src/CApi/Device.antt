-- ===== src/CApi/Device.antt =====
-- The entry points of extras/c_api/src/device.cpp on an open device. Those in volts and fractions, which
-- pass doubles on, the opening and the closing are left out.
use arduino_driver.Prelude.{
  ℕ, Bool, true, Option, none, some, List, take, length, min, ltb, if◌then◌else◌, [],
}
use arduino_driver.Protocol.Layout.{Info}
use arduino_driver.Protocol.Mode
use arduino_driver.Host.Driver.{Driver, Options}
use arduino_driver.Host.Driver.Pins
use arduino_driver.Host.Exec.{pure, ◌>>=◌}
use arduino_driver.Host.Transfers.{Transport}
use arduino_driver.CApi.Errors.{Session, Returned, adrv_ok, refuse, entry}

-- The seven enumerators of adrv_pin_mode_t have the codes of PinMode; another value is Input.
unfoldable pub to_cpp_pin_mode : ℕ → ℕ
to_cpp_pin_mode mode = if ltb mode Mode.count then mode else Mode.input

-- What fits of a result into `out[0 .. out_len - 1]`; `has_out` is false for a null `out`.
unfoldable pub copy_out : {A : Type 0} → Bool → ℕ → List A → List A
copy_out has_out out_len values = if has_out then take (min out_len (length values)) values else []

-- The values that a call writes into an array, and `*n_written`.
pub record Copied (A : Type 0) : Type 0 where
  pub written : List A
  pub n_written : ℕ

abbrev pub copied : {A : Type 0} → Bool → ℕ → List A → Copied A
copied has_out out_len values = record {
  written = copy_out has_out out_len values;
  n_written = length values;
}

-- An entry point that only looks at the object.
unfoldable pub inspect :
    {Object A : Type 0} → Bool → (Object → A) → Session Object → Returned Object A
inspect has_out look s = elim s.object [
  | none ↦ refuse s
  | some object ↦ if has_out then ((adrv_ok, some (look object)), s) else refuse s
]

module _ (t : Transport) (o : Options) where
  open t use {Link}

  abbrev pub Entry : Type 0 → Type 0
  Entry A = Session (Driver Link) → Returned (Driver Link) A

  unfoldable pub adrv_device_get_info : Bool → Entry Info
  adrv_device_get_info has_out = inspect has_out (λ d. d.info)

  unfoldable pub adrv_pin_count : Session (Driver Link) → ℕ
  adrv_pin_count s = elim s.object [ none ↦ 0 | some d ↦ length d.caps ]

  unfoldable pub adrv_pin_mode : ℕ → ℕ → Entry (Unit {0})
  adrv_pin_mode pin mode = entry true (Pins.pin_mode t o pin (to_cpp_pin_mode mode))

  unfoldable pub adrv_digital_write : ℕ → Bool → Entry (Unit {0})
  adrv_digital_write pin high = entry true (Pins.digital_write t o pin high)

  unfoldable pub adrv_digital_read : Bool → ℕ → Entry Bool
  adrv_digital_read has_out pin = entry has_out (Pins.digital_read t o pin)

  unfoldable pub adrv_read_all_digital : Bool → ℕ → Entry (Copied Bool)
  adrv_read_all_digital has_out out_len =
      entry true (Pins.read_all_digital t o >>= λ bits. pure (copied has_out out_len bits))

  unfoldable pub adrv_analog_read : Bool → ℕ → Entry ℕ
  adrv_analog_read has_out pin = entry has_out (Pins.analog_read t o pin)

  unfoldable pub adrv_read_all_analog : Bool → ℕ → Entry (Copied ℕ)
  adrv_read_all_analog has_out out_len =
      entry true (Pins.read_all_analog t o >>= λ samples. pure (copied has_out out_len samples))

  unfoldable pub adrv_pwm_write : ℕ → ℕ → Entry (Unit {0})
  adrv_pwm_write pin duty = entry true (Pins.pwm_write t o pin duty)

  unfoldable pub adrv_dac_write : ℕ → ℕ → Entry (Unit {0})
  adrv_dac_write pin value = entry true (Pins.dac_write t o pin value)

  -- The recorded error and the pending commands, each if there is a place for it.
  unfoldable pub adrv_device_status : Bool → Bool → Entry (Option ℕ × Option ℕ)
  adrv_device_status has_error has_pending = entry true (
      Pins.status t o >>= λ reply.
      pure
        (if has_error then some (reply.0) else none, if has_pending then some (reply.1) else none))

  unfoldable pub adrv_sync : Entry (Unit {0})
  adrv_sync = entry true (Pins.sync t o)

  unfoldable pub adrv_reset : Entry (Unit {0})
  adrv_reset = entry true (Pins.reset t o)
