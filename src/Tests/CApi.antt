-- ===== src/Tests/CApi.antt =====
-- An entry point of the C interface on the device of Fixtures.
use arduino_driver.Prelude.{◌≡◌, ◌≢◌, refl, sym, ◌∙◌, true, some, arith}
use arduino_driver.Protocol.Caps
use arduino_driver.Protocol.Errors.{Result, err, not_supported, invalid_argument}
use arduino_driver.Protocol.Mode
use arduino_driver.Host.Driver.{Driver, check_not_streaming, pin_caps}
use arduino_driver.Host.Driver.Pins.{pin_mode}
use arduino_driver.Host.Transfers.Refusal.{usb}
use arduino_driver.CApi.Errors.{cleared, entry}
use arduino_driver.CApi.Errors.Classes.{result_of, IsReported, entry_lem}
use arduino_driver.Firmware.State.{Device}
use arduino_driver.Tests.Driver.{options, driver}
use arduino_driver.Tests.Fixtures.{board}

-- Pin 0 has no PWM.
abbrev pwm_on_0 : Result (Unit {0}) × Driver Device
pwm_on_0 = pin_mode (usb board 5 5000) options 0 Mode.pwm driver

refused : pwm_on_0.0 ≡ err not_supported
unfolding pin_mode check_not_streaming pin_caps Caps.has Caps.required_caps
refused = refl

not_the_one : let thrown : Result (Unit {0}) = err not_supported in thrown ≢ err invalid_argument
not_the_one e = ground arith

entry_lem_example :
    let ((status, out), after) =
      entry true
        (pin_mode (usb board 5 5000) options 0 Mode.pwm)
        (record { object = some driver; last_error = cleared }) in
    (result_of status out ≡ some (pwm_on_0.0))
    × (after.object ≡ some (pwm_on_0.1))
    × IsReported (pwm_on_0.0) after.last_error
entry_lem_example =
    entry_lem (pin_mode (usb board 5 5000) options 0 Mode.pwm) driver cleared
      (λ e. not_the_one (sym refused ∙ e))
