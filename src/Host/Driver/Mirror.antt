-- ===== src/Host/Driver/Mirror.antt =====
-- A Device of extras/driver/src/Device.cpp that is opened on the device of src/UsbIo.cpp: what the host knows
-- of it, and its transfers over a cable.
use arduino_driver.Prelude.{
  ℕ, zero, suc, ◌<◌, ◌≤◌, ◌≡◌, ap, List, [], ◌∷◌, if◌then◌else◌, length, get_or,
}
use arduino_driver.Protocol.Caps
use arduino_driver.Protocol.Errors.{Result}
use arduino_driver.Protocol.Features
use arduino_driver.Protocol.Layout.{Info}
use arduino_driver.Protocol.Request
use arduino_driver.Protocol.Request.{Request}
use arduino_driver.Firmware.Board.{Board}
use arduino_driver.Firmware.Out.{handle_out}
use arduino_driver.Firmware.Reply.{info_of}
use arduino_driver.Firmware.State.{Device, caps_of}
use arduino_driver.Host.Driver.{Driver, Options, send}
use arduino_driver.Host.Transfers.Refusal.{usb, told, send_out-told}

-- The pins with an analog input among `pin` to `pin + n - 1`.
abbrev pub ain_pins : Device → ℕ → ℕ → List ℕ
ain_pins d pin zero = []
ain_pins d pin (suc n) =
    let rest = ain_pins d (suc pin) n in
    if Caps.any_of (caps_of d pin) Caps.ain then pin ∷ rest else rest

-- The host has the device's GET_INFO and its capability bytes, at most 128 of them, and the device's flag for
-- pull-downs and its count of analog pins are right.
pub record IsMirror (b : Board) (d : Driver Device) : Type 0 where
  pub info : d.info ≡ info_of b d.link
  pub pins : length d.caps ≡ d.link.n_pins
  pub few : d.link.n_pins ≤ 128
  pub caps : (pin : ℕ) → pin < d.link.n_pins → get_or d.caps pin 0 ≡ caps_of d.link pin
  pub pulldown : Features.supports_pulldown d.info ≡ b.has_pulldown
  pub analog : length (ain_pins d.link 0 d.link.n_pins) ≡ d.link.n_ain
  pub nibbles : (pin : ℕ) → pin < d.link.n_pins → caps_of d.link pin < 16

-- What a request leaves in the object.
abbrev pub told_to : Driver Device → Result (Unit {0}) × Device → Result (Unit {0}) × Driver Device
told_to d (result, link) = (result, record d { link = link })

pub send-usb :
    (b : Board) (o : Options) (now_ms now_us : ℕ) (request : Request) (value index : ℕ)
    (d : Driver Device)
    → send (usb b now_ms now_us) o request value index d
      ≡ told_to d (told (handle_out b d.link (Request.code request) value index 0))
send-usb b o now_ms now_us request value index d =
    ap (told_to d) (send_out-told b now_ms now_us d.link request value index)

pub n_pins_known : (b : Board) (d : Driver Device) → IsMirror b d → d.info.n_pins ≡ d.link.n_pins
unfolding info_of
n_pins_known b d m = ap (λ (i : Info). i.n_pins) m.info

pub n_ain_known : (b : Board) (d : Driver Device) → IsMirror b d → d.info.n_ain ≡ d.link.n_ain
unfolding info_of
n_ain_known b d m = ap (λ (i : Info). i.n_ain) m.info
