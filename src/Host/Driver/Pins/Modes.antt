-- ===== src/Host/Driver/Pins/Modes.antt =====
-- Device::pin_mode of extras/driver/src/Device.cpp, down to handle_out of src/UsbIo.cpp.
use arduino_driver.Prelude.{
  ℕ, ◌<◌, ◌≡◌, Option, none, some, ap, refl, ◌∙◌, Bool, true, false, not, List, arith, leb,
  if◌then◌else◌, set, u8, length, get_or, Bool-cases, inl, inr,
}
use arduino_driver.Protocol.Caps
use arduino_driver.Protocol.Errors.{
  DriverError, Result, ok, err, invalid_pin, invalid_mode, not_supported, queue_full, device_busy,
}
use arduino_driver.Protocol.Features
use arduino_driver.Protocol.Mode
use arduino_driver.Protocol.Request
use arduino_driver.Firmware.Board.{Board}
use arduino_driver.Firmware.Modes.{mode_allowed}
use arduino_driver.Firmware.Modes.Host.{mode_allowed-eq-mode_supported}
use arduino_driver.Firmware.Out.{handle_out, dispatch_out, handle_pin_mode, record_intent}
use arduino_driver.Firmware.Queue.{stall, enqueue}
use arduino_driver.Firmware.Ring.{is_full}
use arduino_driver.Firmware.State.{Device, caps_of}
use arduino_driver.Host.Driver.{Driver, Options, send, pin_caps, check_not_streaming}
use arduino_driver.Host.Driver.Mirror.{IsMirror}
use arduino_driver.Host.Driver.Pins.{pin_mode}
use arduino_driver.Host.Exec.{Exec}
use arduino_driver.Host.Transfers.{Transport, throw_for_status}
use arduino_driver.Host.Transfers.Refusal.{usb, told, send_out-told}

-- What PIN_MODE brings when the pin and the mode are sound.
told-pin_mode :
    (b : Board) (d : Device) (pin mode : ℕ)
    → pin < d.n_pins
    → pin < 128
    → mode < 7
    → mode_allowed b (caps_of d pin) mode ≡ true
    → let (result, after) = told (handle_out b d (Request.code Request.pin_mode) mode pin 0) in
      (result ≡ (if is_full d.commands then err queue_full else ok tt))
      × (after.mode ≡ (if is_full d.commands then d.mode else set d.mode pin mode))
unfolding handle_out dispatch_out handle_pin_mode stall enqueue record_intent throw_for_status
    Request.of_code
told-pin_mode b d pin mode below small known allowed =
    let pin_byte : u8 pin ≡ pin = omega arith in
    let mode_byte : u8 mode ≡ mode = omega arith in
    let there : leb d.n_pins pin ≡ false = ground arith in
    let code : leb Mode.count mode ≡ false = ground arith in
    elim (Bool-cases (is_full d.commands)) [
      | inl full ↦ rw (there, pin_byte, code, mode_byte, allowed, full) (refl, refl)
      | inr room ↦ rw (there, pin_byte, code, mode_byte, allowed, room) (refl, refl)
    ]

-- The checks of pin_mode, as one test after the other.
pin_mode-checks :
    (t : Transport) (o : Options) (pin mode : ℕ) (d : Driver t.Link)
    → let caps = get_or d.caps pin 0 in
      pin_mode t o pin mode d ≡ (
        if d.streaming
        then (err device_busy, d)
        else if leb (length d.caps) pin
        then (err invalid_pin, d)
        else if leb Mode.count mode
        then (err invalid_mode, d)
        else if not (Caps.mode_supported mode caps (Features.supports_pulldown d.info))
        then (err not_supported, d)
        else send t o Request.pin_mode mode pin d)
unfolding pin_mode check_not_streaming pin_caps Caps.mode_supported
pin_mode-checks t o pin mode d = ground arith

-- What the firmware's rules say of a mode on a pin, whatever its state.
abbrev pub refusal : Board → Device → ℕ → ℕ → Option DriverError
refusal b d pin mode =
    if leb d.n_pins pin
    then some invalid_pin
    else if leb Mode.count mode
    then some invalid_mode
    else if not (mode_allowed b (caps_of d pin) mode)
    then some not_supported
    else none

-- How pin_mode ends.
abbrev pub answer_by : Bool → Option DriverError → Result (Unit {0})
answer_by full (some e) = err e
answer_by full none = if full then err queue_full else ok tt

abbrev pub answer : Board → Device → ℕ → ℕ → Result (Unit {0})
answer b d pin mode = answer_by (is_full d.commands) (refusal b d pin mode)

-- The object with another transport behind it.
abbrev pub over : {Link Other : Type 0} → Driver Link → Other → Driver Other
over d link = record {
  info = d.info;
  caps = d.caps;
  analog_pins = d.analog_pins;
  streaming = d.streaming;
  selected = d.selected;
  link = link;
}

-- A refusal ends the call where it is; without one the request goes out.
abbrev pub sent_unless : Option DriverError → {S : Type 0} → Exec S (Unit {0}) → Exec S (Unit {0})
sent_unless (some e) call s = (err e, s)
sent_unless none call s = call s

-- The modes that the firmware is left with.
abbrev pub modes_after : Result (Unit {0}) → List ℕ → ℕ → ℕ → List ℕ
modes_after (err e) modes pin mode = modes
modes_after (ok done) modes pin mode = set modes pin mode

by_room :
    (full : Bool) (modes : List ℕ) (pin mode : ℕ)
    → (if full then modes else set modes pin mode)
      ≡ modes_after (if full then err queue_full else ok tt) modes pin mode
by_room true modes pin mode = refl
by_room false modes pin mode = refl

module _ (b : Board) (o : Options) (pin mode : ℕ) (d : Driver Device) (m : IsMirror b d)
    (idle : d.streaming ≡ false) where
  pin_mode-sent_unless :
      (t : Transport) (link : t.Link)
      → pin_mode t o pin mode (over d link)
        ≡ sent_unless (refusal b d.link pin mode) (send t o Request.pin_mode mode pin) (over d link)
  pin_mode-sent_unless t link =
      let allowed = λ (below : pin < d.link.n_pins).
        mode_allowed-eq-mode_supported b (caps_of d.link pin) mode (m.nibbles pin below) in
      rw (pin_mode-checks t o pin mode (over d link), idle, m.pins, m.pulldown)
        (elim (Bool-cases (leb d.link.n_pins pin)) [
          | inl outside ↦ rw outside refl
          | inr inside ↦
              let below : pin < d.link.n_pins = ground arith in
              rw (inside, m.caps pin below)
                (elim (Bool-cases (leb Mode.count mode)) [
                  | inl unknown ↦ rw unknown refl
                  | inr known ↦
                      rw (known, allowed below)
                        (elim (Bool-cases
                          (Caps.mode_supported mode (caps_of d.link pin) b.has_pulldown)) [
                            | inr refused ↦ rw refused refl
                            | inl supported ↦ rw supported refl
                          ])
                ])
        ])

  -- Without a refusal the firmware has the pin and allows the mode.
  pin_mode-goes_out :
      (now_ms now_us : ℕ)
      → refusal b d.link pin mode ≡ none
      → let full = is_full d.link.commands in
        let (result, after) = send (usb b now_ms now_us) o Request.pin_mode mode pin d in
        (result ≡ answer_by full none)
        × (after.link.mode ≡ modes_after (answer_by full none) d.link.mode pin mode)
  pin_mode-goes_out now_ms now_us allowed =
      let below : pin < d.link.n_pins = ground arith in
      let known : mode < 7 = ground arith in
      let fits : mode_allowed b (caps_of d.link pin) mode ≡ true = ground arith in
      let sent = told-pin_mode b d.link pin mode below (omega (arith, m.few)) known fits in
      rw (send_out-told b now_ms now_us d.link Request.pin_mode mode pin)
        (sent.0, sent.1 ∙ by_room (is_full d.link.commands) d.link.mode pin mode)

  by_refusal :
      (now_ms now_us : ℕ) (r : Option DriverError)
      → refusal b d.link pin mode ≡ r
      → let full = is_full d.link.commands in
        let (result, after) =
          sent_unless r (send (usb b now_ms now_us) o Request.pin_mode mode pin) d in
        (result ≡ answer_by full r)
        × (after.link.mode ≡ modes_after (answer_by full r) d.link.mode pin mode)
  by_refusal now_ms now_us (some e) found = (refl, refl)
  by_refusal now_ms now_us none found = pin_mode-goes_out now_ms now_us found

  -- On an open device without a stream, pin_mode ends as the firmware's own rules say, in this order: invalid_pin
  -- for a pin that the device has not, invalid_mode for a code that is no mode, not_supported for a mode that
  -- the firmware does not allow on the pin, and queue_full if 32 commands wait. Otherwise it succeeds. The
  -- firmware's mode of the pin is then the one that was asked for; in every other case all modes stay. The
  -- first three are found by the host: over any transport pin_mode is then the exception with the object and the link
  -- as they were, and for every other pin and mode it is the request PIN_MODE and nothing else.
  pub pin_mode_lem :
      (now_ms now_us : ℕ) (t : Transport) (link : t.Link)
      → let (result, after) = pin_mode (usb b now_ms now_us) o pin mode d in
        (result ≡ answer b d.link pin mode)
        × (after.link.mode ≡ modes_after (answer b d.link pin mode) d.link.mode pin mode)
        × (pin_mode t o pin mode (over d link)
            ≡ sent_unless
                (refusal b d.link pin mode)
                (send t o Request.pin_mode mode pin)
                (over d link))
  pin_mode_lem now_ms now_us t link =
      let ends = by_refusal now_ms now_us (refusal b d.link pin mode) refl in
      let same = pin_mode-sent_unless (usb b now_ms now_us) d.link in
      (
        ap (λ (s : Result (Unit {0}) × Driver Device). s.0) same ∙ ends.0,
        ap (λ (s : Result (Unit {0}) × Driver Device). s.1.link.mode) same ∙ ends.1,
        pin_mode-sent_unless t link,
      )
