-- ===== src/Host/Driver/Open/Handshake.antt =====
-- The constructor of Device in extras/driver/src/Device.cpp against a device of src/UsbIo.cpp that has begun.
use arduino_driver.Prelude.{
  ℕ, zero, suc, ◌-◌, ◌^◌, ◌<◌, ◌≤◌, ◌≡◌, refl, ap, ◌∙◌, true, false, ◌||◌, not, List, [], arith,
  ◌==◌, leb, ltb, if◌then◌else◌, length, length-take, max, take,
}
use arduino_driver.Protocol.Caps
use arduino_driver.Protocol.Decode.{decode_info}
use arduino_driver.Protocol.Decode.Wire.{decode_info-info_bytes}
use arduino_driver.Protocol.Errors.{Result, ok, err, not_ready, protocol_error}
use arduino_driver.Protocol.Features
use arduino_driver.Protocol.Layout
use arduino_driver.Protocol.Layout.{Info}
use arduino_driver.Protocol.Limit
use arduino_driver.Protocol.Request
use arduino_driver.Firmware.Board.{Board, IsSound}
use arduino_driver.Firmware.Reply.{info_of, dispatch_in, replied}
use arduino_driver.Firmware.Reply.Identity.{info_of-FitsInfo}
use arduino_driver.Firmware.State.{Device, caps_of}
use arduino_driver.Host.Driver.{Driver, Options}
use arduino_driver.Host.Driver.Mirror.{IsMirror, ain_pins}
use arduino_driver.Host.Driver.Open.{
  blank, fetch_info, await_pins, load_info, load_caps, open_device, analog_from,
}
use arduino_driver.Host.Driver.Open.Table.{
  cap_bytes, length-cap_bytes, get_or-cap_bytes, pin_caps_reply-take, caps_read,
  analog_from-ain_pins,
}
use arduino_driver.Host.Driver.Steps.{raw-bind, lift-bind}
use arduino_driver.Host.Exec.{continue, require, ◌>>◌}
use arduino_driver.Host.Transfers.Cable.{raw-usb}
use arduino_driver.Host.Transfers.Refusal.{usb}

-- A device whose sketch has called begin().
pub record IsBegun (b : Board) (f : Device) : Type 0 where
  pub sound : IsSound b
  pub flags : f.flags < 2 ^ 16
  pub some_pins : 0 < f.n_pins
  pub few : f.n_pins ≤ 128
  pub room : f.n_pins ≤ length f.caps
  pub few_ain : f.n_ain ≤ 32
  pub analog : length (ain_pins f 0 f.n_pins) ≡ f.n_ain
  pub nibbles : (pin : ℕ) → caps_of f pin < 16
  pub pulldown : Caps.any_of f.flags 2 ≡ b.has_pulldown

ain_pins-le : (f : Device) (pin n : ℕ) → length (ain_pins f pin n) ≤ n
ain_pins-le f pin zero = omega arith
ain_pins-le f pin (suc n) = ground (arith, ain_pins-le f (suc pin) n)

module _ (b : Board) (o : Options) (now_ms now_us : ℕ) where
  fetch_info-usb :
      (d : Driver Device)
      → IsBegun b d.link
      → let info = info_of b d.link in
        fetch_info (usb b now_ms now_us) o d ≡ (ok info, record d { info = info })
  unfolding fetch_info dispatch_in Layout.info_bytes info_of
  fetch_info-usb d begun =
      let info = info_of b d.link in
      raw-bind (usb b now_ms now_us) o d Request.get_info 0 Limit.info_len _ _ d.link (
        raw-usb b now_ms now_us d.link d.link Request.get_info 0 Limit.info_len
          (Layout.info_bytes info) refl (omega arith))
      ∙ lift-bind (decode_info (Layout.info_bytes info)) _ info d
          (decode_info-info_bytes info (info_of-FitsInfo b d.link begun.sound begun.flags))

  -- What a round of await_pins does with what it fetched.
  abbrev after_fetch : ℕ → Driver Device → Result Info → Result Info × Driver Device
  after_fetch more d (err e) = (err e, d)
  after_fetch more d (ok info) =
      if not (info.n_pins == 0)
      then (ok info, d)
      else if more == 0
      then (err not_ready, d)
      else await_pins (usb b now_ms now_us) o more d

  one_round :
      (more : ℕ) (d : Driver Device)
      → await_pins (usb b now_ms now_us) o (suc more) d
        ≡ (let (result, d') = fetch_info (usb b now_ms now_us) o d in after_fetch more d' result)
  unfolding await_pins
  one_round more d = refl

  -- The device reports its pins, so the first round is the last.
  await_pins-usb :
      (d : Driver Device) (rounds : ℕ)
      → IsBegun b d.link
      → let info = info_of b d.link in
        await_pins (usb b now_ms now_us) o (max 1 rounds) d ≡ (ok info, record d { info = info })
  unfolding info_of
  await_pins-usb d rounds begun =
      let more : max 1 rounds ≡ suc (max 1 rounds - 1) = omega arith in
      let reported : (d.link.n_pins == 0) ≡ false = ground (arith, begun.some_pins) in
      ap (λ (k : ℕ). await_pins (usb b now_ms now_us) o k d) more
      ∙ one_round (max 1 rounds - 1) d
      ∙ ap (λ (s : Result Info × Driver Device). after_fetch (max 1 rounds - 1) (s.1) (s.0))
          (fetch_info-usb d begun)
      ∙ rw reported refl

  load_info-usb :
      (f : Device)
      → IsBegun b f
      → load_info (usb b now_ms now_us) o (blank f)
        ≡ (ok tt, record (blank f) { info = info_of b f })
  unfolding load_info info_of
  load_info-usb f begun =
      let pins : leb f.n_pins Limit.max_pins ≡ true = ground (arith, begun.few) in
      let analog : not (ltb Limit.max_ain f.n_ain || ltb f.n_pins f.n_ain) ≡ true =
        ground (arith, begun.few_ain, begun.analog, ain_pins-le f 0 f.n_pins) in
      ap
        (λ (s : Result Info × Driver Device).
          continue
            (λ (info : Info).
              require protocol_error (leb info.n_pins Limit.max_pins)
              >> require protocol_error
                  (not (ltb Limit.max_ain info.n_ain || ltb info.n_pins info.n_ain)))
            (s.0) (s.1))
        (await_pins-usb (blank f) o.ready_max_attempts begun)
      ∙ rw (pins, analog) refl

  -- The object after the handshake.
  abbrev opened : Device → Driver Device
  opened f = record (blank f) {
    info = info_of b f;
    caps = cap_bytes f 0 f.n_pins;
    analog_pins = ain_pins f 0 f.n_pins;
  }

  load_caps-usb :
      (f : Device)
      → IsBegun b f
      → load_caps (usb b now_ms now_us) o (record (blank f) { info = info_of b f })
        ≡ (ok tt, opened f)
  unfolding load_caps info_of dispatch_in
  load_caps-usb f begun =
      let bytes = take f.n_pins f.caps in
      let whole : length bytes ≡ f.n_pins =
        omega (arith, length-take f.n_pins f.caps, begun.room) in
      let enough : leb f.n_pins (length bytes) ≡ true = ground (arith, whole) in
      let counted : (length (ain_pins f 0 f.n_pins) == f.n_ain) ≡ true =
        ground (arith, begun.analog) in
      let analog : analog_from 0 (cap_bytes f 0 f.n_pins) ≡ ain_pins f 0 f.n_pins =
        analog_from-ain_pins f 0 f.n_pins (λ i. omega (arith, begun.nibbles i)) in
      raw-bind (usb b now_ms now_us) o (record (blank f) { info = info_of b f })
        Request.get_pin_caps 0 f.n_pins _ _ f
        (raw-usb b now_ms now_us f f Request.get_pin_caps 0 f.n_pins bytes
          (ap (λ (reply : List ℕ). replied reply f) (pin_caps_reply-take f begun.some_pins))
          (omega (arith, whole)))
      ∙ rw (enough, caps_read f begun.room, analog, counted) refl

  opened-IsMirror : (f : Device) → IsBegun b f → IsMirror b (opened f)
  unfolding info_of Features.supports_pulldown
  opened-IsMirror f begun = record {
    info = refl;
    pins = length-cap_bytes f 0 f.n_pins;
    few = begun.few;
    caps = λ pin below. get_or-cap_bytes f 0 f.n_pins pin below ∙ ap (caps_of f) (omega arith);
    pulldown = begun.pulldown;
    analog = begun.analog;
    nibbles = λ pin below. begun.nibbles pin;
  }

  -- Opening a device whose sketch has called begin() succeeds on the first GET_INFO, and leaves the device as it
  -- was. The object then has the device's own GET_INFO, the capability byte of each pin, the
  -- analog pins in ascending order, no stream and no selection.
  pub open_device_lem :
      (f : Device)
      → IsBegun b f
      → let (result, d) = open_device (usb b now_ms now_us) o f in
        (result ≡ ok tt)
        × IsMirror b d
        × (d.analog_pins ≡ ain_pins f 0 f.n_pins)
        × (d.link ≡ f)
        × (d.streaming ≡ false)
        × (d.selected ≡ [])
  unfolding open_device
  open_device_lem f begun =
      let whole : open_device (usb b now_ms now_us) o f ≡ (ok tt, opened f) =
        ap
          (λ (s : Result (Unit {0}) × Driver Device).
            continue (λ done. load_caps (usb b now_ms now_us) o) (s.0) (s.1))
          (load_info-usb f begun)
        ∙ load_caps-usb f begun in
      rw whole (refl, opened-IsMirror f begun, refl, refl, refl, refl)
