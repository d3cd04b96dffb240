-- ===== src/Host/Driver/Pins/Samples.antt =====
-- Device::read_all_analog of extras/driver/src/Device.cpp and AI_READ_ALL of src/UsbIo.cpp.
use arduino_driver.Prelude.{
  ℕ, zero, suc, ◌+◌, ◌*◌, ◌/◌, ◌%◌, ◌-◌, ◌≡◌, refl, sym, ap, ap₂, ◌∙◌, false, List, [], ◌∷◌, ◌++◌,
  arith, ◌==◌, if◌then◌else◌, length, length-map, get_or, replicate, map, append_assoc, append-nil,
  u8, u16, Bool-cases, inl, inr,
}
use arduino_driver.Prelude.Loop.{for_range}
use arduino_driver.Protocol.Bytes.{put_u16, read_u8, read_u16le}
use arduino_driver.Protocol.Caps
use arduino_driver.Protocol.Errors.{ok}
use arduino_driver.Protocol.Mode
use arduino_driver.Protocol.Request
use arduino_driver.Protocol.Sizes.{ai_read_all_len}
use arduino_driver.Protocol.Status
use arduino_driver.Firmware.Board.{Board}
use arduino_driver.Firmware.Queue.{busy}
use arduino_driver.Firmware.Reply.{dispatch_in, append_sample, ai_all_reply, replied}
use arduino_driver.Firmware.State.{Device, caps_of, mode_of, ain_of}
use arduino_driver.Host.Driver.{Driver, Options, check_not_streaming}
use arduino_driver.Host.Driver.Mirror.{IsMirror, ain_pins, n_ain_known}
use arduino_driver.Host.Driver.Pins.{samples_from, read_all_analog}
use arduino_driver.Host.Driver.Steps.{idle-bind, read-bind}
use arduino_driver.Host.Transfers.Cable.{read-usb}
use arduino_driver.Host.Transfers.Refusal.{usb}

-- What AI_READ_ALL shows for an analog pin: 0 unless it is in its analog mode.
abbrev pub sample_of : Device → ℕ → ℕ
sample_of d pin = if mode_of d pin == Mode.analog_in then ain_of d pin else 0

-- uint16_t values as they travel.
abbrev words : List ℕ → List ℕ
words [] = []
words (v ∷ vs) = v % 256 ∷ u8 (v / 256) ∷ words vs

length-words : (vs : List ℕ) → length (words vs) ≡ 2 * length vs
length-words [] = refl
length-words (v ∷ vs) = omega (arith, length-words vs)

append_sample-words :
    (d : Device) (pin n : ℕ) (reply : List ℕ)
    → for_range pin n (append_sample d) reply
      ≡ reply ++ words (map (sample_of d) (ain_pins d pin n))
unfolding for_range append_sample
append_sample-words d pin zero reply = sym (append-nil reply)
append_sample-words d pin (suc n) reply = elim (Bool-cases (Caps.any_of (caps_of d pin) Caps.ain)) [
  | inl analog ↦
      rw (analog, append_sample-words d (suc pin) n (reply ++ put_u16 (sample_of d pin)))
        (append_assoc reply (put_u16 (sample_of d pin)) _)
  | inr other ↦ rw (other, append_sample-words d (suc pin) n reply) refl
]

-- The host's reading of the words behind a two-byte header.
samples_from-words :
    (a c : ℕ) (vs rest : List ℕ)
    → samples_from (a ∷ c ∷ (words vs ++ rest)) 0 (length vs) ≡ map u16 vs
unfolding samples_from read_u16le read_u8
samples_from-words a c [] rest = refl
samples_from-words a c (v ∷ vs) rest = ap₂ ◌∷◌ (omega arith) (
    shifted a c (words (v ∷ vs) ++ rest) 0 (length vs)
    ∙ samples_from-words (v % 256) (u8 (v / 256)) vs rest)
  where
    byte_after :
        (x y : ℕ) (xs : List ℕ) (i k j : ℕ)
        → j ≡ suc (suc k)
        → get_or (x ∷ y ∷ xs) j 0 ≡ get_or xs k 0
    byte_after x y xs i k j e = ap (λ (m : ℕ). get_or (x ∷ y ∷ xs) m 0) e

    shifted :
        (x y : ℕ) (xs : List ℕ) (i n : ℕ)
        → samples_from (x ∷ y ∷ xs) (suc i) n ≡ samples_from xs i n
    shifted x y xs i zero = refl
    shifted x y xs i (suc n) =
        ap₂ ◌∷◌
          (ap₂ (λ (lo hi : ℕ). lo + hi * 256) (byte_after x y xs i (2 + 2 * i) _ (omega arith))
            (byte_after x y xs i (2 + 2 * i + 1) _ (omega arith)))
          (shifted x y xs (suc i) n)

-- On an open device without a stream, whose commands have all run, read_all_analog returns one value for each
-- pin with an analog input, in ascending order of the pins: the device's sample of it, or 0 if the pin is not in its
-- analog mode. Neither the device nor the object changes.
pub read_all_analog_lem :
    (b : Board) (o : Options) (now_ms now_us : ℕ) (d : Driver Device)
    → IsMirror b d
    → d.streaming ≡ false
    → busy d.link ≡ false
    → let pins = ain_pins d.link 0 d.link.n_pins in
      read_all_analog (usb b now_ms now_us) o d ≡ (ok (map u16 (map (sample_of d.link) pins)), d)
unfolding read_all_analog check_not_streaming ai_read_all_len dispatch_in ai_all_reply
read_all_analog_lem b o now_ms now_us d m idle quiet =
    let values = map (sample_of d.link) (ain_pins d.link 0 d.link.n_pins) in
    let len = ai_read_all_len d.info.n_ain in
    let known = n_ain_known b d m in
    let counted : length values ≡ d.link.n_ain =
      length-map (ain_pins d.link 0 d.link.n_pins) (sample_of d.link) ∙ m.analog in
    let whole : suc (suc (length (words values))) ≡ len =
      omega (arith, length-words values, counted, known) in
    let pad : List ℕ = replicate (len - suc (suc (length (words values)))) 0 in
    idle-bind (usb b now_ms now_us) o d _ idle
    ∙ read-bind (usb b now_ms now_us) o d Request.ai_read_all 0 len len _ _ d.link (
        read-usb b now_ms now_us d.link d.link o.busy_max_attempts Request.ai_read_all 0 len len
          (0 ∷ words values)
          (ap (λ (reply : List ℕ). replied reply d.link)
            (append_sample-words d.link 0 d.link.n_pins (_ ∷ 0 ∷ []) ∙ rw quiet refl))
          (omega (arith, whole)) (omega (arith, whole)))
    ∙ ap (λ (k : ℕ). (ok (samples_from (Status.ok ∷ 0 ∷ (words values ++ pad)) 0 k), d))
        (known ∙ sym counted)
    ∙ ap (λ (vs : List ℕ). (ok vs, d)) (samples_from-words Status.ok 0 values pad)
