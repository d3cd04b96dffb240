-- ===== src/Host/Driver/Pins/Levels.antt =====
-- Device::read_all_digital of extras/driver/src/Device.cpp and DIO_READ_ALL of src/UsbIo.cpp.
use arduino_driver.Prelude.{
  ℕ, zero, suc, ◌+◌, ◌/◌, ◌%◌, ◌^◌, ◌-◌, ◌<◌, ◌≤◌, ◌≡◌, refl, ap, ap₂, ◌∙◌, Bool, true, false, not,
  List, [], ◌∷◌, ◌++◌, arith, ◌==◌, if◌then◌else◌, length, get_or, replicate,
}
use arduino_driver.Protocol.Bytes.{read_u8}
use arduino_driver.Protocol.Errors.{ok}
use arduino_driver.Protocol.Limit
use arduino_driver.Protocol.Request
use arduino_driver.Protocol.Sizes.{dio_bitmap_len, dio_read_all_len}
use arduino_driver.Protocol.Status
use arduino_driver.Firmware.Board.{Board}
use arduino_driver.Firmware.Queue.{busy}
use arduino_driver.Firmware.Reply.{dispatch_in, dio_all_reply, dio_bitmap, reads_high}
use arduino_driver.Firmware.Reply.Bitmap.{dio_bitmap_lem, length-dio_bitmap}
use arduino_driver.Firmware.State.{Device}
use arduino_driver.Host.Driver.{Driver, Options, check_not_streaming}
use arduino_driver.Host.Driver.Mirror.{IsMirror, n_pins_known}
use arduino_driver.Host.Driver.Steps.{idle-bind, read-bind}
use arduino_driver.Host.Driver.Pins.{level_at, levels_from, read_all_digital}
use arduino_driver.Host.Transfers.Cable.{padded, read-usb}
use arduino_driver.Host.Transfers.Refusal.{usb}

-- The levels of the pins `pin` to `pin + n - 1`.
abbrev pub levels : Device → ℕ → ℕ → List Bool
levels d pin zero = []
levels d pin (suc n) = reads_high d pin ∷ levels d (suc pin) n

pub get_or-append :
    (xs ys : List ℕ) (i x : ℕ) → i < length xs → get_or (xs ++ ys) i x ≡ get_or xs i x
get_or-append [] ys i x h = absurd (omega arith)
get_or-append (y ∷ xs) ys zero x h = refl
get_or-append (y ∷ xs) ys (suc i) x h = get_or-append xs ys i x (omega arith)

-- A byte behind the two of the header.
pub get_or-header :
    (a c : ℕ) (xs : List ℕ) (i : ℕ)
    → get_or (a ∷ c ∷ xs) (Limit.all_header_len + i) 0 ≡ get_or xs i 0
get_or-header a c xs i =
    ap (λ (k : ℕ). get_or (a ∷ c ∷ xs) k 0) (let e : 2 + i ≡ suc (suc i) = omega arith in e)

-- The host's test of a pin in the reply.
level_at-reply :
    (d : Device) (len status pin : ℕ)
    → pin < d.n_pins
    → level_at (padded len (status ∷ 0 ∷ dio_bitmap d)) pin ≡ reads_high d pin
unfolding read_u8 dio_bitmap_len
level_at-reply d len status pin below =
    let bit = dio_bitmap_lem d pin below in
    let inside : pin / 8 < length (dio_bitmap d) = omega (arith, bit.1) in
    let bitmap = dio_bitmap d in
    let rest = replicate (len - suc (suc (length bitmap))) 0 in
    ap (λ (x : ℕ). not (x / 2 ^ (pin % 8) % 2 == 0))
      (get_or-header status 0 (bitmap ++ rest) (pin / 8)
        ∙ get_or-append bitmap rest (pin / 8) 0 inside)
    ∙ ap (λ (x : ℕ). not (x == 0)) bit.0
    ∙ high_or_low (reads_high d pin)
  where
    high_or_low : (high : Bool) → not ((if high then 1 else 0) == 0) ≡ high
    high_or_low true = refl
    high_or_low false = refl

levels_from-reply :
    (d : Device) (len status pin n : ℕ)
    → pin + n ≤ d.n_pins
    → levels_from (padded len (status ∷ 0 ∷ dio_bitmap d)) pin n ≡ levels d pin n
unfolding levels_from
levels_from-reply d len status pin zero h = refl
levels_from-reply d len status pin (suc n) h =
    ap₂ ◌∷◌ (level_at-reply d len status pin (omega arith))
      (levels_from-reply d len status (suc pin) n (omega arith))

-- On an open device without a stream, whose commands have all run, read_all_digital returns one level for each
-- pin, in the order of the pins: true exactly for a pin that is meant to be digital and that the device's shadow shows high. Neither
-- the device nor the object changes.
pub read_all_digital_lem :
    (b : Board) (o : Options) (now_ms now_us : ℕ) (d : Driver Device)
    → IsMirror b d
    → d.streaming ≡ false
    → busy d.link ≡ false
    → read_all_digital (usb b now_ms now_us) o d ≡ (ok (levels d.link 0 d.link.n_pins), d)
unfolding read_all_digital check_not_streaming dio_read_all_len dispatch_in dio_all_reply
read_all_digital_lem b o now_ms now_us d m idle quiet =
    let n = d.link.n_pins in
    let len = dio_read_all_len d.info.n_pins in
    let bitmap = dio_bitmap d.link in
    let known = n_pins_known b d m in
    let whole : suc (suc (length bitmap)) ≡ len =
      omega (arith, length-dio_bitmap d.link, ap dio_bitmap_len known) in
    idle-bind (usb b now_ms now_us) o d _ idle
    ∙ read-bind (usb b now_ms now_us) o d Request.dio_read_all 0 len len _ _ d.link (
        read-usb b now_ms now_us d.link d.link o.busy_max_attempts Request.dio_read_all 0 len len
          (0 ∷ bitmap) (rw quiet refl) (omega (arith, whole)) (omega (arith, whole)))
    ∙ ap (λ (k : ℕ). (ok (levels_from (padded len (Status.ok ∷ 0 ∷ bitmap)) 0 k), d)) known
    ∙ ap (λ (ls : List Bool). (ok ls, d)) (levels_from-reply d.link len Status.ok 0 n (omega arith))
