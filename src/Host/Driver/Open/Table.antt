-- ===== src/Host/Driver/Open/Table.antt =====
-- load_caps of extras/driver/src/Device.cpp and GET_PIN_CAPS of src/UsbIo.cpp.
use arduino_driver.Prelude.{
  ℕ, zero, suc, ◌+◌, ◌<◌, ◌≤◌, ◌≡◌, refl, ap, ap₂, ◌∙◌, true, List, [], ◌∷◌, ◌++◌, arith, length,
  get_or, take, ltb,
}
use arduino_driver.Prelude.Bits.{flag_bit}
use arduino_driver.Protocol.Bytes.{read_u8}
use arduino_driver.Protocol.Caps
use arduino_driver.Firmware.Reply.{pin_caps_reply}
use arduino_driver.Firmware.State.{Device, caps_of}
use arduino_driver.Host.Driver.Mirror.{ain_pins}
use arduino_driver.Host.Driver.Open.{bytes_at, analog_from}
use arduino_driver.Host.Transfers.Cable.{padded}

-- The capability bytes of the pins `pin` to `pin + n - 1`.
abbrev pub cap_bytes : Device → ℕ → ℕ → List ℕ
cap_bytes d pin zero = []
cap_bytes d pin (suc n) = caps_of d pin ∷ cap_bytes d (suc pin) n

pub length-cap_bytes : (d : Device) (pin n : ℕ) → length (cap_bytes d pin n) ≡ n
length-cap_bytes d pin zero = refl
length-cap_bytes d pin (suc n) = omega (arith, length-cap_bytes d (suc pin) n)

pub get_or-cap_bytes :
    (d : Device) (from n i : ℕ) → i < n → get_or (cap_bytes d from n) i 0 ≡ caps_of d (from + i)
get_or-cap_bytes d from zero i h = absurd (omega arith)
get_or-cap_bytes d from (suc n) zero h = ap (caps_of d) (omega arith)
get_or-cap_bytes d from (suc n) (suc i) h =
    get_or-cap_bytes d (suc from) n i (omega arith)
    ∙ ap (caps_of d) (let e : suc from + i ≡ from + suc i = omega arith in e)

bytes_at-same :
    (d : Device) (reply : List ℕ) (from n : ℕ)
    → ((i : ℕ) → from ≤ i → i < from + n → get_or reply i 0 ≡ caps_of d i)
    → bytes_at reply from n ≡ cap_bytes d from n
unfolding read_u8
bytes_at-same d reply from zero same = refl
bytes_at-same d reply from (suc n) same =
    ap₂ ◌∷◌ (same from (omega arith) (omega arith))
      (bytes_at-same d reply (suc from) n (λ i lo hi. same i (omega arith) (omega arith)))

get_or-take :
    (n i : ℕ) (xs rest : List ℕ)
    → i < n
    → n ≤ length xs
    → get_or (take n xs ++ rest) i 0 ≡ get_or xs i 0
get_or-take zero i xs rest h k = absurd (omega arith)
get_or-take (suc n) i [] rest h k = absurd (omega arith)
get_or-take (suc n) zero (x ∷ xs) rest h k = refl
get_or-take (suc n) (suc i) (x ∷ xs) rest h k = get_or-take n i xs rest (omega arith) (omega arith)

pub pin_caps_reply-take :
    (d : Device) → 0 < d.n_pins → pin_caps_reply d 0 d.n_pins ≡ take d.n_pins d.caps
unfolding pin_caps_reply
pin_caps_reply-take d some_pins =
    let there : ltb 0 d.n_pins ≡ true = ground arith in
    rw there (ap (λ (k : ℕ). take k d.caps) (omega arith))

pub caps_read :
    (d : Device)
    → d.n_pins ≤ length d.caps
    → bytes_at (padded d.n_pins (take d.n_pins d.caps)) 0 d.n_pins ≡ cap_bytes d 0 d.n_pins
caps_read d room =
    bytes_at-same d _ 0 d.n_pins (λ i lo hi. get_or-take d.n_pins i d.caps _ (omega arith) room)

-- Host and device agree on the pins with an analog input.
has-any_of : (caps : ℕ) → caps < 256 → Caps.has caps Caps.ain ≡ Caps.any_of caps Caps.ain
unfolding Caps.has Caps.any_of
has-any_of caps h = ground (arith, flag_bit 1 caps (omega arith) h)

pub analog_from-ain_pins :
    (d : Device) (pin n : ℕ)
    → ((i : ℕ) → caps_of d i < 256)
    → analog_from pin (cap_bytes d pin n) ≡ ain_pins d pin n
unfolding analog_from
analog_from-ain_pins d pin zero bytes = refl
analog_from-ain_pins d pin (suc n) bytes =
    rw (has-any_of (caps_of d pin) (bytes pin), analog_from-ain_pins d (suc pin) n bytes) refl
