-- ===== src/Firmware/Reply/Bitmap.antt =====
-- The bitmap of DIO_READ_ALL in src/UsbIo.cpp, read as the host's Device::dio_read_all does.
use arduino_driver.Prelude.{
  ℕ, zero, suc, ◌+◌, ◌/◌, ◌%◌, ◌^◌, ◌<◌, ◌≡◌, refl, ◌∙◌, Bool, true, false, ◌&&◌, List, [], ◌∷◌,
  arith, ltb, ◌==◌, if◌then◌else◌, get_or, set, length, length-set, length-replicate,
  get_or-set_self, get_or-set_ne, replicate, bit_or, u8, ==_iff, sym, Bool-cases, inl, inr,
}
use arduino_driver.Prelude.Bits.{set_bit, all_below, all_below_at}
use native.Mathlib.Decide.{ℕ_discrete}
use arduino_driver.Prelude.Loop.{for_range_keeps}
use arduino_driver.Protocol.Sizes.{dio_bitmap_len}
use arduino_driver.Firmware.Reply.{reads_high, mark_pin, dio_bitmap}
use arduino_driver.Firmware.State.{Device}

-- `(bitmap[pin / 8] >> (pin % 8)) & 1`
abbrev pub bit_at : List ℕ → ℕ → ℕ
bit_at bitmap pin = get_or bitmap (pin / 8) 0 / 2 ^ (pin % 8) % 2

-- The bitmap when the pins below `p` have been handled: what it holds for pin `q`.
record Marked (d : Device) (q p : ℕ) (bitmap : List ℕ) : Type 0 where
  full_length : length bitmap ≡ (d.n_pins + 7) / 8
  bytes : (i : ℕ) → get_or bitmap i 0 < 256
  bit : bit_at bitmap q ≡ (if ltb q p && reads_high d q then 1 else 0)

abbrev pub zeros : ℕ → List ℕ
zeros n = replicate n 0

pub get_or-zeros : (n i : ℕ) → get_or (zeros n) i 0 ≡ 0
get_or-zeros zero i = refl
get_or-zeros (suc n) zero = refl
get_or-zeros (suc n) (suc i) = get_or-zeros n i

zero_shifted : (k : ℕ) → k < 8 → 0 / 2 ^ k % 2 ≡ 0
unfolding all_below
zero_shifted k h = (==_iff (0 / 2 ^ k % 2) 0).0 (all_below_at (λ j. 0 / 2 ^ j % 2 == 0) 8 k h table)
  where
    table : all_below (λ j. 0 / 2 ^ j % 2 == 0) 8 ≡ true
    table = refl

zeros-Marked : (d : Device) (q : ℕ) → Marked d q 0 (zeros ((d.n_pins + 7) / 8))
zeros-Marked d q = record {
  full_length = length-replicate ((d.n_pins + 7) / 8) 0;
  bytes = λ i. omega (arith, get_or-zeros ((d.n_pins + 7) / 8) i);
  bit =
      rw (get_or-zeros ((d.n_pins + 7) / 8) (q / 8))
        (ground (arith, zero_shifted (q % 8) (omega arith)));
}

-- Bit `q` after bit `p` is set.
bit-set :
    (bitmap : List ℕ) (q p : ℕ)
    → p / 8 < length bitmap
    → ((i : ℕ) → get_or bitmap i 0 < 256)
    → let v = u8 (bit_or (get_or bitmap (p / 8) 0) (2 ^ (p % 8))) in
      bit_at (set bitmap (p / 8) v) q ≡ (if q == p then 1 else bit_at bitmap q)
bit-set bitmap q p h bytes =
    let x = get_or bitmap (p / 8) 0 in
    let v = u8 (bit_or x (2 ^ (p % 8))) in
    let bit = set_bit (p % 8) (q % 8) x (omega arith) (omega arith) (bytes (p / 8)) in
    let whole : v ≡ bit_or x (2 ^ (p % 8)) = omega (arith, bit.1) in
    elim (ℕ_discrete (q / 8) (p / 8)) [
      | yes e ↦ rw (e, get_or-set_self bitmap (p / 8) v 0 h, whole, bit.0) (ground arith)
      | no ne ↦ rw (get_or-set_ne bitmap (p / 8) (q / 8) v 0 (λ e. ne (sym e))) (ground arith)
    ]

-- A store of a byte.
bytes-set :
    (bitmap : List ℕ) (j v : ℕ)
    → v < 256
    → ((i : ℕ) → get_or bitmap i 0 < 256)
    → (i : ℕ) → get_or (set bitmap j v) i 0 < 256
bytes-set [] j v small bytes i = bytes i
bytes-set (x ∷ xs) zero v small bytes zero = small
bytes-set (x ∷ xs) zero v small bytes (suc i) = bytes (suc i)
bytes-set (x ∷ xs) (suc j) v small bytes zero = bytes 0
bytes-set (x ∷ xs) (suc j) v small bytes (suc i) = bytes-set xs j v small (λ k. bytes (suc k)) i

-- The round of pin `p`, for a pin that reads high and one that does not.
mark_high :
    (high : ℕ → Bool) (q p bit : ℕ)
    → high p ≡ true
    → bit ≡ (if ltb q p && high q then 1 else 0)
    → (if q == p then 1 else bit) ≡ (if ltb q (suc p) && high q then 1 else 0)
mark_high high q p bit h e = grind arith

mark_low :
    (high : ℕ → Bool) (q p bit : ℕ)
    → high p ≡ false
    → bit ≡ (if ltb q p && high q then 1 else 0)
    → bit ≡ (if ltb q (suc p) && high q then 1 else 0)
mark_low high q p bit h e = grind arith

mark_pin-Marked :
    (d : Device) (q p : ℕ) (bitmap : List ℕ)
    → p < d.n_pins
    → Marked d q p bitmap
    → Marked d q (suc p) (mark_pin d p bitmap)
unfolding mark_pin
mark_pin-Marked d q p bitmap below m =
    let v = u8 (bit_or (get_or bitmap (p / 8) 0) (2 ^ (p % 8))) in
    let inside : p / 8 < length bitmap = omega (arith, m.full_length) in
    elim (Bool-cases (reads_high d p)) [
      | inl high ↦ rw high (record {
        full_length = length-set bitmap (p / 8) v ∙ m.full_length;
        bytes = bytes-set bitmap (p / 8) v (omega arith) m.bytes;
        bit = bit-set bitmap q p inside m.bytes ∙ mark_high (reads_high d) q p _ high m.bit;
      })
      | inr low ↦ rw low (record {
        full_length = m.full_length;
        bytes = m.bytes;
        bit = mark_low (reads_high d) q p _ low m.bit;
      })
    ]

-- For every pin of the board, the bit that the host tests for it in the bitmap of DIO_READ_ALL is 1 exactly
-- when the pin is meant to be digital and the shadow shows it high. The bitmap has the length that the
-- host computes for it.
pub dio_bitmap_lem :
    (d : Device) (pin : ℕ)
    → pin < d.n_pins
    → (bit_at (dio_bitmap d) pin ≡ (if reads_high d pin then 1 else 0))
      × (length (dio_bitmap d) ≡ dio_bitmap_len d.n_pins)
unfolding dio_bitmap dio_bitmap_len
dio_bitmap_lem d pin h =
    let m =
      for_range_keeps (Marked d pin) 0 d.n_pins (mark_pin d) (zeros ((d.n_pins + 7) / 8))
        (λ p t lo hi kept. mark_pin-Marked d pin p t (omega arith) kept) (zeros-Marked d pin) in
    (ground (arith, m.bit), m.full_length)

pub length-dio_bitmap : (d : Device) → length (dio_bitmap d) ≡ dio_bitmap_len d.n_pins
unfolding dio_bitmap dio_bitmap_len
length-dio_bitmap d =
    let m =
      for_range_keeps (Marked d 0) 0 d.n_pins (mark_pin d) (zeros ((d.n_pins + 7) / 8))
        (λ p t lo hi kept. mark_pin-Marked d 0 p t (omega arith) kept) (zeros-Marked d 0) in
    m.full_length
