-- ===== src/Prelude/Bits.antt =====
-- Facts about the bits of a byte. `bit_and` and `bit_or` have no laws at variables, so a law over
-- a byte is checked at every value.
use Prim.Native.Nat.{ℕ, zero, suc, ◌*◌, ◌/◌, ◌%◌, ◌^◌, ◌<◌, bit_and, bit_or}
use mathlib.Core.Path.{◌≡◌, refl}
use mathlib.Core.Bool.{Bool, true, ◌&&◌}
use native.Mathlib.Omega.{arith}
use arduino_driver.Prelude.Tests.{◌==◌, ==_iff, ltb, if◌then◌else◌}

-- `test` holds of every number below the bound.
unfoldable pub all_below : (ℕ → Bool) → ℕ → Bool
all_below test zero = true
all_below test (suc bound) = all_below test bound && test bound

pub all_below_at :
    (test : ℕ → Bool) (bound x : ℕ) → x < bound → all_below test bound ≡ true → test x ≡ true
unfolding all_below
all_below_at test zero x below checked = absurd (omega arith)
all_below_at test (suc bound) x below checked = ground (arith, all_below_at test bound x)

-- A ring of 32 slots finds its slot by `& 31`.
is_mask_31 : ℕ → Bool
is_mask_31 x = bit_and x 31 == x % 32

mask_31_table : all_below is_mask_31 256 ≡ true
unfolding all_below is_mask_31
mask_31_table = refl

pub mask_31 : (x : ℕ) → x < 256 → bit_and x 31 ≡ x % 32
unfolding is_mask_31
mask_31 x h = (==_iff (bit_and x 31) _).0 (all_below_at is_mask_31 256 x h mask_31_table)

-- A test of one flag of a byte, as C writes it and as `(bits & mask) == mask`.
flag_is_bit : ℕ → ℕ → Bool
flag_is_bit k x = bit_and x (2 ^ k) == 2 ^ k * (x / 2 ^ k % 2)

mask_table : all_below (λ k. all_below (flag_is_bit k) 256) 4 ≡ true
unfolding all_below flag_is_bit
mask_table = refl

pub flag_bit : (k x : ℕ) → k < 4 → x < 256 → bit_and x (2 ^ k) ≡ 2 ^ k * (x / 2 ^ k % 2)
unfolding flag_is_bit
flag_bit k x hk hx = (==_iff (bit_and x (2 ^ k)) _).0 (
    all_below_at (flag_is_bit k) 256 x hx
      (all_below_at (λ j. all_below (flag_is_bit j) 256) 4 k hk mask_table))

-- Bit `j` of a byte after bit `k` is set.
sets_bit : ℕ → ℕ → ℕ → Bool
sets_bit k j x =
    let y = bit_or x (2 ^ k) in y / 2 ^ j % 2 == (if j == k then 1 else x / 2 ^ j % 2) && ltb y 256

sets_table : all_below (λ k. all_below (λ j. all_below (sets_bit k j) 256) 8) 8 ≡ true
unfolding all_below sets_bit
sets_table = refl

pub set_bit :
    (k j x : ℕ)
    → k < 8
    → j < 8
    → x < 256
    → (bit_or x (2 ^ k) / 2 ^ j % 2 ≡ (if j == k then 1 else x / 2 ^ j % 2))
      × (bit_or x (2 ^ k) < 256)
unfolding sets_bit
set_bit k j x hk hj hx =
    let at_k =
      all_below_at (λ i. all_below (λ l. all_below (sets_bit i l) 256) 8) 8 k hk sets_table in
    let at_j = all_below_at (λ l. all_below (sets_bit k l) 256) 8 j hj at_k in
    let at_x = all_below_at (sets_bit k j) 256 x hx at_j in ground (arith, at_x)
