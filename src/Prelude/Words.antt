-- ===== src/Prelude/Words.antt =====
-- Machine words as native numbers: uint8_t, uint16_t and uint32_t wrap by `%`.
use Prim.Native.Nat.{ℕ, ◌+◌, ◌-◌, ◌%◌, ◌^◌}

abbrev pub u8 : ℕ → ℕ
u8 a = a % 2 ^ 8

abbrev pub u16 : ℕ → ℕ
u16 a = a % 2 ^ 16

abbrev pub u32 : ℕ → ℕ
u32 a = a % 2 ^ 32

-- The difference of two words, wrapped: `-` on ℕ stops at 0, so the modulus comes first.
abbrev pub u8_sub : ℕ → ℕ → ℕ
u8_sub a b = (a + 2 ^ 8 - b) % 2 ^ 8

abbrev pub u16_sub : ℕ → ℕ → ℕ
u16_sub a b = (a + 2 ^ 16 - b) % 2 ^ 16

abbrev pub u32_sub : ℕ → ℕ → ℕ
u32_sub a b = (a + 2 ^ 32 - b) % 2 ^ 32
