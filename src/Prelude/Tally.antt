-- ===== src/Prelude/Tally.antt =====
-- How many entries of an array pass a test, and what a store changes of that.
use Prim.Native.Nat.{ℕ, zero, suc, ◌+◌, ◌≤◌, ◌<◌}
use mathlib.Core.Path.{◌≡◌, refl}
use mathlib.Core.Bool.{Bool, false}
use mathlib.Core.List.{List, [], ◌∷◌, map}
use native.Mathlib.Omega.{arith}
use arduino_driver.Prelude.Tests.{if◌then◌else◌}
use arduino_driver.Prelude.Lists.{get_or, set, length}

module _ {ℓ} {A : Type ℓ} (test : A → Bool) where
  abbrev pub unit_of : A → ℕ
  unit_of x = if test x then 1 else 0

  unfoldable pub tally : List A → ℕ
  tally [] = 0
  tally (x ∷ xs) = unit_of x + tally xs

  pub tally-le-length : (xs : List A) → tally xs ≤ length xs
  unfolding tally
  tally-le-length [] = omega arith
  tally-le-length (x ∷ xs) = ground (arith, tally-le-length xs)

  -- A store adds what its value counts for, and takes off what the slot counted for.
  pub tally-set :
      (xs : List A) (i : ℕ) (v d : A)
      → i < length xs
      → tally (set xs i v) + unit_of (get_or xs i d) ≡ tally xs + unit_of v
  unfolding tally
  tally-set [] i v d h = absurd (omega arith)
  tally-set (x ∷ xs) zero v d h = omega arith
  tally-set (x ∷ xs) (suc i) v d h = omega (arith, tally-set xs i v d (omega arith))

  -- An entry that passes is counted.
  pub unit_of-le-tally :
      (xs : List A) (i : ℕ) (d : A) → i < length xs → unit_of (get_or xs i d) ≤ tally xs
  unfolding tally
  unit_of-le-tally [] i d h = absurd (omega arith)
  unit_of-le-tally (x ∷ xs) zero d h = omega arith
  unit_of-le-tally (x ∷ xs) (suc i) d h = omega (arith, unit_of-le-tally xs i d (omega arith))

  pub tally-map :
      (f : A → A) → ((x : A) → test (f x) ≡ test x) → (xs : List A) → tally (map f xs) ≡ tally xs
  unfolding tally
  tally-map f same [] = refl
  tally-map f same (x ∷ xs) = ground (arith, same x, tally-map f same xs)

  pub tally-map_none :
      (f : A → A) → ((x : A) → test (f x) ≡ false) → (xs : List A) → tally (map f xs) ≡ 0
  unfolding tally
  tally-map_none f none [] = refl
  tally-map_none f none (x ∷ xs) = ground (arith, none x, tally-map_none f none xs)
