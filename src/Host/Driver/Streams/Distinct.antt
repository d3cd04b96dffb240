-- ===== src/Host/Driver/Streams/Distinct.antt =====
-- The duplicate check of start_stream in extras/driver/src/Device.cpp: std::sort and std::adjacent_find.
use arduino_driver.Prelude.{
  ℕ, ◌+◌, ◌<◌, ◌≤◌, ◌≡◌, refl, false, List, [], ◌∷◌, leb, ◌==◌, if◌then◌else◌, arith, Bool-cases,
  inl, inr,
}
use arduino_driver.Prelude.Tally.{tally}
use arduino_driver.Firmware.Select.Slice.{times}
use arduino_driver.Host.Driver.Streams.{insert_sorted, sorted, adjacent_equal, contains}

times-insert :
    (p x : ℕ) (xs : List ℕ) → times p (insert_sorted x xs) ≡ (if x == p then 1 else 0) + times p xs
unfolding insert_sorted tally
times-insert p x [] = refl
times-insert p x (y ∷ ys) = ground (arith, times-insert p x ys)

pub times-sorted : (p : ℕ) (xs : List ℕ) → times p (sorted xs) ≡ times p xs
unfolding sorted tally
times-sorted p [] = refl
times-sorted p (x ∷ xs) = ground (arith, times-insert p x (sorted xs), times-sorted p xs)

-- No entry is below an earlier one.
abbrev IsSorted : List ℕ → Type 0
IsSorted [] = Unit
IsSorted (x ∷ xs) = ((p : ℕ) → p < x → times p xs ≡ 0) × IsSorted xs

insert-IsSorted : (x : ℕ) (xs : List ℕ) → IsSorted xs → IsSorted (insert_sorted x xs)
unfolding insert_sorted tally
insert-IsSorted x [] h = (λ p below. refl, tt)
insert-IsSorted x (y ∷ ys) h = elim (Bool-cases (leb x y)) [
  | inl le ↦ rw le (λ p below. ground (arith, h.0 p), h)
  | inr gt ↦ rw gt (λ p below. ground (arith, times-insert p x ys, h.0 p), insert-IsSorted x ys h.1)
]

sorted-IsSorted : (xs : List ℕ) → IsSorted (sorted xs)
unfolding sorted
sorted-IsSorted [] = tt
sorted-IsSorted (x ∷ xs) = insert-IsSorted x (sorted xs) (sorted-IsSorted xs)

adjacent_equal-times :
    (xs : List ℕ) (p : ℕ) → IsSorted xs → adjacent_equal xs ≡ false → times p xs ≤ 1
unfolding adjacent_equal tally
adjacent_equal-times [] p h e = omega arith
adjacent_equal-times (x ∷ []) p h e = ground arith
adjacent_equal-times (x ∷ y ∷ ys) p h e =
    let rest = adjacent_equal-times (y ∷ ys) p h.1 (ground arith) in
    ground (arith, rest, h.0 y, h.1.0 p)

-- A list that passes the check repeats no entry.
pub adjacent_equal-sorted :
    (xs : List ℕ) → adjacent_equal (sorted xs) ≡ false → (p : ℕ) → times p xs ≤ 1
adjacent_equal-sorted xs e p =
    ground (arith, times-sorted p xs, adjacent_equal-times (sorted xs) p (sorted-IsSorted xs) e)

pub contains-times : (xs : List ℕ) (p : ℕ) → contains xs p ≡ false → times p xs ≡ 0
unfolding tally
contains-times [] p e = refl
contains-times (x ∷ xs) p e = ground (arith, contains-times xs p)
