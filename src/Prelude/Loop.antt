-- ===== src/Prelude/Loop.antt =====
-- `for (uint8_t p = first; p < first + n; ++p)` over a state, and what such a loop keeps.
use Prim.Native.Nat.{ℕ, zero, suc, ◌+◌, ◌≤◌, ◌<◌}
use mathlib.Core.Path.{◌≡◌, refl, subst, ◌∙◌}
use mathlib.Core.List.{List}
use native.Mathlib.Decide.{ℕ_discrete}
use native.Mathlib.Omega.{arith}
use arduino_driver.Prelude.Lists.{get_or, set, length, length-set, get_or-set_self, get_or-set_ne}

unfoldable pub for_range {ℓ} : {S : Type ℓ} → ℕ → ℕ → (ℕ → S → S) → S → S
for_range first zero body s = s
for_range first (suc n) body s = for_range (suc first) n body (body first s)

-- The invariant rule: `P p` holds before round `p`.
pub for_range_keeps {ℓ κ} :
    {S : Type ℓ} (P : ℕ → S → Type κ) (first n : ℕ) (body : ℕ → S → S) (s : S)
    → ((p : ℕ) (t : S) → first ≤ p → p < first + n → P p t → P (suc p) (body p t))
    → P first s
    → P (first + n) (for_range first n body s)
unfolding for_range
for_range_keeps P first zero body s keep h =
    subst (λ k. P k s) (let e : first ≡ first + 0 = omega arith in e) h
for_range_keeps P first (suc n) body s keep h =
    subst (λ k. P k (for_range (suc first) n body (body first s)))
      (let e : suc first + n ≡ first + suc n = omega arith in e)
      (for_range_keeps P (suc first) n body (body first s)
        (λ p t lo hi. keep p t (omega arith) (omega arith))
        (keep first s (omega arith) (omega arith) h))

-- A loop that stores `g p` into slot `p` of an array.
module _ {ℓ} {A : Type ℓ} (g : ℕ → A) where
  abbrev pub store : ℕ → List A → List A
  store p xs = set xs p (g p)

  pub length-for_range-store :
      (first n : ℕ) (xs : List A) → length (for_range first n store xs) ≡ length xs
  unfolding for_range
  length-for_range-store first zero xs = refl
  length-for_range-store first (suc n) xs =
      omega (
        arith,
        length-for_range-store (suc first) n (store first xs),
        length-set xs first (g first),
      )

  -- Slots below the first one keep their value.
  pub get_or-for_range-below :
      (first n : ℕ) (xs : List A) (j : ℕ) (d : A)
      → j < first
      → get_or (for_range first n store xs) j d ≡ get_or xs j d
  unfolding for_range
  get_or-for_range-below first zero xs j d h = refl
  get_or-for_range-below first (suc n) xs j d h =
      get_or-for_range-below (suc first) n (store first xs) j d (omega arith)
      ∙ get_or-set_ne xs first j (g first) d (omega arith)

  pub get_or-for_range-store :
      (first n : ℕ) (xs : List A) (j : ℕ) (d : A)
      → first ≤ j
      → j < first + n
      → j < length xs
      → get_or (for_range first n store xs) j d ≡ g j
  unfolding for_range
  get_or-for_range-store first zero xs j d lo hi len = absurd (omega arith)
  get_or-for_range-store first (suc n) xs j d lo hi len = elim (ℕ_discrete first j) [
    | yes e ↦
        get_or-for_range-below (suc first) n (store first xs) j d (omega arith)
        ∙ rw e (get_or-set_self xs j (g j) d len)
    | no ne ↦
        get_or-for_range-store (suc first) n (store first xs) j d (omega arith) (omega arith)
          (omega (arith, length-set xs first (g first)))
  ]

  -- Slots past the last one keep theirs.
  pub get_or-for_range-above :
      (first n : ℕ) (xs : List A) (j : ℕ) (d : A)
      → first + n ≤ j
      → get_or (for_range first n store xs) j d ≡ get_or xs j d
  unfolding for_range
  get_or-for_range-above first zero xs j d h = refl
  get_or-for_range-above first (suc n) xs j d h =
      get_or-for_range-above (suc first) n (store first xs) j d (omega arith)
      ∙ get_or-set_ne xs first j (g first) d (omega arith)
