-- ===== src/Firmware/Select/Slice.antt =====
-- The part of _stream_channels of src/UsbIo.cpp that is in use, as a list: what stream_channel_index
-- finds in it, and what closing a gap makes of it.
use arduino_driver.Prelude.{
  ℕ, zero, suc, ◌+◌, ◌-◌, ◌≤◌, ◌<◌, ◌≡◌, refl, ap, ap₂, subst, ◌∙◌, Option, none, some, List, [],
  ◌∷◌, ◌++◌, arith, ◌==◌, if◌then◌else◌, inl, inr, Bool-cases, get_or, set, length, get_or-set_ne,
}
use arduino_driver.Prelude.Tally.{tally}
use arduino_driver.Firmware.Select.{channel_index_from}

-- Entries `i` to `i + n - 1`.
unfoldable pub slice : List ℕ → ℕ → ℕ → List ℕ
slice channels i zero = []
slice channels i (suc n) = get_or channels i 0 ∷ slice channels (suc i) n

pub slice_nil : (cs ds : List ℕ) (i j : ℕ) → slice cs i 0 ≡ slice ds j 0
unfolding slice
slice_nil cs ds i j = refl

pub slice_cons : (cs : List ℕ) (i n : ℕ) → slice cs i (suc n) ≡ get_or cs i 0 ∷ slice cs (suc i) n
unfolding slice
slice_cons cs i n = refl

pub length-slice : (channels : List ℕ) (i n : ℕ) → length (slice channels i n) ≡ n
unfolding slice
length-slice channels i zero = refl
length-slice channels i (suc n) = ap suc (length-slice channels (suc i) n)

pub slice-same :
    (xs ys : List ℕ) (i n : ℕ)
    → ((k : ℕ) → i ≤ k → k < i + n → get_or xs k 0 ≡ get_or ys k 0)
    → slice xs i n ≡ slice ys i n
unfolding slice
slice-same xs ys i zero same = refl
slice-same xs ys i (suc n) same =
    ap₂ ◌∷◌ (same i (omega arith) (omega arith))
      (slice-same xs ys (suc i) n (λ k lo hi. same k (omega arith) (omega arith)))

pub slice-suc :
    (xs ys : List ℕ) (i n : ℕ)
    → ((k : ℕ) → i ≤ k → k < i + n → get_or xs k 0 ≡ get_or ys (suc k) 0)
    → slice xs i n ≡ slice ys (suc i) n
unfolding slice
slice-suc xs ys i zero same = refl
slice-suc xs ys i (suc n) same =
    ap₂ ◌∷◌ (same i (omega arith) (omega arith))
      (slice-suc xs ys (suc i) n (λ k lo hi. same k (omega arith) (omega arith)))

-- How often the pin stands in the list.
abbrev pub times : ℕ → List ℕ → ℕ
times pin xs = tally (λ (x : ℕ). x == pin) xs

pub slice-snoc :
    (channels : List ℕ) (i n : ℕ)
    → slice channels i (suc n) ≡ slice channels i n ++ get_or channels (i + n) 0 ∷ []
unfolding slice
slice-snoc channels i zero = ap (λ (k : ℕ). get_or channels k 0 ∷ []) (omega arith)
slice-snoc channels i (suc n) =
    ap (λ (xs : List ℕ). get_or channels i 0 ∷ xs)
      (slice-snoc channels (suc i) n
        ∙ ap (λ (k : ℕ). slice channels (suc i) n ++ get_or channels k 0 ∷ [])
            (let e : suc i + n ≡ i + suc n = omega arith in e))

-- A store past the part in use.
pub slice-set_past :
    (channels : List ℕ) (i n j v : ℕ)
    → i + n ≤ j
    → slice (set channels j v) i n ≡ slice channels i n
unfolding slice
slice-set_past channels i zero j v h = refl
slice-set_past channels i (suc n) j v h =
    ap₂ ◌∷◌ (get_or-set_ne channels j i v 0 (omega arith))
      (slice-set_past channels (suc i) n j v (omega arith))

-- The list without the first entry for the pin.
unfoldable pub remove : ℕ → List ℕ → List ℕ
remove pin [] = []
remove pin (x ∷ xs) = if x == pin then xs else x ∷ remove pin xs

-- What the search finds from entry `i` on.
abbrev pub Range : ℕ → ℕ → Option ℕ → Type 0
Range i n none = Unit {0}
Range i n (some k) = (i ≤ k) × (k < i + n)

Range-suc : (i n : ℕ) (found : Option ℕ) → Range (suc i) n found → Range i (suc n) found
Range-suc i n none r = tt
Range-suc i n (some k) r = (omega arith, omega arith)

pub channel_index_from-Range :
    (channels : List ℕ) (i n pin : ℕ) → Range i n (channel_index_from channels i n pin)
unfolding channel_index_from
channel_index_from-Range channels i zero pin = tt
channel_index_from-Range channels i (suc n) pin = elim (Bool-cases (get_or channels i 0 == pin)) [
  | inl hit ↦ rw hit (omega arith, omega arith)
  | inr miss ↦ rw miss (Range-suc i n _ (channel_index_from-Range channels (suc i) n pin))
]

pub times-remove :
    (pin p : ℕ) (xs : List ℕ)
    → times p (remove pin xs) ≡ (if p == pin then times p xs - 1 else times p xs)
unfolding tally remove
times-remove pin p [] = ground arith
times-remove pin p (x ∷ xs) = ground (arith, times-remove pin p xs)

pub times-snoc :
    (pin p : ℕ) (xs : List ℕ) → times p (xs ++ pin ∷ []) ≡ times p xs + (if p == pin then 1 else 0)
unfolding tally
times-snoc pin p [] = ground arith
times-snoc pin p (x ∷ xs) = ground (arith, times-snoc pin p xs)

pub times_search :
    (cs : List ℕ) (i n pin : ℕ)
    → channel_index_from cs i n pin ≡ none
    → times pin (slice cs i n) ≡ 0
unfolding channel_index_from slice tally
times_search cs i zero pin h = refl
times_search cs i (suc n) pin h = ground (arith, times_search cs (suc i) n pin)

pub times_found :
    (cs : List ℕ) (i n pin k : ℕ)
    → channel_index_from cs i n pin ≡ some k
    → 0 < times pin (slice cs i n)
unfolding channel_index_from slice tally
times_found cs i zero pin k h = absurd (ground arith)
times_found cs i (suc n) pin k h = ground (arith, times_found cs (suc i) n pin k)

pub search_below : (cs : List ℕ) (n pin k : ℕ) → channel_index_from cs 0 n pin ≡ some k → k < n
search_below cs n pin k found =
    let r = subst (Range 0 n) found (channel_index_from-Range cs 0 n pin) in omega (arith, r.1)

pub remove_absent : (pin : ℕ) (xs : List ℕ) → times pin xs ≡ 0 → remove pin xs ≡ xs
unfolding tally remove
remove_absent pin [] h = refl
remove_absent pin (x ∷ xs) h = ground (arith, remove_absent pin xs)
