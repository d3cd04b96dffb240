-- ===== src/Firmware/Select/Gap.antt =====
-- The loop of src/UsbIo.cpp that takes a channel out of _stream_channels: it leaves the list without
-- the entry that was found.
use arduino_driver.Prelude.{
  ℕ, zero, suc, ◌+◌, ◌-◌, ◌≤◌, ◌<◌, ◌≡◌, refl, ap, ap₂, sym, subst, ◌∙◌, true, false, some, List,
  ◌∷◌, arith, ltb, ◌==◌, if◌then◌else◌, inl, inr, Bool-cases, get_or, set, length, length-set,
  get_or-set_self, get_or-set_ne,
}
use arduino_driver.Prelude.Loop.{for_range}
use arduino_driver.Firmware.Select.{channel_index_from, close_gap}
use arduino_driver.Firmware.Select.Slice.{
  slice, slice_nil, slice_cons, slice-suc, remove, Range, channel_index_from-Range,
}

-- `channels[k] = channels[k + 1]` for `m` entries from `first` on.
abbrev shift : ℕ → List ℕ → List ℕ
shift k cs = set cs k (get_or cs (k + 1) 0)

pub length-shifted : (first m : ℕ) (cs : List ℕ) → length (for_range first m shift cs) ≡ length cs
unfolding for_range
length-shifted first zero cs = refl
length-shifted first (suc m) cs =
    length-shifted (suc first) m (shift first cs) ∙ length-set cs first (get_or cs (first + 1) 0)

get_or-shifted :
    (first m : ℕ) (cs : List ℕ) (j : ℕ)
    → first + m < length cs
    → get_or (for_range first m shift cs) j 0 ≡ (
        if ltb j first
        then get_or cs j 0
        else if ltb j (first + m)
        then get_or cs (j + 1) 0
        else get_or cs j 0)
unfolding for_range
get_or-shifted first zero cs j h = ground arith
get_or-shifted first (suc m) cs j h =
    let v = get_or cs (first + 1) 0 in
    grind (
      arith,
      get_or-shifted (suc first) m (shift first cs) j (omega (arith, length-set cs first v)),
      get_or-set_self cs first v 0 (omega arith),
      get_or-set_ne cs first j v 0,
      get_or-set_ne cs first (j + 1) v 0,
    )

get_or-shifted_low :
    (first m : ℕ) (cs : List ℕ) (j : ℕ)
    → first + m < length cs
    → j < first
    → get_or (for_range first m shift cs) j 0 ≡ get_or cs j 0
get_or-shifted_low first m cs j h lo = ground (arith, get_or-shifted first m cs j h)

get_or-shifted_mid :
    (first m : ℕ) (cs : List ℕ) (j : ℕ)
    → first + m < length cs
    → first ≤ j
    → j < first + m
    → get_or (for_range first m shift cs) j 0 ≡ get_or cs (suc j) 0
get_or-shifted_mid first m cs j h lo hi = ground (arith, get_or-shifted first m cs j h)

slice-closed_hit :
    (cs : List ℕ) (i n : ℕ)
    → i + n < length cs
    → slice (for_range i (i + n - i) shift cs) i n ≡ slice cs (suc i) n
slice-closed_hit cs i n h =
    slice-suc (for_range i (i + n - i) shift cs) cs i n
      (λ k lo hi. get_or-shifted_mid i (i + n - i) cs k (omega arith) lo (omega arith))

-- An entry for the pin at `i` ends the search; otherwise it goes on behind it.
search_hit :
    (cs : List ℕ) (i n pin k : ℕ)
    → (get_or cs i 0 == pin) ≡ true
    → channel_index_from cs i (suc n) pin ≡ some k
    → (i ≡ k) × (remove pin (slice cs i (suc n)) ≡ slice cs (suc i) n)
unfolding channel_index_from slice remove
search_hit cs i n pin k hit found = ground arith

search_miss :
    (cs : List ℕ) (i n pin k : ℕ)
    → (get_or cs i 0 == pin) ≡ false
    → channel_index_from cs i (suc n) pin ≡ some k
    → (channel_index_from cs (suc i) n pin ≡ some k)
      × (remove pin (slice cs i (suc n)) ≡ get_or cs i 0 ∷ remove pin (slice cs (suc i) n))
unfolding channel_index_from slice remove
search_miss cs i n pin k miss found = ground arith

none_found {ℓ} :
    {A : Type ℓ} (cs : List ℕ) (i pin k : ℕ) → channel_index_from cs i 0 pin ≡ some k → A
unfolding channel_index_from
none_found cs i pin k found = absurd (ground arith)

-- The loop that closes the gap leaves the list without the entry that the search found.
pub slice-closed :
    (cs : List ℕ) (i n pin k : ℕ)
    → i + n < length cs
    → channel_index_from cs i (suc n) pin ≡ some k
    → slice (for_range k (i + n - k) shift cs) i n ≡ remove pin (slice cs i (suc n))
slice-closed cs i zero pin k h found = elim (Bool-cases (get_or cs i 0 == pin)) [
  | inl hit ↦
      slice_nil (for_range k (i + 0 - k) shift cs) cs i (suc i)
      ∙ sym (search_hit cs i 0 pin k hit found).1
  | inr miss ↦ none_found cs (suc i) pin k (search_miss cs i 0 pin k miss found).0
]
slice-closed cs i (suc n) pin k h found = elim (Bool-cases (get_or cs i 0 == pin)) [
  | inl hit ↦
      let s = search_hit cs i (suc n) pin k hit found in
      subst
        (λ (j : ℕ).
          slice (for_range j (i + suc n - j) shift cs) i (suc n) ≡ slice cs (suc i) (suc n))
        s.0 (slice-closed_hit cs i (suc n) h)
      ∙ sym s.1
  | inr miss ↦
      let s = search_miss cs i (suc n) pin k miss found in
      let r : suc i ≤ k =
        (subst (Range (suc i) (suc n)) s.0 (channel_index_from-Range cs (suc i) (suc n) pin)).0 in
      let same : suc i + n - k ≡ i + suc n - k = omega arith in
      let hi : k < suc i + suc n =
        (subst (Range (suc i) (suc n)) s.0 (channel_index_from-Range cs (suc i) (suc n) pin)).1 in
      slice_cons (for_range k (i + suc n - k) shift cs) i n
      ∙ ap₂ ◌∷◌ (get_or-shifted_low k (i + suc n - k) cs i (omega arith) (omega arith)) (
          subst
            (λ (m : ℕ).
              slice (for_range k m shift cs) (suc i) n ≡ remove pin (slice cs (suc i) (suc n)))
            same (slice-closed cs (suc i) n pin k (omega arith) s.0))
      ∙ sym s.1
]

pub slice-close_gap :
    (cs : List ℕ) (n pin k : ℕ)
    → n ≤ length cs
    → channel_index_from cs 0 n pin ≡ some k
    → slice (close_gap cs k n) 0 (n - 1) ≡ remove pin (slice cs 0 n)
slice-close_gap cs zero pin k h found = none_found cs 0 pin k found
slice-close_gap cs (suc n) pin k h found =
    unfold close_gap in
    ap (λ (m : ℕ). slice (for_range k (m - k) shift cs) 0 m)
      (let e : suc n - 1 ≡ n = omega arith in e)
    ∙ ap (λ (m : ℕ). slice (for_range k (m - k) shift cs) 0 n)
        (let e : n ≡ 0 + n = omega arith in e)
    ∙ slice-closed cs 0 n pin k (omega arith) found
