-- ===== src/Firmware/Ring/Fifo.antt =====
-- A valid ring is a FIFO of at most 32 entries: `put` appends, `advance` drops the oldest.
use arduino_driver.Prelude.{
  ℕ, zero, suc, ◌+◌, ◌%◌, ◌<◌, ◌≡◌, ◌≢◌, refl, ap, ap₂, ◌∙◌, List, [], ◌∷◌, ◌++◌, arith, u8, u8_sub,
  set, length, length-set, get_or-set_self, get_or-set_ne, sym,
}
use arduino_driver.Prelude.Bits.{mask_31}
use arduino_driver.Firmware.Ring.{
  Ring, IsValid, slot_of, pending, put, front, advance, window, to_list,
}

slot_of-eq : (i : ℕ) → i < 256 → slot_of i ≡ i % 32
unfolding slot_of
slot_of-eq i h = mask_31 i h

-- Fewer than 32 steps round the ring do not come back to a slot.
pub slot_of-ne : (t n : ℕ) → t < 256 → suc n < 32 → slot_of (u8 (t + suc n)) ≢ slot_of t
slot_of-ne t n ht hn e =
    omega (arith, slot_of-eq t ht, slot_of-eq (u8 (t + suc n)) (omega arith), e)

module _ {ℓ} {A : Type ℓ} where
  pub length-window : (zeroed : A) (slots : List A) (t n : ℕ) → length (window zeroed slots t n) ≡ n
  unfolding window
  length-window zeroed slots t zero = refl
  length-window zeroed slots t (suc n) = ap suc (length-window zeroed slots (u8 (t + 1)) n)

  pub length-to_list : (zeroed : A) (r : Ring A) → length (to_list zeroed r) ≡ pending r
  unfolding to_list
  length-to_list zeroed r = length-window zeroed r.slots r.tail (pending r)

  pub put-IsValid : {r : Ring A} (x : A) → IsValid r → pending r < 32 → IsValid (put r x)
  unfolding put
  put-IsValid {r} x v h = record {
    full_length = length-set r.slots (slot_of r.head) x ∙ v.full_length;
    head_byte = omega arith;
    tail_byte = v.tail_byte;
    bounded = omega arith;
  }

  pub advance-IsValid : {r : Ring A} → IsValid r → 0 < pending r → IsValid (advance r)
  unfolding advance
  advance-IsValid v h = record {
    full_length = v.full_length;
    head_byte = v.head_byte;
    tail_byte = omega arith;
    bounded = omega arith;
  }

  -- Writing just past a window extends it.
  window-set :
      (zeroed : A) (slots : List A) (t n : ℕ) (x : A) (i : ℕ)
      → length slots ≡ 32
      → t < 256
      → n < 32
      → i ≡ slot_of (u8 (t + n))
      → window zeroed (set slots i x) t (suc n) ≡ window zeroed slots t n ++ x ∷ []
  unfolding window
  window-set zeroed slots t zero x i hl ht hn e =
      rw (e, shift, get_or-set_self slots (slot_of t) x zeroed (omega (arith, slot_of-eq t ht)))
    where
      shift : u8 (t + 0) ≡ t
      shift = omega arith
  window-set zeroed slots t (suc n) x i hl ht hn e =
      ap₂ ◌∷◌ (get_or-set_ne slots i (slot_of t) x zeroed (λ p. slot_of-ne t n ht hn (sym e ∙ p))) (
        window-set zeroed slots (u8 (t + 1)) n x i hl (omega arith) (omega arith)
          (e ∙ ap slot_of shift))
    where
      shift : u8 (t + suc n) ≡ u8 (u8 (t + 1) + n)
      shift = omega arith

  pub to_list-put :
      (zeroed : A) (r : Ring A) (x : A)
      → IsValid r
      → pending r < 32
      → to_list zeroed (put r x) ≡ to_list zeroed r ++ x ∷ []
  unfolding to_list put
  to_list-put zeroed r x v h = rw (grows) (
      window-set zeroed r.slots r.tail (pending r) x (slot_of r.head) v.full_length v.tail_byte h
        (ap slot_of (sym reach)))
    where
      grows : u8_sub (u8 (r.head + 1)) r.tail ≡ suc (pending r)
      grows = omega (arith, v.head_byte, v.tail_byte)

      reach : u8 (r.tail + pending r) ≡ r.head
      reach = omega (arith, v.head_byte, v.tail_byte)

  pub to_list-advance :
      (zeroed : A) (r : Ring A)
      → IsValid r
      → 0 < pending r
      → to_list zeroed r ≡ front zeroed r ∷ to_list zeroed (advance r)
  unfolding to_list front advance
  to_list-advance zeroed r v h = rw shrinks
    where
      shrinks : pending r ≡ suc (u8_sub r.head (u8 (r.tail + 1)))
      shrinks = omega (arith, v.head_byte, v.tail_byte)

  pub to_list-empty : (zeroed : A) (r : Ring A) → pending r ≡ 0 → to_list zeroed r ≡ []
  unfolding to_list
  to_list-empty zeroed r h = rw h

  pub slot_of-lt : (slots : List A) (t : ℕ) → length slots ≡ 32 → t < 256 → slot_of t < length slots
  slot_of-lt slots t hl ht = omega (arith, slot_of-eq t ht)

  -- A write to the slot just before a window of at most 31 entries leaves the window alone.
  pub window-set_before :
      (zeroed : A) (slots : List A) (t k n : ℕ) (x : A)
      → t < 256
      → k + n < 32
      → window zeroed (set slots (slot_of t) x) (u8 (t + suc k)) n
        ≡ window zeroed slots (u8 (t + suc k)) n
  unfolding window
  window-set_before zeroed slots t k zero x ht h = refl
  window-set_before zeroed slots t k (suc n) x ht h =
      ap₂ ◌∷◌
        (get_or-set_ne slots (slot_of t) (slot_of (u8 (t + suc k))) x zeroed
          (λ e. slot_of-ne t k ht (omega arith) (sym e)))
        (rw (let step : u8 (u8 (t + suc k) + 1) ≡ u8 (t + suc (suc k)) = omega arith in step)
          (window-set_before zeroed slots t (suc k) n x ht (omega arith)))

  pub pending-advance :
      (r : Ring A) → IsValid r → 0 < pending r → pending r ≡ suc (pending (advance r))
  unfolding advance
  pending-advance r v h = omega (arith, v.head_byte, v.tail_byte)

  pub pending-put :
      (r : Ring A) (x : A) → IsValid r → pending r < 32 → pending (put r x) ≡ suc (pending r)
  unfolding put
  pending-put r x v h = omega (arith, v.head_byte, v.tail_byte)
