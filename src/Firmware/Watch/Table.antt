-- ===== src/Firmware/Watch/Table.antt =====
-- The watch table of src/UsbIo.cpp as a set of at most eight pins: event_watch_index,
-- find_free_event_slot, and the changes that handle_event_config, PIN_MODE and RESET make.
use arduino_driver.Prelude.{
  ℕ, suc, ◌+◌, ◌≤◌, ◌<◌, ◌≡◌, refl, Bool, true, false, Option, none, some, List, [], ◌∷◌, arith,
  not, inl, inr, Bool-cases, get_or, length, subst,
}
use arduino_driver.Prelude.Tally.{tally, unit_of-le-tally}
use arduino_driver.Firmware.State.{EventWatch, Events, zeroed_watch}
use arduino_driver.Firmware.Watch.{
  watches, watch_index_from, event_watch_index, free_slot_from, find_free_event_slot,
}

abbrev pub is_active : EventWatch → Bool
is_active w = w.active

-- How many slots watch the pin; in a valid table, 1 or 0.
abbrev pub slots_of : Events → ℕ → ℕ
slots_of e pin = tally (λ (w : EventWatch). watches w pin) e.watch

-- The counter counts the slots in use, and no pin has two.
pub record IsTable (e : Events) : Type 0 where
  pub full_length : length e.watch ≡ 8
  pub counted : e.n_watched ≡ tally is_active e.watch
  pub distinct : (pin : ℕ) → slots_of e pin ≤ 1

-- Slot `i`, in a table whose first slot has the number `first`, passes the test.
record At (test : EventWatch → Bool) (first : ℕ) (ws : List EventWatch) (i : ℕ) : Type 0 where
  k : ℕ
  number : i ≡ first + k
  below : k < length ws
  passes : test (get_or ws k zeroed_watch) ≡ true

At-suc :
    {test : EventWatch → Bool} {first : ℕ} {w : EventWatch} {ws : List EventWatch} {i : ℕ}
    → At test (suc first) ws i
    → At test first (w ∷ ws) i
At-suc a = record {
  k = suc a.k;
  number = omega (arith, a.number);
  below = omega (arith, a.below);
  passes = a.passes;
}

-- What the search for a pin finds.
abbrev Found : ℕ → List EventWatch → ℕ → Option ℕ → Type 0
Found first ws pin none = tally (λ (w : EventWatch). watches w pin) ws ≡ 0
Found first ws pin (some i) = At (λ (w : EventWatch). watches w pin) first ws i

Found-suc :
    (first : ℕ) (w : EventWatch) (ws : List EventWatch) (pin : ℕ) (found : Option ℕ)
    → watches w pin ≡ false
    → Found (suc first) ws pin found
    → Found first (w ∷ ws) pin found
unfolding tally
Found-suc first w ws pin none h f = ground arith
Found-suc first w ws pin (some i) h f = At-suc f

watch_index_from-Found :
    (first : ℕ) (ws : List EventWatch) (pin : ℕ)
    → Found first ws pin (watch_index_from first ws pin)
unfolding watch_index_from
watch_index_from-Found first [] pin = unfold tally in refl
watch_index_from-Found first (w ∷ ws) pin = elim (Bool-cases (watches w pin)) [
  | inl hit ↦ rw hit (record { k = 0; number = omega arith; below = omega arith; passes = hit })
  | inr miss ↦ rw miss (Found-suc first w ws pin _ miss (watch_index_from-Found (suc first) ws pin))
]

free_slot_from-At :
    (first : ℕ) (ws : List EventWatch)
    → tally is_active ws < length ws
    → At (λ (w : EventWatch). not w.active) first ws (free_slot_from first ws)
unfolding free_slot_from
free_slot_from-At first [] h = absurd (omega arith)
free_slot_from-At first (w ∷ ws) h = elim (Bool-cases (not w.active)) [
  | inl hit ↦ rw hit (record { k = 0; number = omega arith; below = omega arith; passes = hit })
  | inr miss ↦ rw miss (At-suc (free_slot_from-At (suc first) ws (unfold tally in ground arith)))
]

At-0 :
    {test : EventWatch → Bool} {ws : List EventWatch} {i : ℕ}
    → At test 0 ws i
    → (i < length ws) × (test (get_or ws i zeroed_watch) ≡ true)
At-0 {test} {ws} {i} a =
    subst (λ (j : ℕ). (j < length ws) × (test (get_or ws j zeroed_watch) ≡ true))
      (let e : a.k ≡ i = omega (arith, a.number) in e) (a.below, a.passes)

-- The slot that a lookup returns watches the pin.
pub slot_of_index :
    (e : Events) (pin i : ℕ)
    → event_watch_index e pin ≡ some i
    → (i < length e.watch) × (watches (get_or e.watch i zeroed_watch) pin ≡ true)
unfolding event_watch_index
slot_of_index e pin i h =
    At-0 (subst (Found 0 e.watch pin) h (watch_index_from-Found 0 e.watch pin))

pub no_slot : (e : Events) (pin : ℕ) → event_watch_index e pin ≡ none → slots_of e pin ≡ 0
unfolding event_watch_index
no_slot e pin h = subst (Found 0 e.watch pin) h (watch_index_from-Found 0 e.watch pin)

pub free_slot :
    (e : Events)
    → IsTable e
    → e.n_watched < 8
    → (find_free_event_slot e < length e.watch)
      × (not (get_or e.watch (find_free_event_slot e) zeroed_watch).active ≡ true)
unfolding find_free_event_slot
free_slot e v h = At-0 (free_slot_from-At 0 e.watch (omega (arith, v.full_length, v.counted)))

pub one_slot :
    (e : Events) (pin i : ℕ) → IsTable e → event_watch_index e pin ≡ some i → slots_of e pin ≡ 1
one_slot e pin i v h =
    let s = slot_of_index e pin i h in
    ground (
      arith,
      unit_of-le-tally (λ (w : EventWatch). watches w pin) e.watch i zeroed_watch s.0,
      v.distinct pin,
      s.1,
    )
