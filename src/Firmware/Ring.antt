-- ===== src/Firmware/Ring.antt =====
-- The single-producer single-consumer rings of UsbIo.cpp: _queue with _head and _tail, _event_ring
-- with _event_head and _event_tail, and _stream_ring with _stream_head and _stream_tail. All three
-- have 32 slots and free-running uint8_t indices, masked by 31 to find a slot.
pub mod Fifo
use arduino_driver.Prelude.{
  ℕ, zero, suc, ◌+◌, ◌-◌, ◌%◌, ◌≤◌, ◌<◌, ◌≡◌, ◌≢◌, refl, ap, ap₂, ◌∙◌, List, [], ◌∷◌, ◌++◌, Bool,
  arith, u8, u8_sub, leb, get_or, set, length, length-set, bit_and,
}
use arduino_driver.Prelude.Bits.{mask_31}

pub record Ring {ℓ} (A : Type ℓ) : Type ℓ where
  pub slots : List A
  pub head : ℕ
  pub tail : ℕ

-- `index & (depth - 1)`: QueueMask, EventQueueMask, StreamRingDepth - 1.
unfoldable pub slot_of : ℕ → ℕ
slot_of index = bit_and index 31

module _ {ℓ} {A : Type ℓ} where
  -- `(uint8_t)(head - tail)`
  abbrev pub pending : Ring A → ℕ
  pending r = u8_sub r.head r.tail

  abbrev pub is_full : Ring A → Bool
  is_full r = leb 32 (pending r)

  -- The producer fills the slot, then publishes it by the bump of `head`.
  unfoldable pub put : Ring A → A → Ring A
  put r x = record r { slots = set r.slots (slot_of r.head) x; head = u8 (r.head + 1) }

  -- The consumer's read; the arrays start zeroed, so `zeroed` stands for a slot never written.
  unfoldable pub front : A → Ring A → A
  front zeroed r = get_or r.slots (slot_of r.tail) zeroed

  unfoldable pub advance : Ring A → Ring A
  advance r = record r { tail = u8 (r.tail + 1) }

  pub record IsValid (r : Ring A) : Type ℓ where
    pub full_length : length r.slots ≡ 32
    pub head_byte : r.head < 256
    pub tail_byte : r.tail < 256
    pub bounded : pending r ≤ 32

  module _ (zeroed : A) where
    -- The `n` entries from index `t` on.
    unfoldable pub window : List A → ℕ → ℕ → List A
    window slots t zero = []
    window slots t (suc n) = get_or slots (slot_of t) zeroed ∷ window slots (u8 (t + 1)) n

    -- The entries that are queued, oldest first.
    unfoldable pub to_list : Ring A → List A
    unfolding window
    to_list r = window r.slots r.tail (pending r)
