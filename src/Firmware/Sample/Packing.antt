-- ===== src/Firmware/Sample/Packing.antt =====
-- How stream_poll of src/UsbIo.cpp fills a packet from the ring of records.
use arduino_driver.Prelude.{
  ℕ, zero, suc, ◌+◌, ◌≤◌, ◌<◌, ◌^◌, ◌≡◌, refl, sym, ◌∙◌, ◌⊎◌, inl, inr, List, [], ◌∷◌, ◌++◌, arith,
  ltb, ◌==◌, length, get_or, take, drop, append-nil, ap, length-append, length-take, append_assoc,
  Bool-cases, u16,
}
use arduino_driver.Firmware.Board.{Board, Core}
use arduino_driver.Firmware.Ring.{Ring, IsValid, to_list, front, advance, pending, slot_of}
use arduino_driver.Firmware.Ring.Fifo.{advance-IsValid, pending-advance, to_list-advance}
use arduino_driver.Firmware.Sample.{pack_one, pack_loop}
use arduino_driver.Firmware.State.{Streaming, StreamRecord, zeroed_record}

-- The bytes of the records, one after the other.
unfoldable pub flat : List StreamRecord → List ℕ
flat [] = []
flat (r ∷ rs) = take r.len r.bytes ++ flat rs

-- Every slot's length is a byte.
abbrev pub HasByteLengths : Ring StreamRecord → Type 0
HasByteLengths r = (i : ℕ) → (get_or r.slots i zeroed_record).len < 256

-- The records in the ring, oldest first.
abbrev pub queued : Streaming → List StreamRecord
queued s = to_list zeroed_record s.ring

-- The loop moved the `moved` oldest records to the packet, each as a whole, and the others wait as before.
pub record Packed (packet_max : ℕ) (s after : Streaming) : Type 0 where
  pub moved : ℕ
  pub packet : after.packet ≡ s.packet ++ flat (take moved (queued s))
  pub waiting : queued after ≡ drop moved (queued s)
  pub bounded : length after.packet ≤ packet_max
  pub greedy :
      (pending after.ring ≡ 0)
      ⊎ (packet_max < length after.packet + (front zeroed_record after.ring).len)

-- The record at the front is at most as long as its length says.
pack_one-length :
    (s : Streaming)
    → length (pack_one s).packet ≤ length s.packet + (front zeroed_record s.ring).len
unfolding pack_one
pack_one-length s =
    let r = front zeroed_record s.ring in
    omega (arith, length-append s.packet (take r.len r.bytes), length-take r.len r.bytes)

Packed-step :
    (packet_max : ℕ) (s after : Streaming) (now : ℕ)
    → IsValid s.ring
    → 0 < pending s.ring
    → Packed packet_max (pack_one (record s { packet_since_us = now })) after
    → Packed packet_max s after
unfolding pack_one flat
Packed-step packet_max s after now v some_left p =
    let r = front zeroed_record s.ring in
    let oldest = to_list-advance zeroed_record s.ring v some_left in
    record {
      moved = suc p.moved;
      packet =
          p.packet
          ∙ append_assoc s.packet (take r.len r.bytes)
              (flat (take p.moved (to_list zeroed_record (advance s.ring))))
          ∙ ap (λ (rs : List StreamRecord). s.packet ++ flat (take (suc p.moved) rs)) (sym oldest);
      waiting = p.waiting ∙ ap (λ (rs : List StreamRecord). drop (suc p.moved) rs) (sym oldest);
      bounded = p.bounded;
      greedy = p.greedy;
    }

module _ (b : Board) (c : Core) where
  open c use {World}

  pack_loop-Packed :
      (packet_max rounds : ℕ) (s : Streaming) (w : World)
      → packet_max < 2 ^ 15
      → IsValid s.ring
      → HasByteLengths s.ring
      → length s.packet ≤ packet_max
      → rounds ≡ pending s.ring
      → Packed packet_max s (pack_loop b c packet_max rounds (s, w)).0
  unfolding pack_loop flat
  pack_loop-Packed packet_max zero s w small v lens fits e = record {
    moved = 0;
    packet = sym (append-nil s.packet);
    waiting = refl;
    bounded = fits;
    greedy = inl (sym e);
  }
  pack_loop-Packed packet_max (suc rounds) s w small v lens fits e =
      let some_left : 0 < pending s.ring = omega arith in
      let len = (front zeroed_record s.ring).len in
      let len_byte : len < 256 = unfold front in lens (slot_of s.ring.tail) in
      let rest = λ (u : World) (now : ℕ) (room : length s.packet + len ≤ packet_max).
        let t = record s { packet_since_us = now } in
        Packed-step packet_max s (pack_loop b c packet_max rounds (pack_one t, u)).0 now v some_left
          (pack_loop-Packed packet_max rounds (pack_one t) u small
            (unfold pack_one in advance-IsValid v some_left) (unfold pack_one advance in lens)
            (omega (arith, pack_one-length t))
            (unfold pack_one in omega (arith, pending-advance s.ring v some_left))) in
      elim (Bool-cases (ltb packet_max (u16 (length s.packet + len)))) [
        | inl over ↦ rw over (record {
          moved = 0;
          packet = sym (append-nil s.packet);
          waiting = refl;
          bounded = fits;
          greedy = inr (ground arith);
        })
        | inr room ↦ rw room (elim (Bool-cases (length s.packet == 0)) [
          | inl first ↦ rw first (rest (c.micros w).1 (c.micros w).0 (ground arith))
          | inr later ↦ rw later (rest w s.packet_since_us (ground arith))
        ])
      ]

  -- For a valid ring of records whose lengths are bytes, an endpoint that takes fewer than 2 ^ 15
  -- bytes and a packet that it takes: filling the packet moves some number of the oldest records
  -- from the ring behind what the packet holds, in their order and each with all its bytes, and the
  -- other records stay in the ring, unchanged and in order. The packet never grows beyond what the endpoint takes, and
  -- the loop stops only at an empty ring or at a record for which there is no room.
  pub pack_loop_lem :
      (packet_max : ℕ) (s : Streaming) (w : World)
      → packet_max < 2 ^ 15
      → IsValid s.ring
      → HasByteLengths s.ring
      → length s.packet ≤ packet_max
      → Packed packet_max s (pack_loop b c packet_max (pending s.ring) (s, w)).0
  pack_loop_lem packet_max s w small v lens fits =
      pack_loop-Packed packet_max (pending s.ring) s w small v lens fits refl
