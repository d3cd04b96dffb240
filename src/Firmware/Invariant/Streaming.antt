-- ===== src/Firmware/Invariant/Streaming.antt =====
-- What stream_poll and a PIN_MODE of src/UsbIo.cpp keep of the selection and of the ring of
-- records.
use arduino_driver.Prelude.{
  ℕ, zero, suc, ◌+◌, ◌≤◌, ◌<◌, ◌≡◌, refl, ◌∙◌, true, List, arith, u8, ltb, ◌==◌, length, ◌-◌,
  Bool-cases, u16, inl, inr,
}
use arduino_driver.Firmware.Board.{Board, Core, WriteResult, sent, busy, failed}
use arduino_driver.Firmware.Out.{stop_if_selected}
use arduino_driver.Firmware.Ring.{IsValid, front, pending}
use arduino_driver.Firmware.Ring.Fifo.{put-IsValid, advance-IsValid, pending-advance}
use arduino_driver.Firmware.Sample.{
  push_record, apply_start, next_deadline, pack_one, clear_packet, write_failed, after_write,
  pack_loop,
}
use arduino_driver.Firmware.Select.Slice.{times}
use arduino_driver.Firmware.Select.Selection.{IsSelection, selected}
use arduino_driver.Firmware.State.{Streaming, zeroed_record}

-- The selection is sound, each selected pin exists, and so is the ring of records.
pub record IsStreaming (n_pins : ℕ) (s : Streaming) : Type 0 where
  pub selection : IsSelection s
  pub chosen : (pin : ℕ) → 0 < times pin (selected s) → pin < n_pins
  pub records : IsValid s.ring

-- `after` has the selection of `s`, runs only if `s` does, and has a sound ring if `s` has.
pub record Follows (s after : Streaming) : Type 0 where
  pub channels : after.channels ≡ s.channels
  pub n_channels : after.n_channels ≡ s.n_channels
  pub running : after.running ≡ true → s.running ≡ true
  pub records : IsValid s.ring → IsValid after.ring

pub Follows-trans : {s t u : Streaming} → Follows s t → Follows t u → Follows s u
Follows-trans f g = record {
  channels = g.channels ∙ f.channels;
  n_channels = g.n_channels ∙ f.n_channels;
  running = λ h. f.running (g.running h);
  records = λ v. g.records (f.records v);
}

-- The same selection with a sound ring, running with a selection only.
pub same-IsStreaming :
    {n_pins : ℕ} {s after : Streaming}
    → IsStreaming n_pins s
    → after.channels ≡ s.channels
    → after.n_channels ≡ s.n_channels
    → (after.running ≡ true → 0 < s.n_channels)
    → IsValid after.ring
    → IsStreaming n_pins after
same-IsStreaming {n_pins} {s} {after} v channels n_channels sampling records =
    let pins : selected after ≡ selected s = rw (channels, n_channels) refl in
    record {
      selection = record {
        full_length = rw channels v.selection.full_length;
        bounded = rw n_channels v.selection.bounded;
        distinct = λ pin. rw pins (v.selection.distinct pin);
        sampling = λ h. rw n_channels (sampling h);
      };
      chosen = λ pin. rw pins (v.chosen pin);
      records = records;
    }

pub Follows-IsStreaming :
    {n_pins : ℕ} {s after : Streaming}
    → IsStreaming n_pins s
    → Follows s after
    → IsStreaming n_pins after
Follows-IsStreaming v f =
    same-IsStreaming v f.channels f.n_channels (λ h. v.selection.sampling (f.running h))
      (f.records v.records)

pub stop_if_selected-Follows :
    (b : Board) (s : Streaming) (pin : ℕ) → Follows s (stop_if_selected b s pin)
unfolding stop_if_selected
stop_if_selected-Follows b s pin = record {
  channels = ground arith;
  n_channels = ground arith;
  running = λ h. ground arith;
  records = λ v. ground arith;
}

pub push_record-Follows : (s : Streaming) (bytes : List ℕ) → Follows s (push_record s bytes)
unfolding push_record
push_record-Follows s bytes = record {
  channels = ground arith;
  n_channels = ground arith;
  running = λ h. ground arith;
  records = λ v.
      ground
        (arith, put-IsValid {r = s.ring} (record { len = u8 (length bytes); bytes = bytes }) v);
}

pub apply_start-Follows : (s : Streaming) (now : ℕ) → Follows s (apply_start s now)
unfolding apply_start
apply_start-Follows s now = record {
  channels = refl;
  n_channels = refl;
  running = λ h. h;
  records = λ v. record {
    full_length = v.full_length;
    head_byte = omega arith;
    tail_byte = omega arith;
    bounded = omega arith;
  };
}

pub next_deadline-Follows : (s : Streaming) (now : ℕ) → Follows s (next_deadline s now)
unfolding next_deadline
next_deadline-Follows s now = record {
  channels = ground arith;
  n_channels = ground arith;
  running = λ h. ground arith;
  records = λ v. ground arith;
}

pub after_write-Follows : (s : Streaming) (result : WriteResult) → Follows s (after_write s result)
unfolding after_write clear_packet write_failed
after_write-Follows s sent = record {
  channels = refl;
  n_channels = refl;
  running = λ h. h;
  records = λ v. v;
}
after_write-Follows s busy = record {
  channels = refl;
  n_channels = refl;
  running = λ h. h;
  records = λ v. v;
}
after_write-Follows s failed = record {
  channels = ground arith;
  n_channels = ground arith;
  running = λ h. ground arith;
  records = λ v. ground (
    arith,
    let r : IsValid (record (s.ring) { tail = s.ring.head }) = record {
      full_length = v.full_length;
      head_byte = v.head_byte;
      tail_byte = v.head_byte;
      bounded = omega arith;
    } in
        r,
  );
}

pack_one-Follows : (s : Streaming) → IsValid s.ring → 0 < pending s.ring → Follows s (pack_one s)
unfolding pack_one
pack_one-Follows s v some_left = record {
  channels = refl;
  n_channels = refl;
  running = λ h. h;
  records = λ v. advance-IsValid v some_left;
}

pack_one-pending :
    (s : Streaming)
    → IsValid s.ring
    → 0 < pending s.ring
    → pending (pack_one s).ring ≡ pending s.ring - 1
unfolding pack_one
pack_one-pending s v some_left = omega (arith, pending-advance s.ring v some_left)

-- The first record of a packet notes the time.
touch-Follows : (s : Streaming) (now : ℕ) → Follows s (record s { packet_since_us = now })
touch-Follows s now = record {
  channels = refl;
  n_channels = refl;
  running = λ h. h;
  records = λ v. v;
}

pub pack_loop-Follows :
    (b : Board) (c : Core) (packet_max rounds : ℕ) (s : Streaming) (w : c.World)
    → IsValid s.ring
    → rounds ≤ pending s.ring
    → Follows s (pack_loop b c packet_max rounds (s, w)).0
unfolding pack_loop
pack_loop-Follows b c packet_max zero s w v h = record {
  channels = refl;
  n_channels = refl;
  running = λ h. h;
  records = λ v. v;
}
pack_loop-Follows b c packet_max (suc rounds) s w v h =
    let n = u16 (length s.packet + (front zeroed_record s.ring).len) in
    let touched = record s { packet_since_us = (c.micros w).0 } in
    let rest =
      λ (t : Streaming) (u : c.World) (valid : IsValid t.ring) (left : suc rounds ≤ pending t.ring).
        Follows-trans (pack_one-Follows t valid (omega arith)) (
          pack_loop-Follows b c packet_max rounds (pack_one t) u
            ((pack_one-Follows t valid (omega arith)).records valid)
            (omega (arith, pack_one-pending t valid (omega arith)))) in
    elim (Bool-cases (ltb packet_max n)) [
      | inl over ↦
          rw over
            (record { channels = refl; n_channels = refl; running = λ h. h; records = λ v. v })
      | inr fits ↦ rw fits (elim (Bool-cases (length s.packet == 0)) [
        | inl first ↦
            rw first
              (Follows-trans (touch-Follows s (c.micros w).0) (rest touched (c.micros w).1 v h))
        | inr later ↦ rw later (rest s w v h)
      ])
    ]
