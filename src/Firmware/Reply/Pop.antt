-- ===== src/Firmware/Reply/Pop.antt =====
-- EVENT_POP of src/UsbIo.cpp as an operation on the queue of events that can still be delivered.
use arduino_driver.Prelude.{
  ℕ, zero, suc, ◌-◌, ◌≤◌, ◌<◌, ◌≡◌, refl, sym, ap, ◌∙◌, true, false, List, [], ◌∷◌, ◌++◌,
  append_assoc, append-nil, map, arith, length, length-append, take, drop, Bool-cases, inl, inr,
  ◌⊎◌, take-cons, drop-cons, take-nil, drop-nil,
}
use native.Mathlib.Decide.{dec_lt}
use arduino_driver.Firmware.Ring.{Ring, IsValid, front, advance, pending, to_list}
use arduino_driver.Firmware.Ring.Fifo.{
  to_list-advance, to_list-empty, advance-IsValid, pending-advance,
}
use arduino_driver.Firmware.State.{Device, Event, zeroed_event}
use arduino_driver.Firmware.Reply.{
  pop_loop, pop_events, event_pop_answer, pop_cap, replied, concat, entry_bytes,
}
use arduino_driver.Protocol.Layout
use arduino_driver.Protocol.Status
use arduino_driver.Firmware.Watch.Discard.{live, is_live, count_queued_events-length}

-- What a pop leaves: the events taken and the ring, against what was queued.
record Popped (limit : ℕ) (queued taken : List Event) (out : List Event × Ring Event) : Type 0 where
  valid : IsValid out.1
  taken_eq : out.0 ≡ taken ++ take (limit - length taken) queued
  left_eq : live (to_list zeroed_event out.1) ≡ drop (limit - length taken) queued

-- One more event is taken.
Popped-cons :
    (limit : ℕ) (event : Event) (queued taken : List Event) (out : List Event × Ring Event)
    → length taken < limit
    → Popped limit queued (taken ++ event ∷ []) out
    → Popped limit (event ∷ queued) taken out
Popped-cons limit event queued taken out h p = record {
  valid = p.valid;
  taken_eq =
      p.taken_eq
      ∙ (append_assoc taken (event ∷ []) (take (limit - length (taken ++ event ∷ [])) queued)
          ∙ ap (◌++◌ taken)
              (rw fewer (sym (take-cons (limit - length taken) event queued (omega arith)))));
  left_eq =
      p.left_eq ∙ rw fewer (sym (drop-cons (limit - length taken) event queued (omega arith)));
}
  where
    fewer : limit - length (taken ++ event ∷ []) ≡ limit - length taken - 1
    fewer = omega (arith, length-append taken (event ∷ []))

-- The loop stops: nothing is queued, or `limit` events are taken.
Popped-stop :
    (limit : ℕ) (r : Ring Event) (taken : List Event)
    → IsValid r
    → (live (to_list zeroed_event r) ≡ []) ⊎ (limit - length taken ≡ 0)
    → Popped limit (live (to_list zeroed_event r)) taken (taken, r)
Popped-stop limit r taken v (inl e) = record {
  valid = v;
  taken_eq = rw (e, take-nil Event (limit - length taken), append-nil);
  left_eq = rw (e, drop-nil Event (limit - length taken));
}
Popped-stop limit r taken v (inr e) = record {
  valid = v;
  taken_eq = rw (e, append-nil);
  left_eq = rw e;
}

-- One round, by what stands at the front.
pop_loop-alive :
    (limit n : ℕ) (r : Ring Event) (taken : List Event)
    → length taken < limit
    → is_live (front zeroed_event r) ≡ true
    → pop_loop limit (suc n) r taken
      ≡ pop_loop limit n (advance r) (taken ++ front zeroed_event r ∷ [])
unfolding pop_loop
pop_loop-alive limit n r taken h alive = ground arith

pop_loop-buried :
    (limit n : ℕ) (r : Ring Event) (taken : List Event)
    → length taken < limit
    → is_live (front zeroed_event r) ≡ false
    → pop_loop limit (suc n) r taken ≡ pop_loop limit n (advance r) taken
unfolding pop_loop
pop_loop-buried limit n r taken h dead = ground arith

pop_loop-full :
    (limit n : ℕ) (r : Ring Event) (taken : List Event)
    → length taken ≡ limit
    → pop_loop limit n r taken ≡ (taken, r)
unfolding pop_loop
pop_loop-full limit zero r taken h = refl
pop_loop-full limit (suc n) r taken h = ground arith

live-cons : (e : Event) (es : List Event) → is_live e ≡ true → live (e ∷ es) ≡ e ∷ live es
unfolding live
live-cons e es h = ground arith

live-cons_buried : (e : Event) (es : List Event) → is_live e ≡ false → live (e ∷ es) ≡ live es
unfolding live
live-cons_buried e es h = ground arith

live-nil : live [] ≡ []
unfolding live
live-nil = refl

round-Popped :
    (limit n : ℕ) (r : Ring Event) (taken : List Event)
    → IsValid r
    → suc n ≡ pending r
    → length taken < limit
    → ((ts : List Event)
        → length ts ≤ limit
        → Popped limit
            (live (to_list zeroed_event (advance r)))
            ts
            (pop_loop limit n (advance r) ts))
    → Popped limit (live (to_list zeroed_event r)) taken (pop_loop limit (suc n) r taken)
round-Popped limit n r taken v e h rest = elim (Bool-cases (is_live (front zeroed_event r))) [
  | inl alive ↦
      rw
        (
          to_list-advance zeroed_event r v (omega arith),
          live-cons (front zeroed_event r) (to_list zeroed_event (advance r)) alive,
          pop_loop-alive limit n r taken h alive,
        )
        (Popped-cons limit (front zeroed_event r) _ taken _ h (
          rest (taken ++ front zeroed_event r ∷ [])
            (omega (arith, length-append taken (front zeroed_event r ∷ [])))))
  | inr dead ↦
      rw
        (
          to_list-advance zeroed_event r v (omega arith),
          live-cons_buried (front zeroed_event r) (to_list zeroed_event (advance r)) dead,
          pop_loop-buried limit n r taken h dead,
        )
        (rest taken (omega arith))
]

pop_loop-Popped :
    (limit n : ℕ) (r : Ring Event) (taken : List Event)
    → IsValid r
    → n ≡ pending r
    → length taken ≤ limit
    → Popped limit (live (to_list zeroed_event r)) taken (pop_loop limit n r taken)
pop_loop-Popped limit zero r taken v e h =
    unfold pop_loop in
    Popped-stop limit r taken v (inl (ap live (to_list-empty zeroed_event r (sym e)) ∙ live-nil))
pop_loop-Popped limit (suc n) r taken v e h = elim (dec_lt (length taken) limit) [
  | no full ↦
      rw (pop_loop-full limit (suc n) r taken (omega arith))
        (Popped-stop limit r taken v (inr (omega arith)))
  | yes room ↦
      round-Popped limit n r taken v e room (λ ts hts.
        pop_loop-Popped limit n (advance r) ts (advance-IsValid v (omega arith)) left hts)
]
  where
    left : n ≡ pending (advance r)
    left = omega (arith, pending-advance r v (omega arith))

-- A pop of at most `limit` events returns the oldest `limit` of those that can still be delivered, in
-- order, leaves exactly the later ones, and keeps the ring valid.
pub pop_events_lem :
    (r : Ring Event) (limit : ℕ)
    → IsValid r
    → let (taken, r') = pop_events r limit in
      (taken ≡ take limit (live (to_list zeroed_event r)))
      × (live (to_list zeroed_event r') ≡ drop limit (live (to_list zeroed_event r)))
      × IsValid r'
unfolding pop_events
pop_events_lem r limit v =
    let queued = live (to_list zeroed_event r) in
    let whole : limit - 0 ≡ limit = omega arith in
    let p = pop_loop-Popped limit (pending r) r [] v refl (omega arith) in
    (p.taken_eq ∙ ap (λ k. take k queued) whole, p.left_eq ∙ ap (λ k. drop k queued) whole, p.valid)

-- The reply to EVENT_POP, for a valid event ring: with q the events that can still be delivered and
-- k the limit that wIndex asks for (7 for 0 or more than 7), it carries the oldest k of q, their
-- number, the drops since the last pop and the number of events that stay; those stay queued, the
-- drop counter is cleared, and the ring stays valid.
pub event_pop_answer_lem :
    (d : Device) (w_index : ℕ)
    → IsValid d.events.ring
    → let q = live (to_list zeroed_event d.events.ring) in
      let k = pop_cap w_index in
      let r = (pop_events d.events.ring k).1 in
      (event_pop_answer d w_index
        ≡ replied
            (Layout.event_header_bytes Status.ok
                (length (take k q))
                d.events.dropped
                (length (drop k q))
              ++ concat (map entry_bytes (take k q)))
            (record d { events = record (d.events) { ring = r; dropped = 0 } }))
      × (live (to_list zeroed_event r) ≡ drop k q)
      × IsValid r
unfolding event_pop_answer
event_pop_answer_lem d w_index v =
    let p = pop_events_lem d.events.ring (pop_cap w_index) v in
    (
      rw (count_queued_events-length (pop_events d.events.ring (pop_cap w_index)).1 p.2, p.0, p.1),
      p.1,
      p.2,
    )
