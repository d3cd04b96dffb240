-- ===== src/Host/Stream/Ready.antt =====
-- The queue of decoded records in extras/driver/src/Stream.cpp: deliver and read.
use arduino_driver.Prelude.{
  ℕ, suc, ◌+◌, ◌-◌, ◌≤◌, ◌<◌, ◌≡◌, refl, sym, ap, ◌∙◌, List, [], ◌∷◌, ◌++◌, arith, length, drop,
  take, get_or, ◌⊎◌, length-append, length-drop, leb, ltb, drop-nil, drop-cons, Bool-cases, inl,
  inr,
}
use arduino_driver.Host.Stream.Chunks.{drop-append}
use arduino_driver.Host.Stream.{Session, Worker, Sample, make_room, deliver, read}

make_room_lem :
    (capacity : ℕ) (ready : List (List Sample)) (drops : ℕ)
    → 0 < capacity
    → let over = suc (length ready) - capacity in
      let (kept, after) = make_room capacity ready drops in
      (kept ≡ drop over ready) × (after ≡ drops + over)
unfolding make_room
make_room_lem capacity [] drops some = (sym (drop-nil (List Sample) (1 - capacity)), omega arith)
make_room_lem capacity (r ∷ rs) drops some =
    let h = make_room_lem capacity rs (drops + 1) some in
    let over = suc (length (r ∷ rs)) - capacity in
    elim (Bool-cases (leb capacity (length (r ∷ rs)))) [
      | inl full ↦ rw full (
        h.0
            ∙ ap (λ (n : ℕ). drop n rs)
                (let e : suc (length rs) - capacity ≡ over - 1 = omega arith in e)
            ∙ sym (drop-cons over r rs (ground arith)),
        ground (arith, h.1),
      )
      | inr room ↦
          rw room
            (ap (λ (n : ℕ). drop n (r ∷ rs)) (let e : 0 ≡ over = ground arith in e), ground arith)
    ]

-- With room for at least one record, a delivery puts the record behind those that wait and drops the oldest
-- as far as the capacity is exceeded, counting each; the queue never holds more than the capacity.
pub deliver_lem :
    (c : Session) (samples : List Sample) (w : Worker)
    → 0 < c.queue_capacity
    → let over = suc (length w.ready) - c.queue_capacity in
      let after = deliver c samples w in
      (after.ready ≡ drop over (w.ready ++ samples ∷ []))
      × (after.stats.host_drops ≡ w.stats.host_drops + over)
      × (length after.ready ≤ c.queue_capacity)
unfolding deliver
deliver_lem c samples w some =
    let over = suc (length w.ready) - c.queue_capacity in
    let h = make_room_lem c.queue_capacity w.ready w.stats.host_drops some in
    let kept = (make_room c.queue_capacity w.ready w.stats.host_drops).0 in
    let short : length kept ≡ length w.ready - over = ap length h.0 ∙ length-drop over w.ready in
    (
      ap (λ (rs : List (List Sample)). rs ++ samples ∷ []) h.0
          ∙ sym (drop-append over w.ready (samples ∷ []) (omega arith)),
      h.1,
      omega (arith, length-append kept (samples ∷ []), short),
    )

-- The samples of the records, one after the other.
unfoldable pub flatten : List (List Sample) → List Sample
flatten [] = []
flatten (r ∷ rs) = r ++ flatten rs

-- A read copies the samples of the oldest records, each of them in full and in order, and leaves the other
-- records as they are. It copies no more samples than there is room for, and stops only when no record waits
-- or the next one is longer than the room that is left.
pub read_lem :
    (room : ℕ) (ready : List (List Sample))
    → let (copied, left) = read room ready in
      (k : ℕ) × (copied ≡ flatten (take k ready))
      × (left ≡ drop k ready)
      × (length copied ≤ room)
      × ((left ≡ []) ⊎ (room < length copied + length (get_or left 0 [])))
unfolding read flatten
read_lem room [] = (0, refl, refl, omega arith, inl refl)
read_lem room (front ∷ ready) =
    let h = read_lem (room - length front) ready in
    elim (Bool-cases (ltb room (length front))) [
      | inl full ↦ rw full (0, refl, refl, omega arith, inr (ground arith))
      | inr fits ↦ rw fits (
        suc h.0,
        ap (λ (xs : List Sample). front ++ xs) h.1,
        h.2,
        ground (arith, h.3, length-append front (read (room - length front) ready).0),
        elim h.4 [
          | inl none_left ↦ inl none_left
          | inr long ↦
              inr (ground (arith, long, length-append front (read (room - length front) ready).0))
        ],
      )
    ]
