-- ===== src/Host/Stream/Chunks.antt =====
-- How the bulk transfers cut the byte stream does not matter to the parsing loop of
-- extras/driver/src/Stream.cpp.
use arduino_driver.Prelude.{
  ℕ, zero, suc, ◌+◌, ◌*◌, ◌≤◌, ◌<◌, ◌^◌, ◌≡◌, refl, sym, ap, ap₂, ◌∙◌, subst, Bool, true, List, [],
  ◌∷◌, ◌++◌, arith, ltb, not, if◌then◌else◌, length, drop, get_or, length-append, length-drop, ◌⊎◌,
  inl, inr, append_assoc,
}
use arduino_driver.Protocol.Bytes.{read_u8, read_u16le, read_u32le}
use arduino_driver.Protocol.Decode.{StreamHeader, decode_stream_header}
use arduino_driver.Protocol.Limit
use arduino_driver.Protocol.Sizes.{stream_record_len}
use arduino_driver.Host.Stream.{
  Session, Worker, Round, wait, go_on, round, parse, feed, read_samples, accept, starts_record,
  is_stale, discard_stale, resynced,
}

pub get_or-append : (xs ys : List ℕ) (i : ℕ) → i < length xs → get_or (xs ++ ys) i 0 ≡ get_or xs i 0
get_or-append [] ys i h = absurd (omega arith)
get_or-append (x ∷ xs) ys zero h = refl
get_or-append (x ∷ xs) ys (suc i) h = get_or-append xs ys i (omega arith)

pub drop-append {ℓ} :
    {A : Type ℓ} (n : ℕ) (xs ys : List A) → n ≤ length xs → drop n (xs ++ ys) ≡ drop n xs ++ ys
drop-append zero xs ys h = refl
drop-append (suc n) [] ys h = absurd (omega arith)
drop-append (suc n) (x ∷ xs) ys h = drop-append n xs ys (omega arith)

read_u16le-append :
    (xs ys : List ℕ) (i : ℕ) → i + 2 ≤ length xs → read_u16le (xs ++ ys) i ≡ read_u16le xs i
unfolding read_u16le read_u8
read_u16le-append xs ys i h =
    omega (arith, get_or-append xs ys i (omega arith), get_or-append xs ys (i + 1) (omega arith))

read_u32le-append :
    (xs ys : List ℕ) (i : ℕ) → i + 4 ≤ length xs → read_u32le (xs ++ ys) i ≡ read_u32le xs i
unfolding read_u32le
read_u32le-append xs ys i h =
    omega (
      arith,
      read_u16le-append xs ys i (omega arith),
      read_u16le-append xs ys (i + 2) (omega arith),
    )

decode-append :
    (xs ys : List ℕ) → 12 ≤ length xs → decode_stream_header (xs ++ ys) ≡ decode_stream_header xs
unfolding decode_stream_header
decode-append xs ys h =
    rw
      (
        read_u16le-append xs ys 0 (omega arith),
        read_u16le-append xs ys 2 (omega arith),
        read_u32le-append xs ys 4 (omega arith),
        read_u32le-append xs ys 8 (omega arith),
      )
      refl

read_samples-append :
    (xs ys : List ℕ) (i : ℕ) (pins : List ℕ) (t_us : ℕ)
    → 12 + 2 * (i + length pins) ≤ length xs
    → read_samples (xs ++ ys) i pins t_us ≡ read_samples xs i pins t_us
unfolding read_samples
read_samples-append xs ys i [] t_us h = refl
read_samples-append xs ys i (pin ∷ pins) t_us h =
    ap₂ ◌∷◌
      (ap (λ (raw : ℕ). record { pin = pin; raw = raw; t_us = t_us })
        (read_u16le-append xs ys (12 + 2 * i) (omega arith)))
      (read_samples-append xs ys (suc i) pins t_us (omega arith))

pub record_len-ge :
    (n : ℕ) (digital : Bool) (n_pins : ℕ) → 12 + 2 * n ≤ stream_record_len n digital n_pins
unfolding stream_record_len
record_len-ge n digital n_pins = ground arith

accept-append :
    (c : Session) (header : StreamHeader) (xs ys : List ℕ) (w : Worker)
    → 12 + 2 * length c.pins ≤ length xs
    → accept c header (xs ++ ys) w ≡ accept c header xs w
unfolding accept
accept-append c header xs ys w h =
    rw (read_samples-append xs ys 0 c.pins header.t_us (omega arith)) refl

-- The round for a decoded header.
abbrev pub round_at : Session → StreamHeader → List ℕ → Worker → Round
round_at c header head w =
    let len = stream_record_len header.n_samples c.digital c.n_pins in
    if ltb (length head) Limit.stream_header_len
    then wait
    else if not (starts_record c header)
    then go_on 1 (record w { hunting = true })
    else if ltb (length head) len
    then wait
    else if is_stale c header.t_us
    then go_on len (discard_stale (resynced w))
    else go_on len (accept c header head (resynced w))

-- A round that goes on uses at least one byte and no more than there are, and would do the same with more
-- bytes behind.
abbrev Steady : List ℕ → ℕ → Round → Worker → Type 0
Steady xs used longer after = (0 < used) × (used ≤ length xs) × (longer ≡ go_on used after)

round_at-Steady :
    (c : Session) (header : StreamHeader) (xs ys : List ℕ) (w : Worker) (used : ℕ) (after : Worker)
    → length c.pins < 2 ^ 16
    → round_at c header xs w ≡ go_on used after
    → (12 ≤ length xs) × Steady xs used (round_at c header (xs ++ ys) w) after
round_at-Steady c header xs ys w used after few e = ground (
  arith,
  length-append xs ys,
  record_len-ge header.n_samples c.digital c.n_pins,
  accept-append c header xs ys (resynced w),
)

round-Steady :
    (c : Session) (xs ys : List ℕ) (w : Worker) (used : ℕ) (after : Worker)
    → length c.pins < 2 ^ 16
    → round c xs w ≡ go_on used after
    → Steady xs used (round c (xs ++ ys) w) after
unfolding round
round-Steady c xs ys w used after few e =
    let s = round_at-Steady c (decode_stream_header xs) xs ys w used after few e in
    (
      s.1.0,
      s.1.1,
      subst (λ (h : StreamHeader). round_at c h (xs ++ ys) w ≡ go_on used after)
          (sym (decode-append xs ys s.0)) s.1.2,
    )

abbrev after_round : Session → ℕ → List ℕ → Worker → Round → List ℕ × Worker
after_round c fuel xs w wait = (xs, w)
after_round c fuel xs w (go_on used after) = parse c fuel (drop used xs) after

-- The loop by the round that it makes first.
pub parse_wait :
    (c : Session) (fuel : ℕ) (xs : List ℕ) (w : Worker)
    → round c xs w ≡ wait
    → parse c fuel xs w ≡ (xs, w)
unfolding parse
parse_wait c zero xs w e = refl
parse_wait c (suc fuel) xs w e = ap (after_round c fuel xs w) e

pub parse_go :
    (c : Session) (fuel : ℕ) (xs : List ℕ) (w : Worker) (used : ℕ) (after : Worker)
    → round c xs w ≡ go_on used after
    → parse c (suc fuel) xs w ≡ parse c fuel (drop used xs) after
unfolding parse
parse_go c fuel xs w used after e = ap (after_round c fuel xs w) e

-- An empty buffer.
pub round-nil : (c : Session) (w : Worker) → round c [] w ≡ wait
unfolding round
round-nil c w = refl

Round-cases : (r : Round) → (r ≡ wait) ⊎ ((used : ℕ) × (after : Worker) × (r ≡ go_on used after))
Round-cases wait = inl refl
Round-cases (go_on used after) = inr (used, after, refl)

length-drop_used :
    (used : ℕ) (xs : List ℕ) (fuel : ℕ)
    → 0 < used
    → used ≤ length xs
    → length xs ≤ suc fuel
    → length (drop used xs) ≤ fuel
length-drop_used used xs fuel some within h = omega (arith, length-drop used xs)

-- More fuel than bytes changes nothing.
pub parse-fuel :
    (c : Session) (fuel more : ℕ) (xs : List ℕ) (w : Worker)
    → length c.pins < 2 ^ 16
    → length xs ≤ fuel
    → length xs ≤ more
    → parse c fuel xs w ≡ parse c more xs w
parse-fuel c zero more [] w few h k =
    parse_wait c zero [] w (round-nil c w) ∙ sym (parse_wait c more [] w (round-nil c w))
parse-fuel c zero more (x ∷ xs) w few h k = absurd (omega arith)
parse-fuel c (suc fuel) zero [] w few h k =
    parse_wait c (suc fuel) [] w (round-nil c w) ∙ sym (parse_wait c zero [] w (round-nil c w))
parse-fuel c (suc fuel) zero (x ∷ xs) w few h k = absurd (omega arith)
parse-fuel c (suc fuel) (suc more) xs w few h k = elim (Round-cases (round c xs w)) [
  | inl e ↦ parse_wait c (suc fuel) xs w e ∙ sym (parse_wait c (suc more) xs w e)
  | inr (used, after, e) ↦
      let s = round-Steady c xs [] w used after few e in
      parse_go c fuel xs w used after e
      ∙ parse-fuel c fuel more (drop used xs) after few (length-drop_used used xs fuel s.0 s.1 h)
          (length-drop_used used xs more s.0 s.1 k)
      ∙ sym (parse_go c more xs w used after e)
]

-- What is left of `xs` with `ys` behind it.
abbrev behind : List ℕ → List ℕ × Worker → List ℕ × Worker
behind ys (rest, w) = (rest ++ ys, w)

abbrev parse_all : Session → List ℕ × Worker → List ℕ × Worker
parse_all c (buffer, w) = parse c (length buffer) buffer w

parse-append :
    (c : Session) (fuel : ℕ) (xs ys : List ℕ) (w : Worker)
    → length c.pins < 2 ^ 16
    → length xs ≤ fuel
    → parse_all c (behind ys (parse c fuel xs w)) ≡ parse_all c (xs ++ ys, w)
parse-append c zero [] ys w few h =
    ap (λ (s : List ℕ × Worker). parse_all c (behind ys s)) (parse_wait c zero [] w (round-nil c w))
parse-append c zero (x ∷ xs) ys w few h = absurd (omega arith)
parse-append c (suc fuel) xs ys w few h = elim (Round-cases (round c xs w)) [
  | inl e ↦ ap (λ (s : List ℕ × Worker). parse_all c (behind ys s)) (parse_wait c (suc fuel) xs w e)
  | inr (used, after, e) ↦
      let s = round-Steady c xs ys w used after few e in
      let rest = drop used xs in
      let longer : length (xs ++ ys) ≤ suc (length (rest ++ ys) + used) =
        omega (arith, length-append xs ys, length-append rest ys, length-drop used xs) in
      ap (λ (s : List ℕ × Worker). parse_all c (behind ys s)) (parse_go c fuel xs w used after e)
      ∙ parse-append c fuel rest ys after few (length-drop_used used xs fuel s.0 s.1 h)
      ∙ parse-fuel c (length (rest ++ ys)) (length (rest ++ ys) + used) (rest ++ ys) after few
          (omega arith) (omega arith)
      ∙ ap (λ (zs : List ℕ). parse c (length (rest ++ ys) + used) zs after)
          (sym (drop-append used xs ys s.1))
      ∙ sym (parse_go c (length (rest ++ ys) + used) (xs ++ ys) w used after s.2)
      ∙ parse-fuel c (suc (length (rest ++ ys) + used)) (length (xs ++ ys)) (xs ++ ys) w few longer
          (omega arith)
]

-- For a session of fewer than 2 ^ 16 pins, two transfers, however they cut the bytes, leave the worker and the
-- buffer that one transfer of all the bytes would leave: every record, resynchronisation, gap and drop
-- is the same.
pub feed-append :
    (c : Session) (first second : List ℕ) (buffer : List ℕ) (w : Worker)
    → length c.pins < 2 ^ 16
    → feed c second (feed c first (buffer, w)) ≡ feed c (first ++ second) (buffer, w)
unfolding feed
feed-append c first second buffer w few =
    parse-append c (length (buffer ++ first)) (buffer ++ first) second w few (omega arith)
    ∙ ap (λ (xs : List ℕ). parse_all c (xs, w)) (append_assoc buffer first second)
