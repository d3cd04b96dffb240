-- ===== src/Host/Driver/Events/Entries.antt =====
-- The entries of an EVENT_POP reply, from src/UsbIo.cpp to decode_event of Protocol.h.
use arduino_driver.Prelude.{
  ℕ, zero, suc, ◌+◌, ◌*◌, ◌/◌, ◌%◌, ◌≡◌, refl, ap, ap₂, ◌∙◌, List, [], ◌∷◌, ◌++◌, arith, length,
  map, get_or, u8, u16, u32,
}
use arduino_driver.Protocol.Bytes.{read_u8, read_u16le, read_u32le}
use arduino_driver.Protocol.Decode.{PinEvent, decode_event}
use arduino_driver.Protocol.Layout
use arduino_driver.Firmware.Reply.{entry_bytes, concat}
use arduino_driver.Firmware.State.{Event}
use arduino_driver.Host.Driver.Events.{events_from}

-- The event that the host sees; the casts are to the types of the two members.
abbrev pub seen : Event → PinEvent
seen e = record { pin = e.pin; edge = e.edge; seq = u16 e.seq; t_ms = u32 e.t_ms }

pub length-entries : (es : List Event) → length (concat (map entry_bytes es)) ≡ 8 * length es
unfolding Layout.event_bytes
length-entries [] = refl
length-entries (e ∷ es) = omega (arith, length-entries es)

-- Eight bytes further on.
past_eight :
    (a0 a1 a2 a3 a4 a5 a6 a7 : ℕ) (xs : List ℕ) (j k : ℕ)
    → j ≡ 8 + k
    → get_or (a0 ∷ a1 ∷ a2 ∷ a3 ∷ a4 ∷ a5 ∷ a6 ∷ a7 ∷ xs) j 0 ≡ get_or xs k 0
past_eight a0 a1 a2 a3 a4 a5 a6 a7 xs j k e =
    ap (λ (m : ℕ). get_or (a0 ∷ a1 ∷ a2 ∷ a3 ∷ a4 ∷ a5 ∷ a6 ∷ a7 ∷ xs) m 0)
      (let f : j ≡ suc (suc (suc (suc (suc (suc (suc (suc k))))))) = omega arith in f)

decode_event-past :
    (a0 a1 a2 a3 a4 a5 a6 a7 : ℕ) (xs : List ℕ) (i : ℕ)
    → decode_event (a0 ∷ a1 ∷ a2 ∷ a3 ∷ a4 ∷ a5 ∷ a6 ∷ a7 ∷ xs) (suc i) ≡ decode_event xs i
unfolding decode_event read_u8 read_u16le read_u32le
decode_event-past a0 a1 a2 a3 a4 a5 a6 a7 xs i =
    let at = past_eight a0 a1 a2 a3 a4 a5 a6 a7 xs in
    let far = 4 + 8 * suc i in
    let near = 4 + 8 * i in
    rw
      (
        at far near (omega arith),
        at (far + 1) (near + 1) (omega arith),
        at (far + 2) (near + 2) (omega arith),
        at (far + 2 + 1) (near + 2 + 1) (omega arith),
        at (far + 4) (near + 4) (omega arith),
        at (far + 4 + 1) (near + 4 + 1) (omega arith),
        at (far + 4 + 2) (near + 4 + 2) (omega arith),
        at (far + 4 + 2 + 1) (near + 4 + 2 + 1) (omega arith),
      )
      refl

events_from-past :
    (a0 a1 a2 a3 a4 a5 a6 a7 : ℕ) (xs : List ℕ) (i n : ℕ)
    → events_from (a0 ∷ a1 ∷ a2 ∷ a3 ∷ a4 ∷ a5 ∷ a6 ∷ a7 ∷ xs) (suc i) n ≡ events_from xs i n
unfolding events_from
events_from-past a0 a1 a2 a3 a4 a5 a6 a7 xs i zero = refl
events_from-past a0 a1 a2 a3 a4 a5 a6 a7 xs i (suc n) =
    ap₂ ◌∷◌ (decode_event-past a0 a1 a2 a3 a4 a5 a6 a7 xs i)
      (events_from-past a0 a1 a2 a3 a4 a5 a6 a7 xs (suc i) n)

-- The host reads the events back from behind any header.
pub events_from-entries :
    (h0 h1 h2 h3 : ℕ) (es : List Event) (rest : List ℕ)
    → events_from (h0 ∷ h1 ∷ h2 ∷ h3 ∷ (concat (map entry_bytes es) ++ rest)) 0 (length es)
      ≡ map seen es
unfolding events_from Layout.event_bytes decode_event read_u8 read_u16le read_u32le
events_from-entries h0 h1 h2 h3 [] rest = refl
events_from-entries h0 h1 h2 h3 (e ∷ es) rest = ap₂ ◌∷◌ (ground arith) (
    events_from-past h0 h1 h2 h3 e.pin e.edge (e.seq % 256) (u8 (e.seq / 256))
      (e.t_ms % 256
        ∷ u8 (e.t_ms / 256)
        ∷ u8 (e.t_ms / 65536)
        ∷ u8 (e.t_ms / 16777216)
        ∷ (concat (map entry_bytes es) ++ rest))
      0 (length es)
    ∙ events_from-entries (e.t_ms % 256) (u8 (e.t_ms / 256)) (u8 (e.t_ms / 65536))
        (u8 (e.t_ms / 16777216)) es rest)
