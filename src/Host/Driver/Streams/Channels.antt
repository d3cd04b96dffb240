-- ===== src/Host/Driver/Streams/Channels.antt =====
-- The selection that start_stream of extras/driver/src/Device.cpp makes on the device of src/UsbIo.cpp.
use arduino_driver.Prelude.{
  ℕ, zero, suc, ◌+◌, ◌<◌, ◌≤◌, ◌≡◌, refl, sym, subst, ap, ◌∙◌, Bool, true, false, not, List, [],
  ◌∷◌, ◌++◌, append_assoc, append-nil, ◌==◌, if◌then◌else◌, arith, Bool-cases, inl, inr, if_cases,
}
use arduino_driver.Prelude.Tally.{tally}
use arduino_driver.Protocol.Errors.{Result, ok, err}
use arduino_driver.Protocol.Request
use arduino_driver.Firmware.Board.{Board}
use arduino_driver.Firmware.Select.Selection.{selected}
use arduino_driver.Firmware.Select.Slice.{times, times-snoc, times-remove, remove, remove_absent}
use arduino_driver.Firmware.State.{Device}
use arduino_driver.Host.Driver.{Driver, Options, Call, send}
use arduino_driver.Host.Driver.Streams.{contains, deselect, deselect_unwanted, deselect_others}
use arduino_driver.Host.Driver.Streams.Distinct.{contains-times}
use arduino_driver.Host.Driver.Streams.Select.{IsIdle, Selects, select-usb}
use arduino_driver.Host.Exec.{attempt_all, when, continue, ◌>>◌}
use arduino_driver.Host.Transfers.Refusal.{usb}

remove-append : (p : ℕ) (xs ys : List ℕ) → times p ys ≡ 0 → remove p (xs ++ ys) ≡ remove p xs ++ ys
unfolding remove
remove-append p [] ys h = remove_absent p ys h
remove-append p (x ∷ xs) ys h = elim (Bool-cases (x == p)) [
  | inl hit ↦ rw hit refl
  | inr miss ↦ rw (miss, remove-append p xs ys h) refl
]

-- The pins are among the selected ones, in this order and behind the others.
abbrev pub EndsWith : List ℕ → Driver Device → Type 0
EndsWith pins d = IsIdle d.link × ((r : List ℕ) × (selected d.link.stream ≡ r ++ pins))

-- No pin of `wanted` is selected.
abbrev pub IsApart : List ℕ → Driver Device → Type 0
IsApart wanted d =
    IsIdle d.link × ((p : ℕ) → 0 < times p wanted → times p (selected d.link.stream) ≡ 0)

module _ (b : Board) (o : Options) (now_ms now_us : ℕ)
    (streams : b.has_stream_transport ≡ true) where
  -- Deselecting a pin that is not wanted.
  deselect-EndsWith :
      (pins : List ℕ) (p : ℕ) (d : Driver Device)
      → times p pins ≡ 0
      → EndsWith pins d
      → EndsWith pins (deselect (usb b now_ms now_us) o p d).1
  deselect-EndsWith pins p d absent (i, (r, e)) =
      by_result (send (usb b now_ms now_us) o Request.stream_select 0 p d).0
        (deselect (usb b now_ms now_us) o p d).1 (select-usb b o now_ms now_us streams d 0 p i)
    where
      by_result :
          (result : Result (Unit {0})) (d' : Driver Device)
          → Selects b o now_ms now_us streams d 0 p (result, d')
          → EndsWith pins d'
      by_result (err x) d' s = (s.0, (r, s.1 ∙ e))
      by_result (ok done) d' s =
          (s.0, (remove p r, s.1 ∙ ap (remove p) e ∙ remove-append p r pins absent))

  -- One round of a loop that deselects the pins that are not wanted.
  pass_by : Bool → ℕ → Driver Device → Driver Device
  pass_by wanted p d = if wanted then d else (deselect (usb b now_ms now_us) o p d).1

  pass_by-when :
      (wanted : Bool) (p : ℕ) (d : Driver Device)
      → when (not wanted) (deselect (usb b now_ms now_us) o p) d ≡ (ok tt, pass_by wanted p d)
  unfolding pass_by
  pass_by-when true p d = refl
  pass_by-when false p d = refl

  -- The loop after that round.
  pass_by-next :
      (rest : Call (usb b now_ms now_us) o (Unit {0})) (wanted : Bool) (p : ℕ) (d : Driver Device)
      → ((when (not wanted) (deselect (usb b now_ms now_us) o p) >> rest) d).1
        ≡ (rest (pass_by wanted p d)).1
  pass_by-next rest wanted p d =
      ap (λ (s : Result (Unit {0}) × Driver Device). (continue (λ done. rest) (s.0) (s.1)).1)
        (pass_by-when wanted p d)

  pub deselect_others-EndsWith :
      (pins : List ℕ) (from n : ℕ) (d : Driver Device)
      → EndsWith pins d
      → EndsWith pins (deselect_others (usb b now_ms now_us) o pins from n d).1
  unfolding deselect_others pass_by
  deselect_others-EndsWith pins from zero d h = h
  deselect_others-EndsWith pins from (suc n) d h =
      subst (EndsWith pins)
        (sym (
          pass_by-next (deselect_others (usb b now_ms now_us) o pins (suc from) n)
            (contains pins from) from d))
        (deselect_others-EndsWith pins (suc from) n (pass_by (contains pins from) from d) (
          if_cases (contains pins from) d (deselect (usb b now_ms now_us) o from d).1
            (EndsWith pins) (λ wanted. h)
            (λ other. deselect-EndsWith pins from d (contains-times pins from other) h)))

  deselect-IsApart :
      (wanted : List ℕ) (p : ℕ) (d : Driver Device)
      → IsApart wanted d
      → IsApart wanted (deselect (usb b now_ms now_us) o p d).1
  deselect-IsApart wanted p d (i, apart) =
      by_result (send (usb b now_ms now_us) o Request.stream_select 0 p d).0
        (deselect (usb b now_ms now_us) o p d).1 (select-usb b o now_ms now_us streams d 0 p i)
    where
      by_result :
          (result : Result (Unit {0})) (d' : Driver Device)
          → Selects b o now_ms now_us streams d 0 p (result, d')
          → IsApart wanted d'
      by_result (err x) d' s = (s.0, λ q h. ap (times q) s.1 ∙ apart q h)
      by_result (ok done) d' s = (
        s.0,
        λ q h.
            let removed = ap (times q) s.1 ∙ times-remove p q (selected d.link.stream) in
            ground (arith, removed, apart q h),
      )

  pub deselect_unwanted-IsApart :
      (wanted pins : List ℕ) (d : Driver Device)
      → IsApart wanted d
      → IsApart wanted (deselect_unwanted (usb b now_ms now_us) o wanted pins d).1
  unfolding deselect_unwanted pass_by
  deselect_unwanted-IsApart wanted [] d h = h
  deselect_unwanted-IsApart wanted (p ∷ pins) d h =
      subst (IsApart wanted)
        (sym (
          pass_by-next (deselect_unwanted (usb b now_ms now_us) o wanted pins) (contains wanted p) p
            d))
        (deselect_unwanted-IsApart wanted pins (pass_by (contains wanted p) p d) (
          if_cases (contains wanted p) d (deselect (usb b now_ms now_us) o p d).1 (IsApart wanted)
            (λ keep. h) (λ other. deselect-IsApart wanted p d h)))

  -- Pins that are selected one after the other, none of them twice or already selected.
  pub select_pins-EndsWith :
      (pins added : List ℕ) (d : Driver Device)
      → IsIdle d.link
      → ((p : ℕ) → 0 < times p pins → times p pins + times p (selected d.link.stream) ≤ 1)
      → let out = attempt_all (send (usb b now_ms now_us) o Request.stream_select 1) pins added d in
        out.0.0 ≡ ok tt
        → IsIdle out.1.link × (selected out.1.link.stream ≡ selected d.link.stream ++ pins)
  unfolding attempt_all tally
  select_pins-EndsWith [] added d i free h = (i, sym (append-nil (selected d.link.stream)))
  select_pins-EndsWith (p ∷ pins) added d i free h =
      by_result (send (usb b now_ms now_us) o Request.stream_select 1 p d).0
        (send (usb b now_ms now_us) o Request.stream_select 1 p d).1
        (select-usb b o now_ms now_us streams d 1 p i)
        (λ d' i' room. select_pins-EndsWith pins (p ∷ added) d' i' room) h
    where
      next :
          (d' : Driver Device) (result : Result (Unit {0}))
          → (Result (Unit {0}) × List ℕ) × Driver Device
      next d' (err e) = ((err e, added), d')
      next d' (ok done) =
          attempt_all (send (usb b now_ms now_us) o Request.stream_select 1) pins (p ∷ added) d'

      by_result :
          (result : Result (Unit {0})) (d' : Driver Device)
          → Selects b o now_ms now_us streams d 1 p (result, d')
          → ((d'' : Driver Device)
              → IsIdle d''.link
              → ((q : ℕ) → 0 < times q pins → times q pins + times q (selected d''.link.stream) ≤ 1)
              → (next d'' (ok tt)).0.0 ≡ ok tt
              → IsIdle (next d'' (ok tt)).1.link
                × (selected (next d'' (ok tt)).1.link.stream ≡ selected d''.link.stream ++ pins))
          → (next d' result).0.0 ≡ ok tt
          → IsIdle (next d' result).1.link
            × (selected (next d' result).1.link.stream ≡ selected d.link.stream ++ p ∷ pins)
      by_result (err e) d' s later k = absurd (ground arith)
      by_result (ok done) d' s later k =
          let alone : times p (selected d.link.stream) ≡ 0 = ground (arith, free p) in
          let grown : selected d'.link.stream ≡ selected d.link.stream ++ p ∷ [] =
            s.1 ∙ rw alone refl in
          let room = λ (q : ℕ) (h : 0 < times q pins).
            let counted = ap (times q) grown ∙ times-snoc p q (selected d.link.stream) in
            let few : times q pins + times q (selected d'.link.stream) ≤ 1 =
              ground (arith, counted, free q) in
            few in
          let rest = later d' s.0 room k in
          (
            rest.0,
            rest.1
                ∙ ap (λ (xs : List ℕ). xs ++ pins) grown
                ∙ append_assoc (selected d.link.stream) (p ∷ []) pins,
          )
