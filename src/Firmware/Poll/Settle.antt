-- ===== src/Firmware/Poll/Settle.antt =====
-- The do-while of poll() in src/UsbIo.cpp, with and without requests that are handled before its test.
use arduino_driver.Prelude.{
  ℕ, zero, suc, List, [], ◌∷◌, ◌≤◌, ◌≡◌, ◌∙◌, ap, length, Bool-cases, inl, inr, u8, ◌+◌, refl, sym,
  subst, false, arith, ◌==◌, if◌then◌else◌,
}
use arduino_driver.Firmware.Board.{Board, Core}
use arduino_driver.Firmware.Poll.{
  State, drain, drain_loop, drain_one, reset_loop, settle, settle_under, arrive, later, apply_reset,
}
use arduino_driver.Firmware.Poll.Drain.{drain_lem}
use arduino_driver.Firmware.Poll.Shadow.{
  execute-OnlyShadow, run_commands-OnlyShadow, apply_reset-OnlyShadow,
}
use arduino_driver.Firmware.Queue.{busy, request_reset}
use arduino_driver.Firmware.Ring.{IsValid, to_list, front, advance, pending}
use arduino_driver.Firmware.State.{Device, zeroed_command}

module _ (b : Board) (c : Core) where
  open c use {World}

  -- The outstanding RESET, if there is one, reaches the hardware and is acknowledged.
  unfoldable pub reset_once : State b c → State b c
  reset_once (d, w) =
      let (d', w') = apply_reset b c (d, w) in
      if d.reset_done == d.reset_requests
      then (d, w)
      else (record d' { reset_done = d.reset_requests }, w')

  reset_loop-done :
      (fuel : ℕ) (s : State b c) → s.0.reset_done ≡ s.0.reset_requests → reset_loop b c fuel s ≡ s
  unfolding reset_loop
  reset_loop-done zero (d, w) h = refl
  reset_loop-done (suc fuel) (d, w) h = ground arith

  reset_loop_lem : (fuel : ℕ) (s : State b c) → reset_loop b c (suc fuel) s ≡ reset_once s
  unfolding reset_loop reset_once
  reset_loop_lem fuel (d, w) = ground (
    arith,
    apply_reset-OnlyShadow b c (d, w),
    reset_loop-done fuel (
      record (apply_reset b c (d, w)).0 { reset_done = d.reset_requests },
      (apply_reset b c (d, w)).1,
    ),
  )

  -- After it nothing is outstanding, and the queue is as before.
  record Acknowledged (d after : Device) : Type 0 where
    done : after.reset_done ≡ after.reset_requests
    commands : after.commands ≡ d.commands

  reset_once-Acknowledged : (s : State b c) → Acknowledged s.0 (reset_once s).0
  unfolding reset_once
  reset_once-Acknowledged (d, w) = ground (arith, apply_reset-OnlyShadow b c (d, w))

  drained-idle :
      (d : Device) (w : World)
      → IsValid d.commands
      → d.reset_done ≡ d.reset_requests
      → let d' = (drain b c (d, w)).0 in (busy d' ≡ false) × (d'.reset_done ≡ d'.reset_requests)
  unfolding busy
  drained-idle d w v h = rw (drain_lem b c d w v) (
      ground (
        arith,
        run_commands-OnlyShadow b c (to_list zeroed_command d.commands) (d, w),
        v.head_byte,
      ))

  -- Without requests in between the loop makes one round.
  pub settle-quiet :
      (fuel : ℕ) (d : Device) (w : World)
      → IsValid d.commands
      → let out = settle b c (suc fuel) (d, w) in
        (out ≡ drain b c (reset_once (d, w))) × (busy out.0 ≡ false)
  unfolding settle_under
  settle-quiet fuel d w v =
      let s = reset_once (d, w) in
      let a = reset_once-Acknowledged (d, w) in
      rw (reset_loop_lem 1 (d, w))
        (ground (arith, drained-idle s.0 s.1 (subst IsValid (sym a.commands) v) a.done))

  drain_loop-resets :
      (rounds : ℕ) (s : State b c)
      → let after = (drain_loop b c rounds s).0 in
        (after.reset_done ≡ s.0.reset_done) × (after.reset_requests ≡ s.0.reset_requests)
  unfolding drain_loop drain_one
  drain_loop-resets zero s = (refl, refl)
  drain_loop-resets (suc rounds) (d, w) =
      let next = drain_one b c (d, w) in
      let rest = drain_loop-resets rounds next in
      let ran =
        execute-OnlyShadow b c (front zeroed_command d.commands)
          (record d { commands = advance d.commands }, w) in
      let done : next.0.reset_done ≡ d.reset_done = ground (arith, ran) in
      let requests : next.0.reset_requests ≡ d.reset_requests = ground (arith, ran) in
      (rest.0 ∙ done, rest.1 ∙ requests)

  -- What a round does before its test.
  abbrev pub one_round : State b c → State b c
  one_round s = drain b c (reset_once s)

  one_round-done : (s : State b c) → (one_round s).0.reset_done ≡ (one_round s).0.reset_requests
  unfolding drain
  one_round-done s =
      let kept = drain_loop-resets (pending (reset_once s).0.commands) (reset_once s) in
      kept.0 ∙ (reset_once-Acknowledged s).done ∙ sym kept.1

  settle_under-step :
      (requests : List (Device → Device)) (fuel : ℕ) (s : State b c)
      → let (d, w) = one_round s in
        let d' = arrive b c requests d in
        settle_under b c requests (suc fuel) s ≡ (
          if d'.reset_done == d'.reset_requests
          then (d', w)
          else settle_under b c (later b c requests) fuel (d', w))
  unfolding settle_under
  settle_under-step requests fuel s = rw (reset_loop_lem 1 s) (ground arith)

  -- What the loop leaves, on any fuel that suffices.
  record Ended (requests : List (Device → Device)) (s out : State b c) : Type 0 where
    done : out.0.reset_done ≡ out.0.reset_requests
    same : out ≡ settle_under b c requests (suc (length requests)) s

  settle_under-Ended :
      (requests : List (Device → Device)) (fuel : ℕ) (s : State b c)
      → length requests ≤ fuel
      → Ended requests s (settle_under b c requests (suc fuel) s)
  settle_under-Ended [] fuel s enough =
      let quiet = λ (n : ℕ).
        let e : settle_under b c [] (suc n) s ≡ one_round s =
          settle_under-step [] n s ∙ ground (arith, one_round-done s) in
        e in
      record { done = rw (quiet fuel) (one_round-done s); same = quiet fuel ∙ sym (quiet 0) }
  settle_under-Ended (request ∷ requests) zero s enough = absurd (omega arith)
  settle_under-Ended (request ∷ requests) (suc fuel) s enough =
      let d = request (one_round s).0 in
      let w = (one_round s).1 in
      let step = λ (n : ℕ). settle_under-step (request ∷ requests) n s in
      let rest = settle_under-Ended requests fuel (d, w) (omega arith) in
      elim (Bool-cases (d.reset_done == d.reset_requests)) [
        | inl over ↦
            let stop = λ (n : ℕ).
              let e : settle_under b c (request ∷ requests) (suc n) s ≡ (d, w) =
                step n ∙ rw over refl in
              e in
            record {
              done = rw (stop (suc fuel)) (ground (arith, over));
              same = stop (suc fuel) ∙ sym (stop (suc (length requests)));
            }
        | inr again ↦
            let go = λ (n : ℕ).
              let e : settle_under b c (request ∷ requests) (suc n) s
                  ≡ settle_under b c requests n (d, w) =
                step n ∙ rw again refl in
              e in
            record {
              done = rw (go (suc fuel)) rest.done;
              same = go (suc fuel) ∙ rest.same ∙ sym (go (suc (length requests)));
            }
      ]

  one_round-IsValid : (s : State b c) → IsValid s.0.commands → IsValid (one_round s).0.commands
  one_round-IsValid s v =
      let r = reset_once s in
      let valid : IsValid r.0.commands =
        subst IsValid (sym (reset_once-Acknowledged s).commands) v in
      rw (drain_lem b c r.0 r.1 valid) (record {
        full_length = valid.full_length;
        head_byte = valid.head_byte;
        tail_byte = valid.head_byte;
        bounded = omega arith;
      })

  -- For a valid queue, whatever requests are handled between the drain and the test of the first rounds: one round
  -- more than there are of these is enough; the loop then ends with no RESET outstanding, and more rounds change
  -- nothing. Without such requests the loop makes one round, in which an outstanding RESET reaches the
  -- hardware and the queue is drained; a RESET that lands after the first round's drain makes a second round, so it
  -- reaches the hardware before the loop ends; and in both cases nothing is pending then, so reads no longer report BUSY.
  pub settle_under_lem :
      (requests : List (Device → Device)) (fuel : ℕ) (d : Device) (w : World)
      → IsValid d.commands
      → length requests ≤ fuel
      → let s : State b c = (d, w) in
        let out = settle_under b c requests (suc fuel) s in
        let quiet = settle b c (suc fuel) s in
        let (d', w') = one_round s in
        let reset = settle_under b c (request_reset b ∷ []) (suc (suc fuel)) s in
        (out.0.reset_done ≡ out.0.reset_requests)
        × (out ≡ settle_under b c requests (suc (length requests)) s)
        × (quiet ≡ one_round s)
        × (busy quiet.0 ≡ false)
        × (reset ≡ one_round (request_reset b d', w'))
        × (busy reset.0 ≡ false)
  unfolding request_reset
  settle_under_lem requests fuel d w v enough =
      let s : State b c = (d, w) in
      let ended = settle_under-Ended requests fuel s enough in
      let quiet = settle-quiet fuel d w v in
      let r = one_round s in
      let again = settle-quiet fuel (request_reset b r.0) r.1 (one_round-IsValid s v) in
      let outstanding : (r.0.reset_done == u8 (r.0.reset_requests + 1)) ≡ false =
        ground (arith, one_round-done s) in
      let reset : settle_under b c (request_reset b ∷ []) (suc (suc fuel)) s
          ≡ settle b c (suc fuel) (request_reset b r.0, r.1) =
        settle_under-step (request_reset b ∷ []) (suc fuel) s ∙ rw outstanding refl in
      (
        ended.done,
        ended.same,
        quiet.0,
        quiet.1,
        reset ∙ again.0,
        ap (λ (t : State b c). busy t.0) reset ∙ again.1,
      )
