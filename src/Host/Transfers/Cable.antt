-- ===== src/Host/Transfers/Cable.antt =====
-- raw_in and read_in of extras/driver/src/Device.cpp against handle_in of src/UsbIo.cpp: how a reply of the
-- device reaches the host.
use arduino_driver.Prelude.{
  ℕ, zero, suc, ◌-◌, ◌≤◌, ◌≡◌, refl, ap, ◌∙◌, false, List, [], ◌∷◌, ◌++◌, arith, ltb, ◌==◌,
  if◌then◌else◌, length, take, replicate, some,
}
use arduino_driver.Protocol.Bytes.{read_u8}
use arduino_driver.Protocol.Errors.{Result, ok, err, stall_error}
use arduino_driver.Protocol.Request.{Request, of_code-code}
use arduino_driver.Protocol.Status
use arduino_driver.Firmware.Board.{Board}
use arduino_driver.Firmware.Reply.{Answer, replied, handle_in, dispatch_in, finish}
use arduino_driver.Firmware.Setup.{handle_setup}
use arduino_driver.Firmware.State.{Device}
use arduino_driver.Host.Transfers.{done, raw_in, read_in, judge, within_request}
use arduino_driver.Host.Transfers.Refusal.{usb}
use arduino_driver.Host.Transfers.Retry.{settles, read_in-Answers}

pub take-all : (n : ℕ) (xs : List ℕ) → length xs ≤ n → take n xs ≡ xs
take-all zero [] h = refl
take-all zero (x ∷ xs) h = absurd (omega arith)
take-all (suc n) [] h = refl
take-all (suc n) (x ∷ xs) h = rw (take-all n xs (omega arith))

-- The reply at the front of a cleared buffer of `len` bytes.
abbrev pub padded : ℕ → List ℕ → List ℕ
padded len reply = reply ++ replicate (len - length reply) 0

module _ (b : Board) (now_ms now_us : ℕ) where
  -- What handle_in decides, as a transfer.
  abbrev brought : ℕ → Device → Answer → Result (ℕ × List ℕ) × Device
  brought len d answer =
      let (accepted, reply, after) = finish d len answer in
      (
        within_request len
            (if accepted then ok (length reply, padded len reply) else err stall_error),
        after,
      )

  in-usb :
      (d : Device) (request : Request) (index len : ℕ)
      → raw_in (usb b now_ms now_us) request index len d
        ≡ brought len d (dispatch_in b d (some request) index len now_ms now_us)
  unfolding raw_in handle_setup handle_in
  in-usb d request index len =
      ap (λ r. brought len d (dispatch_in b d r index len now_ms now_us)) (of_code-code request)

  -- A reply that fits arrives whole.
  pub raw-usb :
      (d after : Device) (request : Request) (index len : ℕ) (reply : List ℕ)
      → dispatch_in b d (some request) index len now_ms now_us ≡ replied reply after
      → length reply ≤ len
      → raw_in (usb b now_ms now_us) request index len d
        ≡ (ok (length reply, padded len reply), after)
  raw-usb d after request index len reply e fits =
      let inside : ltb len (length reply) ≡ false = ground arith in
      in-usb d request index len ∙ ap (brought len d) e ∙ rw (take-all len reply fits, inside) refl

  -- A read whose reply says OK takes one transfer.
  pub read-usb :
      (d after : Device) (attempts : ℕ) (request : Request) (index len min_len : ℕ) (rest : List ℕ)
      → let reply = Status.ok ∷ rest in
        dispatch_in b d (some request) index len now_ms now_us ≡ replied reply after
        → length reply ≤ len
        → min_len ≤ length reply
        → read_in (usb b now_ms now_us) attempts request index len min_len d
          ≡ (ok (length reply, padded len reply), after)
  unfolding read_u8
  read-usb d after attempts request index len min_len rest e fits enough =
      let reply = Status.ok ∷ rest in
      let raw = raw-usb d after request index len reply e fits in
      let outcome : Result (ℕ × List ℕ) = ok (length reply, padded len reply) in
      let nonempty : (length reply == 0) ≡ false = ground arith in
      let long : ltb (length reply) min_len ≡ false = ground arith in
      let judged : judge min_len (raw_in (usb b now_ms now_us) request index len d).0
          ≡ done outcome =
        ap (λ (s : Result (ℕ × List ℕ) × Device). judge min_len s.0) raw
        ∙ rw (nonempty, long) refl in
      read_in-Answers (usb b now_ms now_us) attempts request index len min_len 0 d
        (raw_in (usb b now_ms now_us) request index len d).1 outcome (omega arith)
        (settles d outcome judged)
      ∙ ap (λ (s : Result (ℕ × List ℕ) × Device). (outcome, s.1)) raw
