-- ===== src/Host/Transfers/Retry.antt =====
-- read_in of extras/driver/src/Device.cpp: what a read that returns has checked.
use arduino_driver.Prelude.{
  ℕ, zero, suc, ◌≤◌, ◌<◌, ◌≡◌, List, arith, ◌==◌, if◌then◌else◌, max, Bool-cases, inl, inr, refl,
  sym, ap, ◌∙◌, false,
}
use arduino_driver.Protocol.Bytes.{read_u8}
use arduino_driver.Protocol.Errors.{Result, ok, err, device_busy}
use arduino_driver.Protocol.Request
use arduino_driver.Protocol.Request.{Request}
use arduino_driver.Protocol.Status
use arduino_driver.Host.Transfers.{
  Transport, Reading, done, again, judge, within_request, raw_in, read_loop, read_in,
}

-- What the caller may rely on.
abbrev pub IsReply : ℕ → ℕ → ℕ → List ℕ → Type 0
IsReply len min_len n reply = (0 < n) × (n ≤ len) × (min_len ≤ n) × (read_u8 reply 0 ≡ Status.ok)

judge-IsReply :
    (len min_len n : ℕ) (reply : List ℕ) (result : Result (ℕ × List ℕ))
    → judge min_len (within_request len result) ≡ done (ok (n, reply))
    → IsReply len min_len n reply
judge-IsReply len min_len n reply (err e) h = absurd (ground arith)
judge-IsReply len min_len n reply (ok (m, r)) h = grind arith

module _ (t : Transport) where
  open t use {Link}

  -- The loop after its first reply.
  abbrev after_reading : ℕ → Request → ℕ → ℕ → ℕ → Link → Reading → Result (ℕ × List ℕ) × Link
  after_reading more request index len min_len link (done outcome) = (outcome, link)
  after_reading more request index len min_len link again =
      if more == 0
      then (err device_busy, link)
      else read_loop t more request index len min_len (t.pause link)

  read_loop_first :
      (more : ℕ) (request : Request) (index len min_len : ℕ) (link : Link)
      → let (result, link') = raw_in t request index len link in
        read_loop t (suc more) request index len min_len link
        ≡ after_reading more request index len min_len link' (judge min_len result)
  unfolding read_loop
  read_loop_first more request index len min_len link = refl

  raw_in-judge :
      (request : Request) (index len min_len n : ℕ) (link : Link) (reply : List ℕ)
      → judge min_len (raw_in t request index len link).0 ≡ done (ok (n, reply))
      → IsReply len min_len n reply
  unfolding raw_in
  raw_in-judge request index len min_len n link reply h =
      judge-IsReply len min_len n reply (t.control_in (Request.code request) index len link).0 h

  -- By what the first reply means, given the rounds after it.
  by_reading :
      (more : ℕ) (request : Request) (index len min_len : ℕ) (link now after : Link) (n : ℕ)
      (reply : List ℕ) (r : Reading)
      → ((start : Link)
          → read_loop t more request index len min_len start ≡ (ok (n, reply), after)
          → IsReply len min_len n reply)
      → judge min_len (raw_in t request index len link).0 ≡ r
      → after_reading more request index len min_len now r ≡ (ok (n, reply), after)
      → IsReply len min_len n reply
  by_reading more request index len min_len link now after n reply (done outcome) rest e h =
      raw_in-judge request index len min_len n link reply
        (e ∙ ap done (ap (λ (s : Result (ℕ × List ℕ) × Link). s.0) h))
  by_reading more request index len min_len link now after n reply again rest e h =
      elim (Bool-cases (more == 0)) [
        | inl last ↦ absurd (ground arith)
        | inr left ↦ rest (t.pause now) (ground arith)
      ]

  read_loop-IsReply :
      (attempts : ℕ) (request : Request) (index len min_len : ℕ) (link after : Link) (n : ℕ)
      (reply : List ℕ)
      → read_loop t attempts request index len min_len link ≡ (ok (n, reply), after)
      → IsReply len min_len n reply
  read_loop-IsReply zero request index len min_len link after n reply h =
      unfold read_loop in absurd (ground arith)
  read_loop-IsReply (suc more) request index len min_len link after n reply h =
      by_reading more request index len min_len link (raw_in t request index len link).1 after n
        reply (judge min_len (raw_in t request index len link).0)
        (λ start. read_loop-IsReply more request index len min_len start after n reply) refl
        (sym (read_loop_first more request index len min_len link) ∙ h)

  -- A read that returns a reply, after whatever number of attempts and over any transport, returns one whose
  -- status is OK, that is not empty, that fits the buffer and that has the bytes the caller needs.
  pub read_in-IsReply :
      (busy_max_attempts : ℕ) (request : Request) (index len min_len : ℕ) (link after : Link)
      (n : ℕ) (reply : List ℕ)
      → read_in t busy_max_attempts request index len min_len link ≡ (ok (n, reply), after)
      → IsReply len min_len n reply
  unfolding read_in
  read_in-IsReply busy_max_attempts request index len min_len link after n reply h =
      read_loop-IsReply (max 1 busy_max_attempts) request index len min_len link after n reply h

  -- The transport's replies to one read: BUSY `k` times, then one that settles it.
  pub data Answers (request : Request) (index len min_len : ℕ)
      : ℕ → Link → Result (ℕ × List ℕ) → Link → Type 0 where
    settles :
        (link : Link) (outcome : Result (ℕ × List ℕ))
        → judge min_len (raw_in t request index len link).0 ≡ done outcome
        → Answers request index len min_len 0 link outcome (raw_in t request index len link).1
    delays :
        (k : ℕ) (link after : Link) (outcome : Result (ℕ × List ℕ))
        → judge min_len (raw_in t request index len link).0 ≡ again
        → Answers request index len min_len k
            (t.pause (raw_in t request index len link).1)
            outcome
            after
        → Answers request index len min_len (suc k) link outcome after

  more_rounds :
      (more : ℕ) (request : Request) (index len min_len : ℕ) (link after : Link)
      (outcome : Result (ℕ × List ℕ))
      → 0 < more
      → read_loop t more request index len min_len (t.pause (raw_in t request index len link).1)
        ≡ (outcome, after)
      → after_reading more request index len min_len (raw_in t request index len link).1 again
        ≡ (outcome, after)
  more_rounds more request index len min_len link after outcome left h =
      let some_left : (more == 0) ≡ false = ground arith in rw some_left h

  read_loop-Answers :
      (attempts : ℕ) (request : Request) (index len min_len k : ℕ) (link after : Link)
      (outcome : Result (ℕ × List ℕ))
      → k < attempts
      → Answers request index len min_len k link outcome after
      → read_loop t attempts request index len min_len link ≡ (outcome, after)
  read_loop-Answers zero request index len min_len k link after outcome h a = absurd (omega arith)
  read_loop-Answers (suc more) request index len min_len k link after outcome h
        (settles start result e) =
      read_loop_first more request index len min_len start
      ∙ ap (after_reading more request index len min_len (raw_in t request index len start).1) e
  read_loop-Answers (suc more) request index len min_len k link after outcome h
        (delays m start end result e rest) =
      read_loop_first more request index len min_len start
      ∙ ap (after_reading more request index len min_len (raw_in t request index len start).1) e
      ∙ more_rounds more request index len min_len start end result (omega arith) (
          read_loop-Answers more request index len min_len m
            (t.pause (raw_in t request index len start).1) end result (omega arith) rest)

  -- A read whose replies are BUSY fewer times than there are attempts ends with the reply that is not: its
  -- result or its exception, and the transport where that reply left it.
  pub read_in-Answers :
      (busy_max_attempts : ℕ) (request : Request) (index len min_len k : ℕ) (link after : Link)
      (outcome : Result (ℕ × List ℕ))
      → k < max 1 busy_max_attempts
      → Answers request index len min_len k link outcome after
      → read_in t busy_max_attempts request index len min_len link ≡ (outcome, after)
  unfolding read_in
  read_in-Answers busy_max_attempts request index len min_len k link after outcome h a =
      read_loop-Answers (max 1 busy_max_attempts) request index len min_len k link after outcome h a
