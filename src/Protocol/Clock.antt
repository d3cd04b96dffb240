-- ===== src/Protocol/Clock.antt =====
-- reconstruct_micros64 of Protocol.h: a 64-bit clock from the 32-bit millis() and micros() of one
-- GET_TIME reply.
use arduino_driver.Prelude.{
  ℕ, ◌+◌, ◌-◌, ◌*◌, ◌/◌, ◌%◌, ◌^◌, ◌<◌, ◌≡◌, ◌&&◌, arith, ltb, if◌then◌else◌,
}

abbrev pub wrap : ℕ
wrap = 2 ^ 32

-- No uint64_t step wraps: `candidate` is below 1001 * 2 ^ 32, and the subtraction runs only where
-- `candidate` is above `wrap / 2 + coarse`.
pub reconstruct_micros64 : ℕ → ℕ → ℕ
reconstruct_micros64 millis_value micros_value =
    let coarse = millis_value * 1000 in
    let base = coarse / wrap * wrap in
    let candidate = base + micros_value in
    if ltb coarse candidate && ltb (wrap / 2) (candidate - coarse)
    then candidate - wrap
    else if ltb candidate coarse && ltb (wrap / 2) (coarse - candidate)
    then candidate + wrap
    else candidate

-- A device that has run for `t` microseconds, fewer than 1000 * 2 ^ 32, reports `t / 1000` and
-- `t % 2 ^ 32`; from these two the host rebuilds `t` exactly.
pub reconstruct_micros64_exact :
    (t : ℕ) → t < 1000 * 2 ^ 32 → reconstruct_micros64 (t / 1000) (t % 2 ^ 32) ≡ t
unfolding reconstruct_micros64
reconstruct_micros64_exact t h = ground arith
