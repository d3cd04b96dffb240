-- ===== src/Host/Driver/Streams/Checks.antt =====
-- What start_stream of extras/driver/src/Device.cpp has checked before its first transfer.
use arduino_driver.Prelude.{ℕ, ◌≤◌, ◌≡◌, refl, true, false, List, [], ◌∷◌, arith}
use arduino_driver.Prelude.Signed.{ℤ, pos, negsuc}
use arduino_driver.Protocol.Errors.{Result, ok, err}
use arduino_driver.Protocol.Features
use arduino_driver.Firmware.Select.Slice.{times}
use arduino_driver.Host.Driver.{Driver, Options, pin_caps, check_not_streaming}
use arduino_driver.Host.Driver.Streams.{
  StreamConfig, check_config, check_pins, period_code, adjacent_equal, sorted,
}
use arduino_driver.Host.Driver.Streams.Distinct.{adjacent_equal-sorted}
use arduino_driver.Host.Exec.{continue}
use arduino_driver.Host.Transfers.{Transport}

period_code-pos :
    (min_period us : ℕ) (period : ℤ) → period_code min_period period ≡ ok us → period ≡ pos us
period_code-pos min_period us (negsuc n) h = absurd (ground arith)
period_code-pos min_period us (pos n) h = ground arith

module _ (t : Transport) (o : Options) where
  check_pins-same : (pins : List ℕ) (d : Driver t.Link) → (check_pins t o pins d).1 ≡ d
  unfolding check_pins
  check_pins-same [] d = refl
  check_pins-same (pin ∷ pins) d = by_caps (pin_caps d pin) (check_pins-same pins d)
    where
      by_caps :
          (r : Result ℕ)
          → (check_pins t o pins d).1 ≡ d
          → (continue (λ caps. check_pins t o pins) r d).1 ≡ d
      by_caps (err e) h = refl
      by_caps (ok caps) h = h

  -- A configuration that passes has at least one pin, repeats none and asks for a period that fits the board; the object and the
  -- transport are as before.
  pub check_config-ok :
      (config : StreamConfig) (d after : Driver t.Link) (period_us : ℕ)
      → check_config t o config d ≡ (ok period_us, after)
      → (after ≡ d)
        × (Features.has_streaming d.info ≡ true)
        × ((p : ℕ) → times p config.pins ≤ 1)
        × (config.period ≡ pos period_us)
  unfolding check_config check_not_streaming
  check_config-ok config d after period_us h =
      let same = check_pins-same config.pins d in
      let distinct : adjacent_equal (sorted config.pins) ≡ false = ground (arith, same) in
      let period : period_code (Features.min_stream_period_us d.info) config.period ≡ ok period_us =
        ground (arith, same) in
      (
        ground (arith, same),
        ground (arith, same),
        adjacent_equal-sorted config.pins distinct,
        period_code-pos (Features.min_stream_period_us d.info) period_us config.period period,
      )
