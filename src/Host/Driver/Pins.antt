-- ===== src/Host/Driver/Pins.antt =====
-- The pin operations, status, sync, reset and read_time of Device in extras/driver/src/Device.cpp.
-- The operations in volts and fractions, which compute with doubles, are left out.
pub mod Modes
pub mod Levels
pub mod Samples
use arduino_driver.Prelude.{
  ℕ, zero, suc, ◌+◌, ◌*◌, ◌/◌, ◌%◌, ◌^◌, Bool, true, not, List, [], ◌∷◌, leb, ltb, ◌==◌,
  if◌then◌else◌, max,
}
use arduino_driver.Protocol.Bytes.{read_u8, read_u16le}
use arduino_driver.Protocol.Caps
use arduino_driver.Protocol.Clock.{reconstruct_micros64}
use arduino_driver.Protocol.Decode.{decode_time_reply}
use arduino_driver.Protocol.Errors.{
  Result, ok, err, device_busy, invalid_mode, not_supported, invalid_value,
}
use arduino_driver.Protocol.Features
use arduino_driver.Protocol.Limit
use arduino_driver.Protocol.Mode
use arduino_driver.Protocol.Request
use arduino_driver.Protocol.Sizes.{dio_read_all_len, ai_read_all_len}
use arduino_driver.Host.Driver.{
  Driver, Options, Call, send, read, pause, pin_caps, require_caps, check_not_streaming,
}
use arduino_driver.Host.Exec.{Exec, pure, lift, require, modify, when, ◌>>=◌, ◌>>◌}
use arduino_driver.Host.Transfers.{Transport}

-- `((packed >> (pin % 8)) & 1u) != 0` of the byte that holds the pin's bit.
abbrev pub level_at : List ℕ → ℕ → Bool
level_at reply pin = not (read_u8 reply (Limit.all_header_len + pin / 8) / 2 ^ (pin % 8) % 2 == 0)

unfoldable pub levels_from : List ℕ → ℕ → ℕ → List Bool
levels_from reply pin zero = []
levels_from reply pin (suc n) = level_at reply pin ∷ levels_from reply (suc pin) n

unfoldable pub samples_from : List ℕ → ℕ → ℕ → List ℕ
samples_from reply i zero = []
samples_from reply i (suc n) =
    read_u16le reply (Limit.all_header_len + 2 * i) ∷ samples_from reply (suc i) n

pub record DeviceTime : Type 0 where
  pub millis : ℕ
  pub micros : ℕ
  pub micros64 : ℕ

module _ (t : Transport) (o : Options) where
  open t use {Link}

  -- A `mode` is any byte that the caller casts to a PinMode.
  unfoldable pub pin_mode : ℕ → ℕ → Call t o (Unit {0})
  pin_mode pin mode d =
      (do
        check_not_streaming
        caps ← lift (pin_caps d pin)
        require invalid_mode (ltb mode Mode.count)
        require not_supported (Caps.has caps (Caps.required_caps mode))
        require not_supported
            (if mode == Mode.input_pulldown then Features.supports_pulldown d.info else true)
        send t o Request.pin_mode mode pin)
        d

  unfoldable pub digital_write : ℕ → Bool → Call t o (Unit {0})
  digital_write pin high d =
      (do
        check_not_streaming
        lift (require_caps d pin Caps.dio)
        send t o Request.dio_write (if high then 1 else 0) pin)
        d

  unfoldable pub digital_read : ℕ → Call t o Bool
  digital_read pin d =
      (do
        check_not_streaming
        lift (require_caps d pin Caps.dio)
        reply ← read t o Request.dio_read pin Limit.dio_reply_len Limit.dio_reply_len
        pure (not (read_u8 (reply.1) 1 == 0)))
        d

  unfoldable pub read_all_digital : Call t o (List Bool)
  read_all_digital d =
      let len = dio_read_all_len d.info.n_pins in
      (do
        check_not_streaming
        reply ← read t o Request.dio_read_all 0 len len
        pure (levels_from (reply.1) 0 d.info.n_pins))
        d

  unfoldable pub analog_read : ℕ → Call t o ℕ
  analog_read pin d =
      (do
        check_not_streaming
        lift (require_caps d pin Caps.ain)
        reply ← read t o Request.ai_read pin Limit.ai_reply_len Limit.ai_reply_len
        pure (read_u16le (reply.1) 2))
        d

  unfoldable pub read_all_analog : Call t o (List ℕ)
  read_all_analog d =
      let len = ai_read_all_len d.info.n_ain in
      (do
        check_not_streaming
        reply ← read t o Request.ai_read_all 0 len len
        pure (samples_from (reply.1) 0 d.info.n_ain))
        d

  unfoldable pub pwm_write : ℕ → ℕ → Call t o (Unit {0})
  pwm_write pin duty d =
      (do
        check_not_streaming
        lift (require_caps d pin Caps.pwm)
        require invalid_value (leb duty (Caps.max_value d.info.pwm_bits))
        send t o Request.pwm_write duty pin)
        d

  unfoldable pub dac_write : ℕ → ℕ → Call t o (Unit {0})
  dac_write pin value d =
      (do
        check_not_streaming
        lift (require_caps d pin Caps.dac)
        require not_supported (Features.has_dac d.info)
        require invalid_value (leb value (Caps.max_value d.info.dac_bits))
        send t o Request.dac_write value pin)
        d

  -- The recorded error, and the commands that wait.
  unfoldable pub status : Call t o (ℕ × ℕ)
  status = do
    check_not_streaming
    reply ← read t o Request.get_status 0 Limit.status_reply_len Limit.status_reply_len
    pure (read_u8 (reply.1) 2, read_u8 (reply.1) 1)

  unfoldable pub sync_loop : ℕ → Driver Link → Result (Unit {0}) × Driver Link
  sync_loop zero d = (err device_busy, d)
  sync_loop (suc more) d =
      let (result, d') = status d in
      elim result [
        | err e ↦ (err e, d')
        | ok reply ↦
            (if reply.1 == 0
              then (ok tt, d')
              else if more == 0
              then (err device_busy, d')
              else sync_loop more (pause t o d').1)
      ]

  unfoldable pub sync : Call t o (Unit {0})
  sync = sync_loop (max 1 o.busy_max_attempts)

  unfoldable pub reset : Call t o (Unit {0})
  reset = do
    check_not_streaming
    send t o Request.reset 0 0
    modify (λ d. record d { selected = [] })

  -- Without the host's own clock readings.
  unfoldable pub read_time : Call t o DeviceTime
  read_time = do
    check_not_streaming
    reply ← read t o Request.get_time 0 Limit.time_reply_len Limit.time_reply_len
    time ← lift (decode_time_reply (reply.1))
    pure (record {
      millis = time.millis;
      micros = time.micros;
      micros64 = reconstruct_micros64 time.millis time.micros;
    })
