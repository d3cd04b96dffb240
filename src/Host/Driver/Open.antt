-- ===== src/Host/Driver/Open.antt =====
-- The constructor of Device in extras/driver/src/Device.cpp: load_info and load_caps.
pub mod Table
pub mod Handshake
use arduino_driver.Prelude.{
  ℕ, zero, suc, ◌+◌, ◌||◌, not, Bool, List, [], ◌∷◌, leb, ltb, ◌==◌, if◌then◌else◌, length, max,
  false,
}
use arduino_driver.Protocol.Bytes.{read_u8}
use arduino_driver.Protocol.Caps
use arduino_driver.Protocol.Decode.{decode_info}
use arduino_driver.Protocol.Errors.{Result, ok, err, protocol_error, not_ready}
use arduino_driver.Protocol.Layout.{Info}
use arduino_driver.Protocol.Limit
use arduino_driver.Protocol.Request
use arduino_driver.Host.Exec.{Exec, pure, lift, require, modify, ◌>>=◌, ◌>>◌}
use arduino_driver.Host.Driver.{Driver, Options, Call, raw, pause}
use arduino_driver.Host.Transfers.{Transport}

-- `_info{}` and the empty vectors of the members.
abbrev pub zeroed_info : Info
zeroed_info = record {
  protocol_version = 0;
  board_id = 0;
  n_pins = 0;
  n_ain = 0;
  adc_bits = 0;
  pwm_bits = 0;
  dac_bits = 0;
  queue_depth = 0;
  vref_mv = 0;
  io_mv = 0;
  flags = 0;
  stream_max_channels = 0;
  event_max_pins = 0;
  stream_min_period_us = 0;
}

abbrev pub blank : {Link : Type 0} → Link → Driver Link
blank link = record {
  info = zeroed_info;
  caps = [];
  analog_pins = [];
  streaming = false;
  selected = [];
  link = link;
}

-- The bytes `from` to `from + n - 1`.
abbrev pub bytes_at : List ℕ → ℕ → ℕ → List ℕ
bytes_at reply from zero = []
bytes_at reply from (suc n) = read_u8 reply from ∷ bytes_at reply (suc from) n

-- The pins, from `pin` on, whose capability byte has AIN.
unfoldable pub analog_from : ℕ → List ℕ → List ℕ
analog_from pin [] = []
analog_from pin (bits ∷ caps) =
    let rest = analog_from (suc pin) caps in if Caps.has bits Caps.ain then pin ∷ rest else rest

module _ (t : Transport) (o : Options) where
  open t use {Link}

  -- One round of load_info, up to the test of n_pins.
  unfoldable pub fetch_info : Call t o Info
  fetch_info = do
    reply ← raw t o Request.get_info 0 Limit.info_len
    require protocol_error (leb Limit.info_len (reply.0))
    info ← lift (decode_info (reply.1))
    modify (λ d. record d { info = info })
    require protocol_error (info.protocol_version == Limit.protocol_version)
    pure info

  -- The rounds that are left; the last one does not wait.
  unfoldable pub await_pins : ℕ → Driver Link → Result Info × Driver Link
  await_pins zero d = (err not_ready, d)
  await_pins (suc more) d =
      let (result, d') = fetch_info d in
      elim result [
        | err e ↦ (err e, d')
        | ok info ↦
            (if not (info.n_pins == 0)
              then (ok info, d')
              else if more == 0
              then (err not_ready, d')
              else await_pins more (pause t o d').1)
      ]

  unfoldable pub load_info : Call t o (Unit {0})
  load_info = do
    info ← await_pins (max 1 o.ready_max_attempts)
    require protocol_error (leb info.n_pins Limit.max_pins)
    require protocol_error (not (ltb Limit.max_ain info.n_ain || ltb info.n_pins info.n_ain))

  -- The length of `_analog_pins` is a size_t, which no vector of pins wraps.
  unfoldable pub load_caps : Call t o (Unit {0})
  load_caps d =
      let n_pins = d.info.n_pins in
      (do
        reply ← raw t o Request.get_pin_caps 0 n_pins
        require protocol_error (leb n_pins (reply.0))
        let caps = bytes_at (reply.1) 0 n_pins
        let analog_pins = analog_from 0 caps
        modify (λ d'. record d' { caps = caps; analog_pins = analog_pins })
        require protocol_error (length analog_pins == d.info.n_ain))
        d

  unfoldable pub open_device : Link → Result (Unit {0}) × Driver Link
  open_device link = (do load_info; load_caps) (blank link)
