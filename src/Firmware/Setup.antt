-- ===== src/Firmware/Setup.antt =====
-- UsbIoDevice::begin and UsbIoDevice::handle_setup of src/UsbIo.cpp.
pub mod Atomic
use arduino_driver.Prelude.{
  ℕ, ◌+◌, ◌/◌, Bool, false, ◌&&◌, not, List, [], u8, ltb, ◌==◌, if◌then◌else◌, set, bit_and, bit_or,
}
use arduino_driver.Prelude.Loop.{for_range}
use arduino_driver.Protocol.Caps
use arduino_driver.Protocol.Flag
use arduino_driver.Protocol.Limit
use arduino_driver.Protocol.Mode
use arduino_driver.Protocol.Status
use arduino_driver.Firmware.Board.{Board}
use arduino_driver.Firmware.Out.{handle_out}
use arduino_driver.Firmware.Queue.{Outcome, stall}
use arduino_driver.Firmware.Reply.{handle_in}
use arduino_driver.Firmware.State.{Device}

-- The capability bits of one pin, with AIN as decided by the caller; `|=` of distinct bits is `+`.
abbrev pub pin_caps : Board → ℕ → Bool → ℕ
pin_caps b pin ain =
    (if b.pin_has_dio pin then Caps.dio else 0)
    + (if ain then Caps.ain else 0)
    + (if b.pin_has_pwm pin then Caps.pwm else 0)
    + (if not (b.dac_bits == 0) && b.pin_has_dac pin then Caps.dac else 0)

unfoldable pub begin_pin : Board → ℕ → Device → Device
begin_pin b pin d =
    let ain = b.pin_has_ain pin && ltb d.n_ain Limit.max_ain in
    record d {
      n_ain = if ain then u8 (d.n_ain + 1) else d.n_ain;
      caps = set d.caps pin (pin_caps b pin ain);
      mode = set d.mode pin Mode.none;
      dio = set d.dio pin 0;
      ain = set d.ain pin 0;
    }

-- `_flags |=` adds bits of the transport's that the first two do not hold.
unfoldable pub begin : Board → Device → Device
begin b d =
    let pins =
      for_range 0 b.pin_count (begin_pin b) (record d { n_pins = b.pin_count; n_ain = 0 }) in
    record pins {
      flags =
          bit_or (bit_or (if b.has_pulldown then Flag.pulldown else 0) Flag.events)
            b.transport_flags;
    }

-- An OUT request has no reply.
abbrev pub no_reply : Outcome → Bool × List ℕ × Device
no_reply (ok, d) = (ok, [], d)

-- The direction bit of bmRequestType picks the handler.
abbrev pub route : Board → Device → ℕ → ℕ → ℕ → ℕ → ℕ → ℕ → ℕ → Bool × List ℕ × Device
route b d bm_request_type b_request w_value index w_length millis_now micros_now =
    if not (bit_and bm_request_type 0x80 == 0)
    then handle_in b d b_request index w_length millis_now micros_now
    else no_reply (handle_out b d b_request w_value index w_length)

unfoldable pub handle_setup : Board → Device → ℕ → ℕ → ℕ → ℕ → ℕ → ℕ → ℕ → Bool × List ℕ × Device
handle_setup b d bm_request_type b_request w_value w_index w_length millis_now micros_now =
    let recipient = bit_and bm_request_type 0x1f in
    if not (bit_and bm_request_type 0x60 == 0x40)
    then (false, [], d)
    else if recipient == 0
    then route b d bm_request_type b_request w_value w_index w_length millis_now micros_now
    else if recipient == 1
    then (if bit_and d.flags Flag.vendor_interface == 0
        then no_reply (stall d Status.unsupported)
        else route b d bm_request_type b_request w_value (w_index / 256) w_length millis_now
            micros_now)
    else no_reply (stall d Status.bad_cmd)
