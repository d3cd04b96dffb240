-- ===== src/Host/Driver/Events/Configured.antt =====
-- The checks of Device::configure_event of extras/driver/src/Device.cpp, before its transfer.
use arduino_driver.Prelude.{
  ℕ, ◌%◌, ◌<◌, ◌≡◌, sym, subst, if_cases, not, arith, leb, ltb, if◌then◌else◌, length,
}
use arduino_driver.Prelude.Signed.{ℤ, pos, negsuc}
use arduino_driver.Protocol.Edge
use arduino_driver.Protocol.Errors.{
  DriverError, Result, err, device_busy, invalid_pin, invalid_value, not_supported,
}
use arduino_driver.Protocol.Features.{has_events}
use arduino_driver.Protocol.Limit
use arduino_driver.Protocol.Request
use arduino_driver.Protocol.Sizes.{encode_event_config_value}
use arduino_driver.Firmware.Board.{Board}
use arduino_driver.Firmware.Out.{handle_out}
use arduino_driver.Firmware.State.{Device}
use arduino_driver.Host.Driver.{
  Driver, Options, send, pin_caps, check_not_streaming, require_events,
}
use arduino_driver.Host.Driver.Events.{configure_event}
use arduino_driver.Host.Driver.Mirror.{told_to, send-usb}
use arduino_driver.Host.Transfers.{Transport}
use arduino_driver.Host.Transfers.Refusal.{usb, told}

-- The checks of configure_event, as one test after the other.
pub configure_event-checks :
    (t : Transport) (o : Options) (pin edge ms : ℕ) (d : Driver t.Link)
    → configure_event t o pin edge (pos ms) d ≡ (
        if d.streaming
        then (err device_busy, d)
        else if not (has_events d.info)
        then (err not_supported, d)
        else if leb (length d.caps) pin
        then (err invalid_pin, d)
        else if leb Edge.count edge
        then (err invalid_value, d)
        else if ltb Limit.max_debounce_ms ms
        then (err invalid_value, d)
        else send t o Request.event_config (encode_event_config_value ms edge) pin d)
unfolding configure_event check_not_streaming require_events pin_caps
configure_event-checks t o pin edge ms d = ground arith

configure_event-negative :
    (t : Transport) (o : Options) (pin edge n : ℕ) (d : Driver t.Link)
    → configure_event t o pin edge (negsuc n) d ≡ (
        if d.streaming
        then (err device_busy, d)
        else if not (has_events d.info)
        then (err not_supported, d)
        else if leb (length d.caps) pin
        then (err invalid_pin, d)
        else (err invalid_value, d))
unfolding configure_event check_not_streaming require_events pin_caps
configure_event-negative t o pin edge n d = ground arith

-- A configure_event ends without a transfer, or with the firmware's answer to an EVENT_CONFIG.
pub data Configured (b : Board) (pin edge : ℕ) (d : Driver Device)
    : Result (Unit {0}) × Driver Device → Type 0 where
  not_sent : (e : DriverError) → Configured b pin edge d (err e, d)
  answered :
      (value : ℕ)
      → pin < length d.caps
      → value % 256 ≡ edge
      → Configured b pin edge d
          (told_to d (told (handle_out b d.link (Request.code Request.event_config) value pin 0)))

pub configure_event-Configured :
    (b : Board) (o : Options) (now_ms now_us pin edge : ℕ) (debounce : ℤ) (d : Driver Device)
    → Configured b pin edge d (configure_event (usb b now_ms now_us) o pin edge debounce d)
unfolding encode_event_config_value
configure_event-Configured b o now_ms now_us pin edge (negsuc n) d =
    let P = Configured b pin edge d in
    subst P (sym (configure_event-negative (usb b now_ms now_us) o pin edge n d)) (
      if_cases d.streaming _ _ P (λ h. not_sent device_busy)
        λ h.
          if_cases (not (has_events d.info)) _ _ P (λ h. not_sent not_supported)
            λ h.
              if_cases (leb (length d.caps) pin) _ _ P (λ h. not_sent invalid_pin)
                λ h. not_sent invalid_value)
configure_event-Configured b o now_ms now_us pin edge (pos ms) d =
    let P = Configured b pin edge d in
    let value = encode_event_config_value ms edge in
    subst P (sym (configure_event-checks (usb b now_ms now_us) o pin edge ms d)) (
      if_cases d.streaming _ _ P (λ h. not_sent device_busy)
        λ h.
          if_cases (not (has_events d.info)) _ _ P (λ h. not_sent not_supported)
            λ h.
              if_cases (leb (length d.caps) pin) _ _ P (λ h. not_sent invalid_pin)
                λ inside.
                  if_cases (leb Edge.count edge) _ _ P (λ h. not_sent invalid_value)
                    λ known.
                      if_cases (ltb Limit.max_debounce_ms ms) _ _ P (λ h. not_sent invalid_value)
                        λ short.
                          subst P
                            (sym (send-usb b o now_ms now_us Request.event_config value pin d))
                            (answered value (ground arith) (ground arith)))
