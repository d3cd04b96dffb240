-- ===== src/Host/Driver/Events/Configure.antt =====
-- Device::configure_event of extras/driver/src/Device.cpp, down to handle_event_config of src/UsbIo.cpp.
use arduino_driver.Prelude.{
  ℕ, ◌/◌, ◌%◌, ◌<◌, ◌≤◌, ◌≡◌, refl, sym, ap, subst, ◌∙◌, true, false, ◌&&◌, arith, leb, ◌==◌,
  if◌then◌else◌, u8, length, Option, none, some,
}
use arduino_driver.Prelude.Signed.{ℤ, pos}
use arduino_driver.Protocol.Edge
use arduino_driver.Protocol.Errors.{Result, ok, err}
use arduino_driver.Protocol.Features.{has_events}
use arduino_driver.Protocol.Request
use arduino_driver.Protocol.Sizes.{encode_event_config_value}
use arduino_driver.Firmware.Board.{Board}
use arduino_driver.Firmware.Out.{handle_out, dispatch_out}
use arduino_driver.Firmware.Queue.{Outcome, stall}
use arduino_driver.Firmware.State.{Device}
use arduino_driver.Firmware.Watch.{event_watch_index, handle_event_config, arm_or_full}
use arduino_driver.Firmware.Watch.Config.{handle_event_config_lem}
use arduino_driver.Firmware.Watch.Table.{IsTable, slots_of}
use arduino_driver.Host.Driver.{Driver, Options}
use arduino_driver.Host.Driver.Events.{configure_event}
use arduino_driver.Host.Driver.Mirror.{told_to, send-usb}
use arduino_driver.Host.Transfers.Refusal.{usb, told}
use arduino_driver.Host.Driver.Events.Configured.{
  Configured, not_sent, answered, configure_event-checks, configure_event-Configured,
}

-- What the host knows of a device does not change, and the watch table is valid.
pub record IsAttached (known d : Driver Device) : Type 0 where
  pub idle : d.streaming ≡ false
  pub eventful : has_events d.info ≡ true
  pub caps : d.caps ≡ known.caps
  pub pins : d.link.n_pins ≡ length known.caps
  pub few : length known.caps ≤ 128
  pub table : IsTable d.link.events

told-same :
    (out : Outcome)
    → ((told out).1.events ≡ out.1.events)
      × ((told out).1.n_pins ≡ out.1.n_pins)
      × (out.0 ≡ true → (told out).0 ≡ ok tt)
told-same (true, f) = (refl, refl, λ h. refl)
told-same (false, f) = (refl, refl, λ h. absurd (ground arith))

arm_or_full-n_pins :
    (f : Device) (pin edge ms : ℕ) (idx : Option ℕ)
    → (arm_or_full f pin edge ms idx).1.n_pins ≡ f.n_pins
unfolding arm_or_full stall
arm_or_full-n_pins f pin edge ms none = ground arith
arm_or_full-n_pins f pin edge ms (some i) = refl

handle_event_config-n_pins :
    (f : Device) (pin value : ℕ) → (handle_event_config f pin value).1.n_pins ≡ f.n_pins
unfolding handle_event_config stall
handle_event_config-n_pins f pin value = ground (
  arith,
  arm_or_full-n_pins f pin (value % 256) (u8 (value / 256)) (event_watch_index f.events pin),
)

event_config-answer :
    (b : Board) (f : Device) (pin value : ℕ)
    → pin < f.n_pins
    → f.n_pins ≤ 128
    → handle_out b f (Request.code Request.event_config) value pin 0
      ≡ handle_event_config f pin value
unfolding handle_out dispatch_out Request.of_code
event_config-answer b f pin value below few =
    let there : leb f.n_pins pin ≡ false = ground arith in
    let byte : u8 pin ≡ pin = omega arith in rw (there, byte) refl

-- The number of slots that watch a pin afterwards.
abbrev pub slots_after : Driver Device → ℕ → ℕ → Result (Unit {0}) → ℕ → ℕ
slots_after d pin edge (err e) p = slots_of d.link.events p
slots_after d pin edge (ok done) p =
    if p == pin then (if edge == Edge.off then 0 else 1) else slots_of d.link.events p

by_outcome :
    (d : Driver Device) (pin edge p : ℕ) (out : Outcome)
    → (if out.0 && p == pin then (if edge == Edge.off then 0 else 1) else slots_of d.link.events p)
      ≡ slots_after d pin edge (told out).0 p
by_outcome d pin edge p (true, f) = refl
by_outcome d pin edge p (false, f) = refl

-- One configure_event on an attached device.
pub record Steps (known d : Driver Device) (pin edge : ℕ) (s : Result (Unit {0}) × Driver Device)
    : Type 0 where
  pub attached : IsAttached known s.1
  pub slots : (p : ℕ) → slots_of s.1.link.events p ≡ slots_after d pin edge s.0 p
  pub below : s.0 ≡ ok tt → pin < length known.caps

answered-Steps :
    (b : Board) (known d : Driver Device) (pin value : ℕ)
    → IsAttached known d
    → pin < length known.caps
    → Steps known d pin
        (value % 256)
        (told_to d (told (handle_out b d.link (Request.code Request.event_config) value pin 0)))
answered-Steps b known d pin value a below =
    let out = handle_event_config d.link pin value in
    let answer =
      event_config-answer b d.link pin value (omega (arith, a.pins))
        (omega (arith, a.pins, a.few)) in
    let config = λ (p : ℕ). handle_event_config_lem d.link pin p value a.table in
    let same = told-same out in
    subst (λ x. Steps known d pin (value % 256) (told_to d (told x))) (sym answer)
      (record {
        attached = record {
          idle = a.idle;
          eventful = a.eventful;
          caps = a.caps;
          pins = same.1 ∙ handle_event_config-n_pins d.link pin value ∙ a.pins;
          few = a.few;
          table = subst IsTable (sym same.0) (config pin).1;
        };
        slots = λ p.
            ap (λ e. slots_of e p) same.0 ∙ (config p).2 ∙ by_outcome d pin (value % 256) p out;
        below = λ h. below;
      })

from_Configured :
    (b : Board) (known d : Driver Device) (pin edge : ℕ) (s : Result (Unit {0}) × Driver Device)
    → IsAttached known d
    → Configured b pin edge d s
    → Steps known d pin edge s
from_Configured b known d pin edge s a (not_sent e) = record {
  attached = a;
  slots = λ p. refl;
  below = λ h. absurd (ground arith);
}
from_Configured b known d pin edge s a (answered value below code) =
    let inside : pin < length known.caps = omega (arith, ap length a.caps) in
    subst
      (λ x.
        Steps known d pin x
          (told_to d (told (handle_out b d.link (Request.code Request.event_config) value pin 0))))
      code (answered-Steps b known d pin value a inside)

module _ (b : Board) (o : Options) (now_ms now_us : ℕ) where
  pub configure_event-Steps :
      (known d : Driver Device) (pin edge : ℕ) (debounce : ℤ)
      → IsAttached known d
      → Steps known d pin edge (configure_event (usb b now_ms now_us) o pin edge debounce d)
  configure_event-Steps known d pin edge debounce a =
      from_Configured b known d pin edge _ a
        (configure_event-Configured b o now_ms now_us pin edge debounce d)

  -- A watch can always be taken off a pin that exists.
  pub configure_event-off :
      (known d : Driver Device) (pin : ℕ)
      → IsAttached known d
      → pin < length known.caps
      → (configure_event (usb b now_ms now_us) o pin Edge.off (pos 0) d).0 ≡ ok tt
  unfolding encode_event_config_value
  configure_event-off known d pin a below =
      let there : leb (length d.caps) pin ≡ false = ground (arith, ap length a.caps) in
      let answer =
        event_config-answer b d.link pin 0 (omega (arith, a.pins)) (omega (arith, a.pins, a.few)) in
      let accepted : (handle_event_config d.link pin 0).0 ≡ true =
        (handle_event_config_lem d.link pin pin 0 a.table).0 in
      ap (λ (s : Result (Unit {0}) × Driver Device). s.0)
        (configure_event-checks (usb b now_ms now_us) o pin Edge.off 0 d
          ∙ rw (a.idle, a.eventful, there) refl
          ∙ send-usb b o now_ms now_us Request.event_config 0 pin d)
      ∙ ap (λ (out : Outcome). (told out).0) answer
      ∙ (told-same (handle_event_config d.link pin 0)).2 accepted
