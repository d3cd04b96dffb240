-- ===== src/Host/Driver/Streams/Select.antt =====
-- STREAM_SELECT, STREAM_STOP and STREAM_START as Device of extras/driver/src/Device.cpp sends them to the
-- device of src/UsbIo.cpp.
use arduino_driver.Prelude.{
  ℕ, ◌≤◌, ◌≡◌, refl, sym, subst, ap, ◌∙◌, true, false, not, Option, none, some, List, ◌==◌,
  if◌then◌else◌, arith, u8, bit_and,
}
use arduino_driver.Protocol.Errors.{Result, ok, err}
use arduino_driver.Protocol.Flag
use arduino_driver.Protocol.Request
use arduino_driver.Protocol.Request.{Request}
use arduino_driver.Firmware.Board.{Board}
use arduino_driver.Firmware.Out.{handle_out, dispatch_out}
use arduino_driver.Firmware.Queue.{Outcome, stall}
use arduino_driver.Firmware.Select.{
  add_channel, remove_channel, stream_channel_index, streaming_flag, handle_stream_select,
  handle_stream_start, handle_stream_stop,
}
use arduino_driver.Firmware.Select.Selection.{
  IsSelection, selected, selects, reselect, handle_stream_select_lem,
}
use arduino_driver.Firmware.State.{Device}
use arduino_driver.Host.Driver.{Driver, Options, send}
use arduino_driver.Host.Driver.Mirror.{told_to, send-usb}
use arduino_driver.Host.Transfers.Refusal.{usb, told}

-- A device that can stream, with a valid selection and no stream.
pub record IsIdle (f : Device) : Type 0 where
  pub few : f.n_pins ≤ 128
  pub flag : streaming_flag f ≡ true
  pub selection : IsSelection f.stream
  pub idle : f.stream.running ≡ false

-- What a STREAM_SELECT leaves alone.
abbrev Keeps : Device → Device → Type 0
Keeps f g = (g.n_pins ≡ f.n_pins) × (g.flags ≡ f.flags) × (g.stream.running ≡ f.stream.running)

add_channel-Keeps : (f : Device) (pin : ℕ) (idx : Option ℕ) → Keeps f (add_channel f pin idx).1
unfolding add_channel stall
add_channel-Keeps f pin none = (ground arith, ground arith, ground arith)
add_channel-Keeps f pin (some i) = (refl, refl, refl)

remove_channel-Keeps : (f : Device) (idx : Option ℕ) → Keeps f (remove_channel f idx).1
unfolding remove_channel
remove_channel-Keeps f none = (refl, refl, refl)
remove_channel-Keeps f (some i) = (refl, refl, refl)

select-Keeps : (f : Device) (v pin : ℕ) → Keeps f (handle_stream_select f v pin).1
unfolding handle_stream_select stall
select-Keeps f v pin =
    let idx = stream_channel_index f.stream (u8 pin) in
    let added = add_channel-Keeps f (u8 pin) idx in
    let removed = remove_channel-Keeps f idx in
    (
      ground (arith, added.0, removed.0),
      ground (arith, added.1, removed.1),
      ground (arith, added.2, removed.2),
    )

-- The pins that are selected after a STREAM_SELECT.
abbrev pub selected_after : ℕ → ℕ → List ℕ → Result (Unit {0}) → List ℕ
selected_after v pin pins (err e) = pins
selected_after v pin pins (ok done) = reselect v pin pins

told-select :
    (f : Device) (v pin : ℕ)
    → IsIdle f
    → let (result, g) = told (handle_stream_select f v pin) in
      IsIdle g × (selected g.stream ≡ selected_after v pin (selected f.stream) result)
told-select f v pin i =
    by_outcome (handle_stream_select f v pin) (select-Keeps f v pin)
      (handle_stream_select_lem f v pin i.selection)
  where
    flagged : (g : Device) → g.flags ≡ f.flags → streaming_flag g ≡ true
    flagged g e = ap (λ n. not (bit_and n Flag.streaming == 0)) e ∙ i.flag

    by_outcome :
        (out : Outcome)
        → Keeps f out.1
        → (out.0 ≡ selects f v pin)
          × IsSelection out.1.stream
          × (selected out.1.stream
              ≡ (if out.0 then reselect v (u8 pin) (selected f.stream) else selected f.stream))
        → let (result, g) = told out in
          IsIdle g × (selected g.stream ≡ selected_after v pin (selected f.stream) result)
    by_outcome (true, g) k l =
        let byte : u8 pin ≡ pin = ground (arith, l.0, i.few) in
        (
          record {
            few = ground (arith, k.0, i.few);
            flag = flagged g (k.1);
            selection = l.1;
            idle = k.2 ∙ i.idle;
          },
          l.2 ∙ ap (λ q. reselect v q (selected f.stream)) byte,
        )
    by_outcome (false, g) k l = (
      record {
        few = ground (arith, k.0, i.few);
        flag = flagged g (k.1);
        selection = l.1;
        idle = k.2 ∙ i.idle;
      },
      l.2,
    )

module _ (b : Board) (o : Options) (now_ms now_us : ℕ)
    (streams : b.has_stream_transport ≡ true) where
  select-answer :
      (f : Device) (v pin : ℕ)
      → handle_out b f (Request.code Request.stream_select) v pin 0 ≡ handle_stream_select f v pin
  unfolding handle_out dispatch_out Request.of_code
  select-answer f v pin = rw streams refl

  -- One STREAM_SELECT.
  abbrev pub Selects : Driver Device → ℕ → ℕ → Result (Unit {0}) × Driver Device → Type 0
  Selects d v pin (result, after) =
      IsIdle after.link
      × (selected after.link.stream ≡ selected_after v pin (selected d.link.stream) result)
      × (after.caps ≡ d.caps)

  pub select-usb :
      (d : Driver Device) (v pin : ℕ)
      → IsIdle d.link
      → Selects d v pin (send (usb b now_ms now_us) o Request.stream_select v pin d)
  select-usb d v pin i =
      let told_eq =
        send-usb b o now_ms now_us Request.stream_select v pin d
        ∙ ap (λ out. told_to d (told out)) (select-answer d.link v pin) in
      let t = told-select d.link v pin i in subst (Selects d v pin) (sym told_eq) (t.0, t.1, refl)

  stop-answer :
      (f : Device) → handle_out b f (Request.code Request.stream_stop) 0 0 0 ≡ handle_stream_stop f
  unfolding handle_out dispatch_out Request.of_code
  stop-answer f = rw streams refl

  -- A stopped stream.
  abbrev pub halted : Driver Device → Driver Device
  halted d = record d {
    link = record (d.link) { stream = record (d.link.stream) { running = false } };
  }

  pub stop-usb :
      (d : Driver Device)
      → streaming_flag d.link ≡ true
      → send (usb b now_ms now_us) o Request.stream_stop 0 0 d ≡ (ok tt, halted d)
  unfolding handle_stream_stop
  stop-usb d flag =
      let accepted : handle_stream_stop d.link
          ≡ (true, record (d.link) { stream = record (d.link.stream) { running = false } }) =
        rw flag refl in
      send-usb b o now_ms now_us Request.stream_stop 0 0 d
      ∙ ap (λ out. told_to d (told out)) (stop-answer d.link ∙ accepted)

  start-answer :
      (f : Device) (period flags : ℕ)
      → handle_out b f (Request.code Request.stream_start) period flags 0
        ≡ handle_stream_start f period flags
  unfolding handle_out dispatch_out Request.of_code
  start-answer f period flags = rw streams refl

  -- What a STREAM_START that succeeds has done.
  pub record IsStarted (f g : Device) (period : ℕ) : Type 0 where
    pub running : g.stream.running ≡ true
    pub period_us : g.stream.period_us ≡ period
    pub channels : g.stream.channels ≡ f.stream.channels
    pub n_channels : g.stream.n_channels ≡ f.stream.n_channels

  abbrev pub Starts : Driver Device → ℕ → Result (Unit {0}) × Driver Device → Type 0
  Starts d period (result, after) = result ≡ ok tt → IsStarted d.link after.link period

  accepted_start :
      (f : Device) (period flags : ℕ)
      → let (accepted, g) = handle_stream_start f period flags in
        accepted ≡ true → IsStarted f g period
  unfolding handle_stream_start stall
  accepted_start f period flags e = record {
    running = ground arith;
    period_us = ground arith;
    channels = ground arith;
    n_channels = ground arith;
  }

  told-start :
      (f : Device) (period : ℕ) (out : Outcome)
      → (out.0 ≡ true → IsStarted f out.1 period)
      → let (result, g) = told out in result ≡ ok tt → IsStarted f g period
  told-start f period (true, g) h e = h refl
  told-start f period (false, g) h e = absurd (ground arith)

  pub start-usb :
      (d : Driver Device) (period flags : ℕ)
      → Starts d period (send (usb b now_ms now_us) o Request.stream_start period flags d)
  start-usb d period flags =
      let told_eq =
        send-usb b o now_ms now_us Request.stream_start period flags d
        ∙ ap (λ out. told_to d (told out)) (start-answer d.link period flags) in
      subst (Starts d period) (sym told_eq) (
        told-start d.link period (handle_stream_start d.link period flags)
          (accepted_start d.link period flags))
