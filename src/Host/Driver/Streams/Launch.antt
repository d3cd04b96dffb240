-- ===== src/Host/Driver/Streams/Launch.antt =====
-- start_stream of extras/driver/src/Device.cpp on a device that may still run an earlier stream.
use arduino_driver.Prelude.{
  ℕ, ◌<◌, ◌≤◌, ◌≡◌, refl, sym, subst, ap, ◌∙◌, Bool, true, false, List, arith,
}
use arduino_driver.Prelude.Signed.{pos}
use arduino_driver.Protocol.Caps
use arduino_driver.Protocol.Errors.{Result, ok}
use arduino_driver.Protocol.Features
use arduino_driver.Protocol.Layout.{Info}
use arduino_driver.Protocol.Request
use arduino_driver.Firmware.Board.{Board}
use arduino_driver.Firmware.Reply.{info_of}
use arduino_driver.Firmware.Select.{streaming_flag}
use arduino_driver.Firmware.Select.Selection.{IsSelection, selected}
use arduino_driver.Firmware.Select.Slice.{times}
use arduino_driver.Firmware.State.{Device}
use arduino_driver.Host.Driver.{Driver, Options, Call, send}
use arduino_driver.Host.Driver.Mirror.{IsMirror}
use arduino_driver.Host.Driver.Streams.{
  StreamConfig, read_stream_status, deselect_unwanted, clear_earlier, check_config, try_start,
  launch, start_stream,
}
use arduino_driver.Host.Driver.Streams.Channels.{IsApart, deselect_unwanted-IsApart}
use arduino_driver.Host.Driver.Streams.Checks.{check_config-ok}
use arduino_driver.Host.Driver.Streams.Select.{IsIdle, halted, stop-usb}
use arduino_driver.Host.Driver.Streams.Started.{IsRunning, selection-IsRunning}
use arduino_driver.Host.Driver.Streams.Status.{read_stream_status-usb}
use arduino_driver.Host.Exec.{when, continue, ◌>>◌}
use arduino_driver.Host.Exec.Returns.{bind-ok, bind-step}
use arduino_driver.Host.Transfers.Refusal.{usb}

-- A device that can stream, whether or not it does.
pub record CanStream (f : Device) : Type 0 where
  pub few : f.n_pins ≤ 128
  pub flag : streaming_flag f ≡ true
  pub selection : IsSelection f.stream

-- None of the pins is among the selected ones.
abbrev pub AreFree : List ℕ → Device → Type 0
AreFree pins f = (p : ℕ) → 0 < times p pins → times p (selected f.stream) ≡ 0

halted-IsIdle :
    (b : Board) (o : Options) (now_ms now_us : ℕ) (streams : b.has_stream_transport ≡ true)
    (d : Driver Device)
    → CanStream d.link
    → IsIdle (halted b o now_ms now_us streams d).link
halted-IsIdle b o now_ms now_us streams d c = record {
  few = c.few;
  flag = c.flag;
  selection = record {
    full_length = c.selection.full_length;
    bounded = c.selection.bounded;
    distinct = c.selection.distinct;
    sampling = λ h. absurd (ground arith);
  };
  idle = refl;
}

flag_of :
    (b : Board) (f : Device) → Features.has_streaming (info_of b f) ≡ true → streaming_flag f ≡ true
unfolding Features.has_streaming Caps.any_of info_of
flag_of b f h = h

module _ (b : Board) (o : Options) (now_ms now_us : ℕ)
    (streams : b.has_stream_transport ≡ true) where
  clear_earlier-IsApart :
      (config : StreamConfig) (d : Driver Device)
      → CanStream d.link
      → AreFree config.pins d.link
      → IsApart config.pins (clear_earlier (usb b now_ms now_us) o config d).1
  unfolding clear_earlier
  clear_earlier-IsApart config d c free =
      let t = usb b now_ms now_us in
      let st = read_stream_status-usb b o now_ms now_us streams d c.flag in
      let rest : Call t o (Unit {0}) = λ d'. deselect_unwanted t o config.pins d'.selected d' in
      let step =
        bind-step (read_stream_status t o)
          (λ status. when status.running (send t o Request.stream_stop 0 0) >> rest) d d st.0
          st.1 in
      subst (λ (s : Result (Unit {0}) × Driver Device). IsApart config.pins s.1) (sym step)
        (by_running st.0.running (st.2.running))
    where
      by_running :
          (running : Bool)
          → running ≡ d.link.stream.running
          → let t = usb b now_ms now_us in
            let rest : Call t o (Unit {0}) =
              λ d'. deselect_unwanted t o config.pins d'.selected d' in
            IsApart config.pins ((when running (send t o Request.stream_stop 0 0) >> rest) d).1
      by_running true e =
          let t = usb b now_ms now_us in
          let stopped = halted b o now_ms now_us streams d in
          let rest : Call t o (Unit {0}) = λ d'. deselect_unwanted t o config.pins d'.selected d' in
          subst
            (λ (s : Result (Unit {0}) × Driver Device).
              IsApart config.pins (continue (λ done. rest) (s.0) (s.1)).1)
            (sym (stop-usb b o now_ms now_us streams d c.flag))
            (deselect_unwanted-IsApart b o now_ms now_us streams config.pins d.selected stopped
              (halted-IsIdle b o now_ms now_us streams d c, free))
      by_running false e =
          deselect_unwanted-IsApart b o now_ms now_us streams config.pins d.selected d
            (record { few = c.few; flag = c.flag; selection = c.selection; idle = sym e }, free)

  launch-IsRunning :
      (config : StreamConfig) (period_us start_t_us : ℕ) (d after : Driver Device)
      → IsApart config.pins d
      → ((p : ℕ) → times p config.pins ≤ 1)
      → launch (usb b now_ms now_us) o config period_us d ≡ (ok start_t_us, after)
      → IsRunning b o now_ms now_us streams config.pins period_us after
        × (after.streaming ≡ true)
        × (after.selected ≡ config.pins)
  unfolding launch
  launch-IsRunning config period_us start_t_us d after h distinct e =
      let t = usb b now_ms now_us in
      let keep = λ (now : ℕ) (s : Driver Device).
        let next : Result ℕ × Driver Device =
          (ok now, record s { selected = config.pins; streaming = true }) in
        next in
      let parts = bind-ok (try_start t o config period_us) keep d after start_t_us e in
      let end = (try_start t o config period_us d).1 in
      let r =
        selection-IsRunning b o now_ms now_us streams config period_us parts.0 d end h distinct
          parts.1 in
      let same : record end { selected = config.pins; streaming = true } ≡ after =
        ap (λ (x : Result ℕ × Driver Device). x.1) parts.2 in
      subst
        (λ (s : Driver Device).
          IsRunning b o now_ms now_us streams config.pins period_us s
          × (s.streaming ≡ true)
          × (s.selected ≡ config.pins))
        same
        (
          record { running = r.running; pins_selected = r.pins_selected; period = r.period },
          refl,
          refl,
        )

  -- On an open device whose board has the stream's transport, with a valid selection, whether or not an earlier
  -- stream still runs: if start_stream returns, and none of the pins was selected before, then the device samples
  -- exactly the pins of the configuration, in its order and at its period, and the object knows them. So the samples of
  -- a record are those that the host takes them for.
  pub start_stream_lem :
      (config : StreamConfig) (start_t_us : ℕ) (d : Driver Device)
      → IsMirror b d
      → IsSelection d.link.stream
      → AreFree config.pins d.link
      → (start_stream (usb b now_ms now_us) o config d).0 ≡ ok start_t_us
      → let after = (start_stream (usb b now_ms now_us) o config d).1 in
        (after.link.stream.running ≡ true)
        × (selected after.link.stream ≡ config.pins)
        × (pos after.link.stream.period_us ≡ config.period)
        × (after.streaming ≡ true)
        × (after.selected ≡ config.pins)
  unfolding start_stream
  start_stream_lem config start_t_us d m v free e =
      let t = usb b now_ms now_us in
      let after = (start_stream t o config d).1 in
      let whole : start_stream t o config d ≡ (ok start_t_us, after) =
        ap (λ (r : Result ℕ). (r, after)) e in
      let rest = λ (period_us : ℕ). clear_earlier t o config >> launch t o config period_us in
      let first = bind-ok (check_config t o config) rest d after start_t_us whole in
      let here = (check_config t o config d).1 in
      let checks = check_config-ok t o config d here first.0 first.1 in
      let second =
        bind-ok (clear_earlier t o config) (λ done. launch t o config first.0) here after start_t_us
          first.2 in
      let flag : streaming_flag d.link ≡ true = flag_known d m checks.1 in
      let apart =
        clear_earlier-IsApart config d (record { few = m.few; flag = flag; selection = v }) free in
      let there =
        subst (λ (s : Driver Device). IsApart config.pins (clear_earlier t o config s).1)
          (sym checks.0) apart in
      let r =
        launch-IsRunning config first.0 start_t_us (clear_earlier t o config here).1 after there
          checks.2 second.2 in
      (r.0.running, r.0.pins_selected, ap pos r.0.period ∙ sym checks.3, r.1, r.2)
    where
      flag_known :
          (d : Driver Device)
          → IsMirror b d
          → Features.has_streaming d.info ≡ true
          → streaming_flag d.link ≡ true
      flag_known d m h =
          flag_of b d.link (subst (λ (i : Info). Features.has_streaming i ≡ true) m.info h)
