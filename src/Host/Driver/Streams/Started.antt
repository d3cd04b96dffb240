-- ===== src/Host/Driver/Streams/Started.antt =====
-- start_stream of extras/driver/src/Device.cpp on the device of src/UsbIo.cpp: the channels of a stream that
-- starts.
use arduino_driver.Prelude.{
  ℕ, ◌+◌, ◌<◌, ◌≤◌, ◌≡◌, refl, sym, subst, ap, ap₂, ◌∙◌, Bool, true, false, not, List, [], ◌∷◌,
  ◌++◌, ◌==◌, arith, length, length-append,
}
use arduino_driver.Protocol.Decode.{StreamStatus, decode_time_reply}
use arduino_driver.Protocol.Errors.{Result, ok, protocol_error}
use arduino_driver.Protocol.Layout
use arduino_driver.Protocol.Request
use arduino_driver.Firmware.Board.{Board}
use arduino_driver.Firmware.Reply.{dispatch_in}
use arduino_driver.Firmware.Select.Selection.{selected}
use arduino_driver.Firmware.Select.Slice.{times, slice, length-slice}
use arduino_driver.Firmware.State.{Device}
use arduino_driver.Host.Driver.{Driver, Options, send}
use arduino_driver.Host.Driver.Steps.{read-bind}
use arduino_driver.Host.Driver.Streams.{
  StreamConfig, read_stream_status, deselect_others, clear_stale, check_channels, device_clock,
  begin_stream, roll_back, select_pins, try_start,
}
use arduino_driver.Host.Driver.Streams.Channels.{
  EndsWith, IsApart, deselect_others-EndsWith, select_pins-EndsWith,
}
use arduino_driver.Host.Driver.Streams.Select.{IsIdle, start-usb}
use arduino_driver.Host.Driver.Streams.Status.{read_stream_status-usb}
use arduino_driver.Host.Exec.{lift, pure, continue, attempt_all, require, when, ◌>>=◌, ◌>>◌}
use arduino_driver.Host.Exec.Returns.{bind-ok, bind-step, continue-ok, or_undo-ok}
use arduino_driver.Host.Transfers.Cable.{read-usb}
use arduino_driver.Host.Transfers.Refusal.{usb}

-- Exactly the configuration's pins are selected, in its order.
abbrev pub IsChosen : List ℕ → Driver Device → Type 0
IsChosen pins d = IsIdle d.link × (selected d.link.stream ≡ pins)

-- By the number of the channels.
counted-IsChosen :
    (pins : List ℕ) (d : Driver Device)
    → EndsWith pins d
    → d.link.stream.n_channels ≡ length pins
    → IsChosen pins d
counted-IsChosen pins d (i, (r, e)) n =
    let long : length r + length pins ≡ length pins =
      sym (length-append r pins)
      ∙ ap length (sym e)
      ∙ length-slice d.link.stream.channels 0 d.link.stream.n_channels
      ∙ n in
    (i, e ∙ ap (λ (xs : List ℕ). xs ++ pins) (no_more r (omega (arith, long))))
  where
    no_more : (xs : List ℕ) → length xs ≡ 0 → xs ≡ []
    no_more [] h = refl
    no_more (x ∷ xs) h = absurd (omega arith)

module _ (b : Board) (o : Options) (now_ms now_us : ℕ)
    (streams : b.has_stream_transport ≡ true) where
  -- The second count of the channels.
  recounted :
      (pins : List ℕ) (d after : Driver Device)
      → EndsWith pins d
      → (read_stream_status (usb b now_ms now_us) o >>= λ st.
            require protocol_error (st.n_channels == length pins))
          d
        ≡ (ok tt, after)
      → IsChosen pins after
  recounted pins d after h e =
      let st = read_stream_status-usb b o now_ms now_us streams d h.0.flag in
      let check =
        sym (
          bind-step (read_stream_status (usb b now_ms now_us) o)
            (λ st. require protocol_error (st.n_channels == length pins)) d d st.0 st.1)
        ∙ e in
      let same : d ≡ after = ap (λ (x : Result (Unit {0}) × Driver Device). x.1) check in
      let count : d.link.stream.n_channels ≡ length pins = ground (arith, check, st.2.n_channels) in
      subst (IsChosen pins) same (counted-IsChosen pins d h count)

  clear_stale-IsChosen :
      (config : StreamConfig) (d after : Driver Device)
      → EndsWith config.pins d
      → clear_stale (usb b now_ms now_us) o config d ≡ (ok tt, after)
      → IsChosen config.pins after
  unfolding clear_stale
  clear_stale-IsChosen config d after h e =
      let t = usb b now_ms now_us in
      let others = deselect_others t o config.pins 0 (length d.caps) in
      let recount = read_stream_status t o >>= λ st.
      require protocol_error (st.n_channels == length config.pins) in
      let parts = bind-ok others (λ done. recount) d after tt e in
      recounted config.pins (others d).1 after
        (deselect_others-EndsWith b o now_ms now_us streams config.pins 0 (length d.caps) d h)
        parts.2

  check_channels-IsChosen :
      (config : StreamConfig) (d after : Driver Device)
      → EndsWith config.pins d
      → check_channels (usb b now_ms now_us) o config d ≡ (ok tt, after)
      → IsChosen config.pins after
  unfolding check_channels
  check_channels-IsChosen config d after h e =
      let t = usb b now_ms now_us in
      let st = read_stream_status-usb b o now_ms now_us streams d h.0.flag in
      let next = λ (st : StreamStatus).
        when (not (st.n_channels == length config.pins)) (clear_stale t o config) in
      by_count (st.0.n_channels == length config.pins)
        (sym (bind-step (read_stream_status t o) next d d st.0 st.1) ∙ e)
        (λ same. ground (arith, same, st.2.n_channels))
    where
      by_count :
          (same : Bool)
          → when (not same) (clear_stale (usb b now_ms now_us) o config) d ≡ (ok tt, after)
          → (same ≡ true → d.link.stream.n_channels ≡ length config.pins)
          → IsChosen config.pins after
      by_count true k n =
          subst (IsChosen config.pins) (ap (λ (x : Result (Unit {0}) × Driver Device). x.1) k)
            (counted-IsChosen config.pins d h (n refl))
      by_count false k n = clear_stale-IsChosen config d after h k

  -- GET_TIME changes nothing.
  device_clock-same : (d : Driver Device) → (device_clock (usb b now_ms now_us) o d).1 ≡ d
  unfolding device_clock dispatch_in Layout.time_bytes decode_time_reply
  device_clock-same d =
      let t = usb b now_ms now_us in
      ap (λ (x : Result ℕ × Driver Device). x.1)
        (read-bind t o d Request.get_time 0 12 12
          (λ reply. lift (decode_time_reply (reply.1)) >>= λ time. pure time.micros) _ d.link
          (read-usb b now_ms now_us d.link d.link o.busy_max_attempts Request.get_time 0 12 12 _
            refl (omega arith) (omega arith)))
      ∙ refl

  -- A stream that has started on the pins.
  pub record IsRunning (pins : List ℕ) (period_us : ℕ) (d : Driver Device) : Type 0 where
    pub running : d.link.stream.running ≡ true
    pub pins_selected : selected d.link.stream ≡ pins
    pub period : d.link.stream.period_us ≡ period_us

  started-IsRunning :
      (config : StreamConfig) (period_us now start_t_us : ℕ) (d after : Driver Device)
      → IsChosen config.pins d
      → (do send (usb b now_ms now_us) o Request.stream_start period_us config.flags; pure now) d
        ≡ (ok start_t_us, after)
      → IsRunning config.pins period_us after
  started-IsRunning config period_us now start_t_us d after h e =
      let t = usb b now_ms now_us in
      let start = send t o Request.stream_start period_us config.flags in
      let parts = bind-ok start (λ done. pure now) d after start_t_us e in
      let s =
        start-usb b o now_ms now_us streams d period_us config.flags
          (ap (λ (x : Result (Unit {0}) × Driver Device). x.0) parts.1) in
      let same : (start d).1 ≡ after = ap (λ (x : Result ℕ × Driver Device). x.1) parts.2 in
      subst (IsRunning config.pins period_us) same (record {
        running = s.running;
        pins_selected = ap₂ (λ (cs : List ℕ) (n : ℕ). slice cs 0 n) s.channels s.n_channels ∙ h.1;
        period = s.period_us;
      })

  begin_stream-IsRunning :
      (config : StreamConfig) (period_us start_t_us : ℕ) (d after : Driver Device)
      → EndsWith config.pins d
      → begin_stream (usb b now_ms now_us) o config period_us d ≡ (ok start_t_us, after)
      → IsRunning config.pins period_us after
  unfolding begin_stream
  begin_stream-IsRunning config period_us start_t_us d after h e =
      let t = usb b now_ms now_us in
      let start = λ (now : ℕ). send t o Request.stream_start period_us config.flags >> pure now in
      let first =
        bind-ok (check_channels t o config) (λ done. device_clock t o >>= start) d after start_t_us
          e in
      let here = (check_channels t o config d).1 in
      let second = bind-ok (device_clock t o) start here after start_t_us first.2 in
      let chosen = check_channels-IsChosen config d here h first.1 in
      let unchanged = device_clock-same here in
      started-IsRunning config period_us second.0 start_t_us (device_clock t o here).1 after
        (subst (IsChosen config.pins) (sym unchanged) chosen) second.2

  pub selection-IsRunning :
      (config : StreamConfig) (period_us start_t_us : ℕ) (d after : Driver Device)
      → IsApart config.pins d
      → ((p : ℕ) → times p config.pins ≤ 1)
      → try_start (usb b now_ms now_us) o config period_us d ≡ (ok start_t_us, after)
      → IsRunning config.pins period_us after
  unfolding try_start select_pins
  selection-IsRunning config period_us start_t_us d after (i, apart) distinct e =
      let t = usb b now_ms now_us in
      let out = attempt_all (send t o Request.stream_select 1) config.pins [] d in
      let rest = continue (λ done. begin_stream t o config period_us) (out.0.0) (out.1) in
      let kept = or_undo-ok (roll_back t o (out.0.1)) rest.0 rest.1 after start_t_us e in
      let returned =
        continue-ok (λ done. begin_stream t o config period_us) (out.0.0) (out.1) after start_t_us
          (ap₂ (λ (r : Result ℕ) (s : Driver Device). (r, s)) kept.0 kept.1) in
      let room = λ (p : ℕ) (h : 0 < times p config.pins).
        let few : times p config.pins + times p (selected d.link.stream) ≤ 1 =
          omega (arith, distinct p, apart p h) in
        few in
      let chosen =
        select_pins-EndsWith b o now_ms now_us streams config.pins [] d i room returned.1 in
      begin_stream-IsRunning config period_us start_t_us out.1 after
        (chosen.0, (selected d.link.stream, chosen.1)) returned.2
