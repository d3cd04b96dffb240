-- ===== src/Firmware/Invariant/Poll.antt =====
-- poll() of src/UsbIo.cpp keeps the device consistent, and leaves nothing pending.
use arduino_driver.Prelude.{ℕ, ◌≡◌, false, refl, subst, sym, ap, arith, ◌∙◌}
use arduino_driver.Firmware.Board.{Board, Core}
use arduino_driver.Firmware.Invariant.Consistent.{IsConsistent}
use arduino_driver.Firmware.Invariant.Scan.{event_poll_at-IsWatching}
use arduino_driver.Firmware.Invariant.StreamPoll.{stream_poll-OnlyStream}
use arduino_driver.Firmware.Invariant.Streaming.{Follows-IsStreaming}
use arduino_driver.Firmware.Main.{poll}
use arduino_driver.Firmware.Poll.{State, settle, drain, apply_reset, refresh_shadow}
use arduino_driver.Firmware.Poll.Drain.{run_commands, drain_lem}
use arduino_driver.Firmware.Poll.Settle.{reset_once, settle-quiet}
use arduino_driver.Firmware.Poll.Shadow.{
  OnlyShadow, run_commands-OnlyShadow, apply_reset-OnlyShadow, refresh_shadow-OnlyShadow,
}
use arduino_driver.Firmware.Queue.{busy}
use arduino_driver.Firmware.Ring.{IsValid, to_list}
use arduino_driver.Firmware.Sample.{stream_poll}
use arduino_driver.Firmware.Scan.{event_poll, event_poll_at}
use arduino_driver.Firmware.State.{Device, zeroed_command}

shadow-IsConsistent : (d after : Device) → OnlyShadow d after → IsConsistent d → IsConsistent after
shadow-IsConsistent d after o v = subst IsConsistent (sym o.same) v

event_poll_at-IsConsistent :
    (d : Device) (now : ℕ) → IsConsistent d → IsConsistent (event_poll_at now d)
unfolding event_poll_at
event_poll_at-IsConsistent d now v = (v.0, v.1, v.2, event_poll_at-IsWatching d now v.3, v.4)

-- Whether commands or a RESET wait is read from these fields only.
record SamePending (d after : Device) : Type 0 where
  commands : after.commands ≡ d.commands
  reset_done : after.reset_done ≡ d.reset_done
  reset_requests : after.reset_requests ≡ d.reset_requests

SamePending-busy : {d after : Device} → SamePending d after → busy after ≡ busy d
unfolding busy
SamePending-busy {d} {after} p = rw (p.commands, p.reset_done, p.reset_requests) refl

module _ (b : Board) (c : Core) where
  open c use {World}

  reset_once-IsConsistent :
      (d : Device) (w : World) → IsConsistent d → IsConsistent (reset_once b c (d, w)).0
  unfolding reset_once
  reset_once-IsConsistent d w v = ground (
    arith,
    shadow-IsConsistent d (apply_reset b c (d, w)).0 (apply_reset-OnlyShadow b c (d, w)) v,
  )

  drain-IsConsistent : (d : Device) (w : World) → IsConsistent d → IsConsistent (drain b c (d, w)).0
  drain-IsConsistent d w v =
      let cmds = to_list zeroed_command d.commands in
      let ran =
        shadow-IsConsistent d (run_commands b c cmds (d, w)).0
          (run_commands-OnlyShadow b c cmds (d, w)) v in
      rw (drain_lem b c d w v.2) (
        ran.0,
        ran.1,
        record {
          full_length = v.2.full_length;
          head_byte = v.2.head_byte;
          tail_byte = v.2.head_byte;
          bounded = omega arith;
        },
        ran.3,
        ran.4,
      )

  pub settle-IsConsistent :
      (d : Device) (w : World) → IsConsistent d → IsConsistent (settle b c 2 (d, w)).0
  settle-IsConsistent d w v =
      let after = reset_once b c (d, w) in
      rw ((settle-quiet b c 1 d w v.2).0)
        (drain-IsConsistent after.0 after.1 (reset_once-IsConsistent d w v))

  pub refresh_shadow-IsConsistent :
      (d : Device) (w : World) → IsConsistent d → IsConsistent (refresh_shadow b c (d, w)).0
  refresh_shadow-IsConsistent d w v =
      shadow-IsConsistent d (refresh_shadow b c (d, w)).0 (refresh_shadow-OnlyShadow b c (d, w)) v

  pub event_poll-IsConsistent :
      (d : Device) (w : World) → IsConsistent d → IsConsistent (event_poll c (d, w)).0
  unfolding event_poll
  event_poll-IsConsistent d w v = ground (arith, event_poll_at-IsConsistent d (c.millis w).0 v)

  pub stream_poll-IsConsistent :
      (d : Device) (w : World) → IsConsistent d → IsConsistent (stream_poll b c (d, w)).0
  stream_poll-IsConsistent d w v =
      let o = stream_poll-OnlyStream b c d w v.4.records in
      subst IsConsistent (sym o.same) (v.0, v.1, v.2, v.3, Follows-IsStreaming v.4 o.follows)

  refresh-busy : (s : State b c) → busy (refresh_shadow b c s).0 ≡ busy s.0
  refresh-busy s =
      let o = refresh_shadow-OnlyShadow b c s in
      SamePending-busy (record {
        commands = ap (λ (x : Device). x.commands) o.same;
        reset_done = ap (λ (x : Device). x.reset_done) o.same;
        reset_requests = ap (λ (x : Device). x.reset_requests) o.same;
      })

  event_poll-busy : (d : Device) (w : World) → busy (event_poll c (d, w)).0 ≡ busy d
  unfolding event_poll event_poll_at
  event_poll-busy d w =
      SamePending-busy (record {
        commands = ground arith;
        reset_done = ground arith;
        reset_requests = ground arith;
      })

  stream_poll-busy :
      (d : Device) (w : World) → IsValid d.stream.ring → busy (stream_poll b c (d, w)).0 ≡ busy d
  stream_poll-busy d w v =
      let o = stream_poll-OnlyStream b c d w v in
      SamePending-busy (record {
        commands = ap (λ (x : Device). x.commands) o.same;
        reset_done = ap (λ (x : Device). x.reset_done) o.same;
        reset_requests = ap (λ (x : Device). x.reset_requests) o.same;
      })

  -- A call of poll() keeps the device consistent, and when it returns no command waits and no RESET is
  -- outstanding.
  pub poll_lem :
      (d : Device) (w : World)
      → IsConsistent d
      → IsConsistent (poll b c (d, w)).0 × (busy (poll b c (d, w)).0 ≡ false)
  unfolding poll
  poll_lem d w v =
      let s1 = settle b c 2 (d, w) in
      let s2 = refresh_shadow b c s1 in
      let s3 = event_poll c s2 in
      let v2 = refresh_shadow-IsConsistent s1.0 s1.1 (settle-IsConsistent d w v) in
      let v3 = event_poll-IsConsistent s2.0 s2.1 v2 in
      let idle : busy s3.0 ≡ false =
        event_poll-busy s2.0 s2.1 ∙ refresh-busy s1 ∙ (settle-quiet b c 1 d w v.2).1 in
      let streamed : busy (stream_poll b c s3).0 ≡ false =
        stream_poll-busy s3.0 s3.1 v3.4.records ∙ idle in
      ground (arith, idle, streamed, v3, stream_poll-IsConsistent s3.0 s3.1 v3)
