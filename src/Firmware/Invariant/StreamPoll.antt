-- ===== src/Firmware/Invariant/StreamPoll.antt =====
-- stream_poll of src/UsbIo.cpp changes the streaming state only, and keeps it sound.
use arduino_driver.Prelude.{
  ℕ, ◌≡◌, refl, ap, ◌∙◌, Bool, true, false, arith, ltb, ◌==◌, if◌then◌else◌, length, Bool-cases,
  u32_sub, not, ◌&&◌, u16_sub, inl, inr,
}
use arduino_driver.Firmware.Board.{Board, Core}
use arduino_driver.Firmware.Invariant.Streaming.{
  Follows, Follows-trans, push_record-Follows, apply_start-Follows, next_deadline-Follows,
  after_write-Follows, pack_loop-Follows,
}
use arduino_driver.Firmware.Ring.{IsValid, pending}
use arduino_driver.Firmware.Sample.{
  stream_sample, stream_start_phase, stream_sample_phase, pack_loop, flush_phase, stream_drain,
  stream_poll, record_bytes, is_due, sample_channels, after_write,
}
use arduino_driver.Firmware.State.{Device, Streaming, stream_flush_us}

pub Follows-refl : (s : Streaming) → Follows s s
Follows-refl s = record { channels = refl; n_channels = refl; running = λ h. h; records = λ v. v }

-- `after` is `d` but for the stream, which follows the one before.
pub record OnlyStream (d after : Device) : Type 0 where
  pub same : after ≡ record d { stream = after.stream }
  pub follows : Follows d.stream after.stream

OnlyStream-trans : {d e f : Device} → OnlyStream d e → OnlyStream e f → OnlyStream d f
OnlyStream-trans {d} {e} {f} p q = record {
  same = q.same ∙ ap (λ (x : Device). record x { stream = f.stream }) p.same;
  follows = Follows-trans p.follows q.follows;
}

module _ (b : Board) (c : Core) where
  open c use {World}

  start_phase-OnlyStream : (d : Device) (w : World) → OnlyStream d (stream_start_phase b c (d, w)).0
  start_phase-OnlyStream d w = elim (Bool-cases (d.stream.start_done == d.stream.start_requests)) [
    | inl done ↦ rw done (record { same = refl; follows = Follows-refl d.stream })
    | inr asked ↦
        rw asked (record { same = refl; follows = apply_start-Follows d.stream (c.micros w).0 })
  ]

  sample-OnlyStream :
      (now : ℕ) (d : Device) (w : World) → OnlyStream d (stream_sample b c now (d, w)).0
  unfolding stream_sample
  sample-OnlyStream now d w = record {
    same = refl;
    follows =
        push_record-Follows d.stream
          (record_bytes d now (sample_channels b c d 0 d.stream.n_channels w).0);
  }

  sample_phase-OnlyStream :
      (d : Device) (w : World) → OnlyStream d (stream_sample_phase b c (d, w)).0
  sample_phase-OnlyStream d w =
      let now = (c.micros w).0 in
      let sampled = sample-OnlyStream now d (c.micros w).1 in
      let after = (stream_sample b c now (d, (c.micros w).1)).0 in
      elim (Bool-cases (not d.stream.running)) [
        | inl idle ↦ rw idle (record { same = refl; follows = Follows-refl d.stream })
        | inr runs ↦ rw runs (elim (Bool-cases (is_due d.stream now)) [
          | inl due ↦ rw due (
              OnlyStream-trans sampled
                (record { same = refl; follows = next_deadline-Follows after.stream now }))
          | inr early ↦ rw early (record { same = refl; follows = Follows-refl d.stream })
        ])
      ]

  -- Nothing is written in the first two cases.
  unless-Follows :
      (empty hold : Bool) (s : Streaming) (w1 w2 : World) (out : Streaming × World)
      → Follows s out.0
      → Follows s (if empty then (s, w1) else if hold then (s, w2) else out).0
  unless-Follows true hold s w1 w2 out f = Follows-refl s
  unless-Follows false true s w1 w2 out f = Follows-refl s
  unless-Follows false false s w1 w2 out f = f

  flush_phase-Follows :
      (packet_max : ℕ) (s : Streaming) (w : World) → Follows s (flush_phase b c packet_max (s, w)).0
  flush_phase-Follows packet_max s w =
      let runs_on = not (ltb (u16_sub packet_max (length s.packet)) s.record_len) && s.running in
      let hold = runs_on && ltb (u32_sub (c.micros w).0 s.packet_since_us) stream_flush_us in
      let written = c.stream_write s.packet (if runs_on then (c.micros w).1 else w) in
      unless-Follows (length s.packet == 0) hold s w (c.micros w).1
        (after_write s written.0, written.1) (after_write-Follows s written.0)

  drain-OnlyStream :
      (d : Device) (w : World) → IsValid d.stream.ring → OnlyStream d (stream_drain b c (d, w)).0
  unfolding stream_drain
  drain-OnlyStream d w v =
      let m = c.stream_packet_max w in
      let packed = pack_loop b c m (pending d.stream.ring) (d.stream, w) in
      record {
        same = refl;
        follows =
            Follows-trans
              (pack_loop-Follows b c m (pending d.stream.ring) d.stream w v (omega arith))
              (flush_phase-Follows m packed.0 packed.1);
      }

  pub stream_poll-OnlyStream :
      (d : Device) (w : World) → IsValid d.stream.ring → OnlyStream d (stream_poll b c (d, w)).0
  unfolding stream_poll
  stream_poll-OnlyStream d w v =
      let (d1, w1) = stream_start_phase b c (d, w) in
      let (d2, w2) = stream_sample_phase b c (d1, w1) in
      let p = OnlyStream-trans (start_phase-OnlyStream d w) (sample_phase-OnlyStream d1 w1) in
      OnlyStream-trans p (drain-OnlyStream d2 w2 (p.follows.records v))
