-- ===== src/Host/Driver/Streams/Status.antt =====
-- read_stream_status of extras/driver/src/Device.cpp against GET_STREAM_STATUS of src/UsbIo.cpp.
use arduino_driver.Prelude.{
  ℕ, ◌≡◌, refl, ap, ◌∙◌, Bool, true, false, not, ◌==◌, if◌then◌else◌, arith,
}
use arduino_driver.Protocol.Bytes.{read_u8}
use arduino_driver.Protocol.Decode.{StreamStatus, decode_stream_status}
use arduino_driver.Protocol.Errors.{ok}
use arduino_driver.Protocol.Layout
use arduino_driver.Protocol.Request
use arduino_driver.Firmware.Board.{Board}
use arduino_driver.Firmware.Reply.{dispatch_in, stream_status_reply}
use arduino_driver.Firmware.Select.{streaming_flag}
use arduino_driver.Firmware.State.{Device, Streaming}
use arduino_driver.Host.Driver.{Driver, Options}
use arduino_driver.Host.Driver.Steps.{raw-bind}
use arduino_driver.Host.Driver.Streams.{read_stream_status}
use arduino_driver.Host.Transfers.Cable.{padded, raw-usb}
use arduino_driver.Host.Transfers.Refusal.{usb}

-- What GET_STREAM_STATUS tells of the stream.
pub record Tells (s : Streaming) (st : StreamStatus) : Type 0 where
  pub running : st.running ≡ s.running
  pub n_channels : st.n_channels ≡ s.n_channels

status_told :
    (s : Streaming)
    → (st : StreamStatus) × (decode_stream_status (padded 16 (stream_status_reply s)) ≡ ok st)
      × Tells s st
unfolding decode_stream_status stream_status_reply Layout.stream_status_bytes read_u8
status_told s = (_, refl, record { running = flag s.running; n_channels = refl })
  where
    flag : (running : Bool) → not ((if running then 1 else 0) == 0) ≡ running
    flag true = refl
    flag false = refl

module _ (b : Board) (o : Options) (now_ms now_us : ℕ)
    (streams : b.has_stream_transport ≡ true) where
  pub read_stream_status-usb :
      (d : Driver Device)
      → streaming_flag d.link ≡ true
      → (st : StreamStatus) × (read_stream_status (usb b now_ms now_us) o d ≡ (ok st, d))
        × Tells d.link.stream st
  unfolding read_stream_status dispatch_in stream_status_reply Layout.stream_status_bytes
  read_stream_status-usb d flag =
      let told = status_told d.link.stream in
      (
        told.0,
        raw-bind (usb b now_ms now_us) o d Request.stream_status 0 16 _ _ d.link (
              raw-usb b now_ms now_us d.link d.link Request.stream_status 0 16
                (stream_status_reply d.link.stream) (rw (streams, flag) refl) (omega arith))
            ∙ ap (λ r. (r, d)) told.1,
        told.2,
      )
