-- ===== src/Protocol/Layout.antt =====
-- The reply structs of src/usbio_protocol.h as the bytes that travel: members in order, little-endian,
-- at the offsets that natural alignment gives. A member that is always zero is written as 0.
use arduino_driver.Prelude.{ℕ, Bool, List, [], ◌∷◌, ◌++◌, if◌then◌else◌}
use arduino_driver.Protocol.Bytes.{put_u16, put_u32}

-- "UIO1"
abbrev pub magic : List ℕ
magic = b'U' ∷ b'I' ∷ b'O' ∷ b'1' ∷ []

-- usbio_info_t, and the Info of Protocol.h that decodes from it.
pub record Info : Type 0 where
  pub protocol_version : ℕ
  pub board_id : ℕ
  pub n_pins : ℕ
  pub n_ain : ℕ
  pub adc_bits : ℕ
  pub pwm_bits : ℕ
  pub dac_bits : ℕ
  pub queue_depth : ℕ
  pub vref_mv : ℕ
  pub io_mv : ℕ
  pub flags : ℕ
  pub stream_max_channels : ℕ
  pub event_max_pins : ℕ
  pub stream_min_period_us : ℕ

unfoldable pub info_bytes : Info → List ℕ
info_bytes i =
    magic
    ++ (put_u16 i.protocol_version
        ++ (put_u16 i.board_id
            ++ (i.n_pins ∷ i.n_ain ∷ i.adc_bits ∷ i.pwm_bits ∷ i.dac_bits ∷ i.queue_depth ∷ []
                ++ (put_u16 i.vref_mv
                    ++ (put_u16 i.io_mv
                        ++ (put_u16 i.flags
                            ++ (i.stream_max_channels
                                ∷ i.event_max_pins
                                ∷ put_u16 i.stream_min_period_us)))))))

-- usbio_time_reply_t
unfoldable pub time_bytes : ℕ → ℕ → ℕ → List ℕ
time_bytes status millis micros = status ∷ 0 ∷ 0 ∷ 0 ∷ (put_u32 millis ++ put_u32 micros)

-- usbio_event_header_t
unfoldable pub event_header_bytes : ℕ → ℕ → ℕ → ℕ → List ℕ
event_header_bytes status count dropped pending = status ∷ count ∷ dropped ∷ pending ∷ []

-- usbio_event_t
unfoldable pub event_bytes : ℕ → ℕ → ℕ → ℕ → List ℕ
event_bytes pin edge seq t_ms = pin ∷ edge ∷ (put_u16 seq ++ put_u32 t_ms)

-- usbio_event_count_t
unfoldable pub event_count_bytes : ℕ → ℕ → ℕ → List ℕ
event_count_bytes pin mode count = pin ∷ mode ∷ put_u16 count

-- usbio_stream_status_t
unfoldable pub stream_status_bytes : ℕ → Bool → ℕ → ℕ → ℕ → ℕ → ℕ → List ℕ
stream_status_bytes status running n_channels flags period_us seq overruns =
    status
    ∷ (if running then 1 else 0)
    ∷ n_channels
    ∷ flags
    ∷ (put_u16 period_us ++ (put_u16 0 ++ (put_u32 seq ++ put_u32 overruns)))

-- usbio_stream_header_t
unfoldable pub stream_header_bytes : ℕ → ℕ → ℕ → ℕ → List ℕ
stream_header_bytes magic_word n_samples seq t_us =
    put_u16 magic_word ++ (put_u16 n_samples ++ (put_u32 seq ++ put_u32 t_us))
