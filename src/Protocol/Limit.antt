-- ===== src/Protocol/Limit.antt =====
-- The limits of src/usbio_protocol.h, and the sizes of its reply structs.
use Prim.Native.Nat.{ℕ}

abbrev pub protocol_version : ℕ
protocol_version = 1

abbrev pub max_pins : ℕ
max_pins = 128

abbrev pub max_ain : ℕ
max_ain = 32

abbrev pub queue_depth : ℕ
queue_depth = 32

abbrev pub max_reply_len : ℕ
max_reply_len = 128

abbrev pub stream_magic : ℕ
stream_magic = 0x5355

abbrev pub max_stream_channels : ℕ
max_stream_channels = 8

abbrev pub stream_min_period_us : ℕ
stream_min_period_us = 1

abbrev pub stream_legacy_min_period_us : ℕ
stream_legacy_min_period_us = 100

abbrev pub max_event_pins : ℕ
max_event_pins = 8

abbrev pub event_queue_depth : ℕ
event_queue_depth = 32

abbrev pub max_events_per_pop : ℕ
max_events_per_pop = 7

abbrev pub max_debounce_ms : ℕ
max_debounce_ms = 255

abbrev pub info_len : ℕ
info_len = 24

abbrev pub dio_reply_len : ℕ
dio_reply_len = 2

abbrev pub ai_reply_len : ℕ
ai_reply_len = 4

abbrev pub all_header_len : ℕ
all_header_len = 2

abbrev pub status_reply_len : ℕ
status_reply_len = 4

abbrev pub stream_status_len : ℕ
stream_status_len = 16

abbrev pub stream_header_len : ℕ
stream_header_len = 12

abbrev pub time_reply_len : ℕ
time_reply_len = 12

abbrev pub event_header_len : ℕ
event_header_len = 4

abbrev pub event_len : ℕ
event_len = 8

abbrev pub event_count_len : ℕ
event_count_len = 4
