-- ===== src/Protocol/Sizes.antt =====
-- The lengths of the variable replies and stream records, and the value of EVENT_CONFIG, as Protocol.h
-- computes them.
use arduino_driver.Prelude.{ℕ, ◌+◌, ◌*◌, ◌/◌, ◌%◌, Bool, u16, if◌then◌else◌}
use arduino_driver.Protocol.Limit

unfoldable pub dio_bitmap_len : ℕ → ℕ
dio_bitmap_len n_pins = (n_pins + 7) / 8

unfoldable pub dio_read_all_len : ℕ → ℕ
dio_read_all_len n_pins = Limit.all_header_len + dio_bitmap_len n_pins

unfoldable pub ai_read_all_len : ℕ → ℕ
ai_read_all_len n_ain = Limit.all_header_len + 2 * n_ain

unfoldable pub stream_digital_bitmap_len : ℕ → ℕ
stream_digital_bitmap_len n_pins = let raw = dio_bitmap_len n_pins in raw + raw % 2

unfoldable pub stream_record_len : ℕ → Bool → ℕ → ℕ
stream_record_len n_samples digital n_pins =
    let len = Limit.stream_header_len + 2 * n_samples in
    if digital then len + stream_digital_bitmap_len n_pins else len

unfoldable pub event_pop_len : ℕ → ℕ
event_pop_len count = Limit.event_header_len + Limit.event_len * count

unfoldable pub event_counts_len : ℕ → ℕ
event_counts_len count = Limit.event_header_len + Limit.event_count_len * count

-- `(debounce_ms << 8) | edge`: the two bytes share no bit.
unfoldable pub encode_event_config_value : ℕ → ℕ → ℕ
encode_event_config_value debounce_ms edge = u16 (debounce_ms * 256 + edge)

-- `(index << 8) | interface_number`
unfoldable pub interface_index : ℕ → ℕ → ℕ
interface_index index interface_number = u16 (index * 256 + interface_number)
