-- ===== src/Protocol/Request.antt =====
-- enum usbio_request of src/usbio_protocol.h (Request of Protocol.h), the bRequest codes, and the direction
-- of each request on the host side.
use arduino_driver.Prelude.{
  ℕ, ◌≡◌, refl, Bool, true, false, Option, none, some, ◌==◌, if◌then◌else◌,
}

-- The wire names of Protocol.h's Request.
pub data Request : Type 0 where
  get_info get_pin_caps pin_mode dio_read dio_write ai_read pwm_write dac_write dio_read_all
        ai_read_all get_status get_time stream_select stream_start stream_stop stream_status
        event_config event_pop event_counts reset :
      Request

abbrev pub code : Request → ℕ
code get_info = 0
code get_pin_caps = 1
code pin_mode = 2
code dio_read = 3
code dio_write = 4
code ai_read = 5
code pwm_write = 6
code dac_write = 7
code dio_read_all = 0x10
code ai_read_all = 0x11
code get_status = 0x20
code get_time = 0x21
code stream_select = 0x30
code stream_start = 0x31
code stream_stop = 0x32
code stream_status = 0x33
code event_config = 0x40
code event_pop = 0x41
code event_counts = 0x42
code reset = 0x7f

-- What a switch over the enum makes of a byte: `none` is its default case.
unfoldable pub of_code : ℕ → Option Request
of_code b =
    if b == 0
    then some get_info
    else if b == 1
    then some get_pin_caps
    else if b == 2
    then some pin_mode
    else if b == 3
    then some dio_read
    else if b == 4
    then some dio_write
    else if b == 5
    then some ai_read
    else if b == 6
    then some pwm_write
    else if b == 7
    then some dac_write
    else if b == 0x10
    then some dio_read_all
    else if b == 0x11
    then some ai_read_all
    else if b == 0x20
    then some get_status
    else if b == 0x21
    then some get_time
    else if b == 0x30
    then some stream_select
    else if b == 0x31
    then some stream_start
    else if b == 0x32
    then some stream_stop
    else if b == 0x33
    then some stream_status
    else if b == 0x40
    then some event_config
    else if b == 0x41
    then some event_pop
    else if b == 0x42
    then some event_counts
    else if b == 0x7f
    then some reset
    else none

-- is_out of Protocol.h: host to device, with no data stage.
unfoldable pub is_out : Request → Bool
is_out get_info = false
is_out get_pin_caps = false
is_out pin_mode = true
is_out dio_read = false
is_out dio_write = true
is_out ai_read = false
is_out pwm_write = true
is_out dac_write = true
is_out dio_read_all = false
is_out ai_read_all = false
is_out get_status = false
is_out get_time = false
is_out stream_select = true
is_out stream_start = true
is_out stream_stop = true
is_out stream_status = false
is_out event_config = true
is_out event_pop = false
is_out event_counts = false
is_out reset = true

pub of_code-code : (r : Request) → of_code (code r) ≡ some r
unfolding of_code
of_code-code get_info = refl
of_code-code get_pin_caps = refl
of_code-code pin_mode = refl
of_code-code dio_read = refl
of_code-code dio_write = refl
of_code-code ai_read = refl
of_code-code pwm_write = refl
of_code-code dac_write = refl
of_code-code dio_read_all = refl
of_code-code ai_read_all = refl
of_code-code get_status = refl
of_code-code get_time = refl
of_code-code stream_select = refl
of_code-code stream_start = refl
of_code-code stream_stop = refl
of_code-code stream_status = refl
of_code-code event_config = refl
of_code-code event_pop = refl
of_code-code event_counts = refl
of_code-code reset = refl
