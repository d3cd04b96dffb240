-- ===== src/Firmware/Board.antt =====
-- What the firmware takes from the board: the constants and pin predicates of src/UsbIoBoard.h, which
-- that header picks by the macros of the Arduino core, whether the core's transport can stream
-- (USBIO_HAS_STREAM_TRANSPORT), and the functions of the core and of the transport that it calls.
use arduino_driver.Prelude.{ℕ, ◌≤◌, ◌<◌, ◌^◌, Bool, List}
use arduino_driver.Protocol.Limit

pub record Board : Type 0 where
  pub board_id : ℕ
  pub adc_bits : ℕ
  pub pwm_bits : ℕ
  pub dac_bits : ℕ
  pub vref_mv : ℕ
  pub io_mv : ℕ
  pub has_pulldown : Bool
  pub pin_count : ℕ
  pub pin_has_dio : ℕ → Bool
  pub pin_has_ain : ℕ → Bool
  pub pin_has_pwm : ℕ → Bool
  pub pin_has_dac : ℕ → Bool
  pub has_stream_transport : Bool
  pub transport_flags : ℕ

-- The types of the constants, the clamp of `named_pin_count` and the assertion on DacBits.
pub record IsSound (b : Board) : Type 0 where
  pub board_id_word : b.board_id < 2 ^ 16
  pub adc_bits_byte : b.adc_bits < 256
  pub pwm_bits_byte : b.pwm_bits < 256
  pub dac_bits_le : b.dac_bits ≤ b.pwm_bits
  pub vref_word : b.vref_mv < 2 ^ 16
  pub io_word : b.io_mv < 2 ^ 16
  pub pins_fit : b.pin_count ≤ Limit.max_pins

-- The levels and modes of the core's digital I/O.
pub data PadMode : Type 0 where
  input output input_pullup input_pulldown : PadMode

-- A result of usbio_transport_stream_write.
pub data WriteResult : Type 0 where
  sent busy failed : WriteResult

-- The core's functions over the state of the hardware and its clocks. `digital_read` is the test
-- `digitalRead(pin) == HIGH`; a negative result of `analogRead` is `negative`.
pub data Reading : Type 0 where
  negative : Reading
  reading : ℕ → Reading

pub record Core : Type 1 where
  pub World : Type 0
  pub pin_mode : ℕ → PadMode → World → World
  pub digital_write : ℕ → Bool → World → World
  pub analog_write : ℕ → ℕ → World → World
  pub digital_read : ℕ → World → Bool × World
  pub analog_read : ℕ → World → Reading × World
  pub millis : World → ℕ × World
  pub micros : World → ℕ × World
  pub stream_packet_max : World → ℕ
  pub stream_write : List ℕ → World → WriteResult × World
