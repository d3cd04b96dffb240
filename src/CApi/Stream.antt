-- ===== src/CApi/Stream.antt =====
-- adrv_start_stream of extras/c_api/src/stream.cpp. The other entry points only pass on what Stream has.
use arduino_driver.Prelude.{ℕ, Bool, ◌&&◌, not, List, length, ◌==◌, ltb, if◌then◌else◌}
use arduino_driver.Prelude.Signed.{pos}
use arduino_driver.Host.Driver.{Options}
use arduino_driver.Host.Driver.Streams.{StreamConfig, default_stream_queue_capacity, start_stream}
use arduino_driver.Host.Transfers.{Transport}
use arduino_driver.CApi.Errors.{entry}
use arduino_driver.CApi.Device.{Entry}

-- adrv_stream_config_t: `pins` is what lies in the array, of `n_pins` entries, and `has_pins` is false for a
-- null pointer.
pub record AdrvStreamConfig : Type 0 where
  pub has_pins : Bool
  pub pins : List ℕ
  pub period_us : ℕ
  pub flags : ℕ
  pub queue_capacity : ℕ

unfoldable pub cpp_config : AdrvStreamConfig → StreamConfig
cpp_config config = record {
  pins = config.pins;
  period = pos config.period_us;
  flags = config.flags;
  queue_capacity =
      if config.queue_capacity == 0 then default_stream_queue_capacity else config.queue_capacity;
}

module _ (t : Transport) (o : Options) where
  -- The out-parameter stands for the Stream by the time that it starts from.
  unfoldable pub adrv_start_stream : Bool → AdrvStreamConfig → Entry t o ℕ
  adrv_start_stream has_out config =
      entry (has_out && not (ltb 0 (length config.pins) && not config.has_pins))
        (start_stream t o (cpp_config config))
