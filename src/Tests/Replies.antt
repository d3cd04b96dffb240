-- ===== src/Tests/Replies.antt =====
-- Replies and records of the device of Fixtures, as the host reads them.
use arduino_driver.Prelude.{◌≡◌, ◌<◌, ◌%◌, arith, true, if◌then◌else◌, length}
use arduino_driver.Protocol.Decode.{decode_info, decode_stream_header}
use arduino_driver.Protocol.Errors.{ok}
use arduino_driver.Protocol.Layout.{Info}
use arduino_driver.Protocol.Limit
use arduino_driver.Protocol.Sizes.{dio_bitmap_len, stream_record_len}
use arduino_driver.Firmware.Reply.{dio_bitmap, handle_in, reads_high}
use arduino_driver.Firmware.Reply.Bitmap.{bit_at, dio_bitmap_lem}
use arduino_driver.Firmware.Reply.Identity.{Describes, get_info_lem}
use arduino_driver.Firmware.Sample.{record_bytes, sample_channels}
use arduino_driver.Firmware.Sample.Record.{is_digital, stream_record_lem}
use arduino_driver.Tests.Fixtures.{board, core, device, board-IsSound}

-- Pin 2 is high.
dio_bitmap_lem_example :
    (bit_at (dio_bitmap device) 2 ≡ (if reads_high device 2 then 1 else 0))
    × (length (dio_bitmap device) ≡ dio_bitmap_len 4)
dio_bitmap_lem_example = dio_bitmap_lem device 2 (omega arith)

get_info_lem_example :
    let (accepted, reply, after) = handle_in board device 0 0 24 5 5000 in
    (info : Info) × (accepted ≡ true)
    × (decode_info reply ≡ ok info)
    × Describes board device info
    × (after ≡ device)
get_info_lem_example = get_info_lem board device 0 5 5000 board-IsSound (omega arith)

-- Two channels with the bitmap.
stream_record_lem_example :
    let bytes = record_bytes device 7000 (sample_channels board core device 0 2 0).0 in
    (length bytes ≡ stream_record_len 2 (is_digital device) 4)
    × (length bytes % 2 ≡ 0)
    × (length bytes < 256)
    × (decode_stream_header bytes
        ≡ record { magic = Limit.stream_magic; n_samples = 2; seq = 0; t_us = 7000 })
stream_record_lem_example =
    stream_record_lem board core device 0 7000 (omega arith) (omega arith) (omega arith)
      (omega arith)
