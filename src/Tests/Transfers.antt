-- ===== src/Tests/Transfers.antt =====
-- Transfers of the host over a transport that is busy at first, and to the device of Fixtures.
use arduino_driver.Prelude.{ℕ, ◌-◌, ◌≡◌, refl, arith, [], ◌∷◌, ◌==◌, if◌then◌else◌}
use arduino_driver.Protocol.Bytes.{read_u8}
use arduino_driver.Protocol.Errors.{ok}
use arduino_driver.Protocol.Request
use arduino_driver.Firmware.Out.{handle_out}
use arduino_driver.Host.Transfers.{Transport, raw_in, read_in, send_out}
use arduino_driver.Host.Transfers.Refusal.{usb, expected, send_out_lem}
use arduino_driver.Host.Transfers.Retry.{
  Answers, settles, delays, read_in-Answers, IsReply, read_in-IsReply,
}
use arduino_driver.Tests.Fixtures.{board, device}

-- BUSY until a pause; then a DIO_READ reads high.
abbrev slow : Transport
slow = record {
  Link = ℕ;
  control_in = λ code index len left. (ok (2, if left == 0 then 0 ∷ 1 ∷ [] else 1 ∷ 0 ∷ []), left);
  control_out = λ code value index left. (ok tt, left);
  pause = λ left. left - 1;
}

one_delay : Answers slow Request.dio_read 0 2 2 1 1 (ok (2, 0 ∷ 1 ∷ [])) 0
unfolding raw_in read_u8
one_delay = delays 0 1 0 (ok (2, 0 ∷ 1 ∷ [])) refl (settles 0 (ok (2, 0 ∷ 1 ∷ [])) refl)

read_in-Answers_example : read_in slow 5 Request.dio_read 0 2 2 1 ≡ (ok (2, 0 ∷ 1 ∷ []), 0)
read_in-Answers_example =
    read_in-Answers slow 5 Request.dio_read 0 2 2 1 1 0 (ok (2, 0 ∷ 1 ∷ [])) (omega arith) one_delay

slow_reply : read_in slow 5 Request.dio_read 0 2 2 1 ≡ (ok (2, 0 ∷ 1 ∷ []), 0)
slow_reply =
    read_in-Answers slow 5 Request.dio_read 0 2 2 1 1 0 (ok (2, 0 ∷ 1 ∷ [])) (omega arith) one_delay

read_in-IsReply_example : IsReply 2 2 2 (0 ∷ 1 ∷ [])
read_in-IsReply_example =
    read_in-IsReply slow 5 Request.dio_read 0 2 2 1 0 2 (0 ∷ 1 ∷ []) slow_reply

-- DIO_WRITE on pin 0, which is an input.
send_out_lem_example :
    send_out (usb board 5 5000) Request.dio_write 1 0 device
    ≡ expected (handle_out board device 4 1 0 0)
send_out_lem_example = send_out_lem board 5 5000 device Request.dio_write 1 0
