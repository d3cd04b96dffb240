-- ===== src/Host/Driver.antt =====
-- The Device class of extras/driver/src/Device.cpp: its members, and what its operations share.
use arduino_driver.Prelude.{ℕ, Bool, not, List, leb, ltb, ◌==◌, if◌then◌else◌, length, get_or}
pub mod Events
pub mod Streams
pub mod Steps
pub mod Mirror
pub mod Open
pub mod Pins
use arduino_driver.Protocol.Caps
use arduino_driver.Protocol.Errors.{Result, ok, err, device_busy, invalid_pin, not_supported}
use arduino_driver.Protocol.Features
use arduino_driver.Protocol.Layout.{Info}
use arduino_driver.Protocol.Request.{Request}
use arduino_driver.Host.Exec.{Exec, lift, require, ◌>>=◌, ◌>>◌}
use arduino_driver.Host.Transfers
use arduino_driver.Host.Transfers.{Transport}

-- The numbers of attempts of DeviceOptions; its delays are `pause`.
pub record Options : Type 0 where
  pub busy_max_attempts : ℕ
  pub ready_max_attempts : ℕ

-- `caps` holds the byte of each pin, `selected` the pins that this Device selected for its stream, and
-- `link` what the transport changes.
pub record Driver (Link : Type 0) : Type 0 where
  pub info : Info
  pub caps : List ℕ
  pub analog_pins : List ℕ
  pub streaming : Bool
  pub selected : List ℕ
  pub link : Link

-- An operation on the bus, within the object.
abbrev pub on_link : {Link A : Type 0} → Exec Link A → Exec (Driver Link) A
on_link m d = let (result, link') = m d.link in (result, record d { link = link' })

module _ {Link : Type 0} where
  -- Device::pin_caps
  unfoldable pub pin_caps : Driver Link → ℕ → Result ℕ
  pin_caps d pin = if leb (length d.caps) pin then err invalid_pin else ok (get_or d.caps pin 0)

  unfoldable pub require_caps : Driver Link → ℕ → ℕ → Result ℕ
  require_caps d pin cap_mask =
      if leb (length d.caps) pin
      then err invalid_pin
      else if not (Caps.has (get_or d.caps pin 0) cap_mask)
      then err not_supported
      else ok (get_or d.caps pin 0)

  unfoldable pub check_not_streaming : Exec (Driver Link) (Unit {0})
  check_not_streaming d = require device_busy (not d.streaming) d

  unfoldable pub require_events : Exec (Driver Link) (Unit {0})
  require_events d = require not_supported (Features.has_events d.info) d

module _ (t : Transport) (o : Options) where
  open t use {Link}

  abbrev pub Call : Type 0 → Type 0
  Call = Exec (Driver Link)

  abbrev pub send : Request → ℕ → ℕ → Call (Unit {0})
  send request value index = on_link (Transfers.send_out t request value index)

  -- A read_in into a buffer of `len` bytes.
  abbrev pub read : Request → ℕ → ℕ → ℕ → Call (ℕ × List ℕ)
  read request index len min_len =
      on_link (Transfers.read_in t o.busy_max_attempts request index len min_len)

  abbrev pub raw : Request → ℕ → ℕ → Call (ℕ × List ℕ)
  raw request index len = on_link (Transfers.raw_in t request index len)

  abbrev pub pause : Call (Unit {0})
  pause d = (ok tt, record d { link = t.pause d.link })
