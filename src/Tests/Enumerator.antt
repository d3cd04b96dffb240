-- ===== src/Tests/Enumerator.antt =====
-- A bus with a board that has the vendor interface, an Arduino that must not be opened, and other devices.
use arduino_driver.Prelude.{◌≡◌, refl, ◌&&◌, true, none, some, List, [], ◌∷◌, map, filter, ℕ}
use arduino_driver.Prelude.Signed.{negsuc}
use arduino_driver.Protocol.Errors.{Result, ok}
use arduino_driver.Host.Enumerator.{
  EnumerateOptions, UsbDevice, DeviceInfo, failed, present, find_vendor_interface, matches_filter,
  is_probe_candidate, keep_unprobed_candidate, list_devices, list_from, listed, probe, opened,
  identify, open_first, first_identified, open_by_serial, same_text,
}
use arduino_driver.Host.Enumerator.Listed.{is_ours, may_be_ours, serial_of, is_unexplained}
use arduino_driver.Host.Enumerator.Identity.{connect_first, list_devices_lem, open_first_lem}

abbrev options : EnumerateOptions
options = record { vid = none; pid = none; probe = true }

-- No rights to open it.
abbrev locked : UsbDevice
locked = record {
  descriptor = some (record { id_vendor = 0x2341; id_product = 0x69 });
  bus = 1;
  address = 4;
  interfaces = [];
  opening = some (negsuc 2);
  manufacturer = [];
  product = [];
  serial = [];
  get_info = failed (negsuc 8);
}

-- An Arduino with another sketch, which stalls GET_INFO.
abbrev stalling : UsbDevice
stalling = record locked { address = 5; opening = none }

abbrev vendor : UsbDevice
vendor = record stalling {
  address = 6;
  interfaces = record { number = 2; usb_class = 255; subclass = 0x49; protocol = 0x4f } ∷ [];
  serial = 55 ∷ [];
}

abbrev keyboard : UsbDevice
keyboard = record locked { descriptor = some (record { id_vendor = 0x46d; id_product = 0xc31c }) }

abbrev bus : List UsbDevice
bus = keyboard ∷ locked ∷ stalling ∷ vendor ∷ []

shown : filter (may_be_ours options) bus ≡ locked ∷ vendor ∷ []
unfolding find_vendor_interface matches_filter is_probe_candidate keep_unprobed_candidate
shown = refl

abbrev connect : UsbDevice → Result ℕ
connect u = ok u.address

-- The first that is known is at address 6.
opened_first : open_first connect (some (present bus)) options ≡ ok 6
unfolding open_first list_devices list_from listed first_identified probe opened identify
    find_vendor_interface matches_filter is_probe_candidate keep_unprobed_candidate
opened_first = refl

list_devices_lem_example :
    (found : List DeviceInfo) × (list_devices (some (present bus)) options ≡ ok found)
    × (map (λ i. i.device) found ≡ filter (may_be_ours options) bus)
    × (map (λ i. i.device) (filter (λ i. i.identified) found) ≡ filter (is_ours options) bus)
    × (filter is_unexplained found ≡ [])
list_devices_lem_example = list_devices_lem options bus

open_first_lem_example :
    (open_first connect (some (present bus)) options
      ≡ connect_first connect (filter (is_ours options) bus))
    × (open_by_serial connect (some (present bus)) (55 ∷ []) options
        ≡ connect_first connect
            (filter (λ u. is_ours options u && same_text (serial_of options u) (55 ∷ [])) bus))
open_first_lem_example = open_first_lem connect options bus (55 ∷ [])
