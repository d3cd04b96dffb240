-- ===== src/Host/Enumerator.antt =====
-- The enumeration of extras/driver/src/Enumerator.cpp, over what libusb says of each device on the bus.
pub mod Probe
pub mod Listed
pub mod Identity
use arduino_driver.Prelude.{
  ℕ, suc, Bool, true, false, ◌&&◌, ◌||◌, not, Option, none, some, List, [], ◌∷◌, ◌==◌, ltb,
  if◌then◌else◌, length, take,
}
use arduino_driver.Prelude.Signed.{ℤ, pos, negsuc}
use arduino_driver.Protocol.Decode.{decode_info}
use arduino_driver.Protocol.Errors.{
  DriverError, Result, ok, err, usb_error, stall_error, timeout_error, invalid_argument,
  device_not_found,
}
use arduino_driver.Protocol.Layout.{Info}
use arduino_driver.Protocol.Limit

pub record InterfaceTriple : Type 0 where
  pub number : ℕ
  pub usb_class : ℕ
  pub subclass : ℕ
  pub protocol : ℕ

pub record EnumerateOptions : Type 0 where
  pub vid : Option ℕ
  pub pid : Option ℕ
  pub probe : Bool

-- A parameter: the vendor and product ids of a device.
pub record Descriptor : Type 0 where
  pub id_vendor : ℕ
  pub id_product : ℕ

-- A parameter: how the transfer of GET_INFO ends.
pub data Reply : Type 0 where
  failed : (code : ℤ) → Reply
  received : (bytes : List ℕ) → Reply

-- A parameter: what libusb says of a device. `opening` is the code that opening it fails with.
pub record UsbDevice : Type 0 where
  pub descriptor : Option Descriptor
  pub bus : ℕ
  pub address : ℕ
  pub interfaces : List InterfaceTriple
  pub opening : Option ℤ
  pub manufacturer : List ℕ
  pub product : List ℕ
  pub serial : List ℕ
  pub get_info : Reply

-- A parameter: the devices on the bus, or the code of libusb_get_device_list.
pub data Bus : Type 0 where
  unreadable : (code : ℤ) → Bus
  present : (devices : List UsbDevice) → Bus

-- An exception of a probe: a UsbError with its code, or a ProtocolError.
pub data ProbeError : Type 0 where
  usb : (code : ℤ) → ProbeError
  protocol : ProbeError

pub record DeviceInfo : Type 0 where
  pub vid : ℕ
  pub pid : ℕ
  pub bus : ℕ
  pub address : ℕ
  pub serial : List ℕ
  pub manufacturer : List ℕ
  pub product : List ℕ
  pub identified : Bool
  pub has_vendor_interface : Bool
  pub interface_number : Option ℕ
  pub info : Option Info
  pub probe_error : Option ProbeError
  pub device : UsbDevice

abbrev pub is_vendor_interface : InterfaceTriple → Bool
is_vendor_interface itf = itf.usb_class == 0xff && itf.subclass == 0x49 && itf.protocol == 0x4f

unfoldable pub find_vendor_interface : List InterfaceTriple → Option ℕ
find_vendor_interface [] = none
find_vendor_interface (itf ∷ interfaces) =
    if is_vendor_interface itf then some itf.number else find_vendor_interface interfaces

-- `!wanted || *wanted == id`
abbrev pub passes : Option ℕ → ℕ → Bool
passes none id = true
passes (some wanted) id = wanted == id

abbrev pub has_value : {A : Type 0} → Option A → Bool
has_value none = false
has_value (some a) = true

unfoldable pub matches_filter : ℕ → ℕ → EnumerateOptions → Bool
matches_filter vid pid o = passes o.vid vid && passes o.pid pid

unfoldable pub is_probe_candidate : ℕ → ℕ → EnumerateOptions → Bool
is_probe_candidate vid pid o =
    if not (matches_filter vid pid o)
    then false
    else if has_value o.vid || has_value o.pid
    then true
    else vid == 0x2341 || vid == 0x2e8a || vid == 0x303a

-- `code == -n`
abbrev pub is_minus : ℕ → ℤ → Bool
is_minus n (pos m) = false
is_minus n (negsuc m) = suc m == n

-- LibusbError::Access, NotSupported, Busy
unfoldable pub keep_unprobed_candidate : ℤ → Bool
keep_unprobed_candidate code = is_minus 3 code || is_minus 12 code || is_minus 6 code

-- The class that throw_usb_error throws: LIBUSB_ERROR_PIPE is -9 and LIBUSB_ERROR_TIMEOUT -7.
unfoldable pub throw_usb_error : ℤ → DriverError
throw_usb_error code =
    if is_minus 9 code then stall_error else if is_minus 7 code then timeout_error else usb_error

-- `info.info = decode_info(reply)`
unfoldable pub keep_info : DeviceInfo → Result Info → Option ProbeError × DeviceInfo
keep_info info (err e) = (some protocol, info)
keep_info info (ok i) = (none, record info { info = some i })

-- The end of a probe, with the reply of GET_INFO.
unfoldable pub identify : DeviceInfo → Reply → Option ProbeError × DeviceInfo
identify info (failed code) = (some (usb code), info)
identify info (received bytes) =
    if ltb (length bytes) Limit.info_len
    then (some protocol, info)
    else keep_info info (decode_info (take Limit.info_len bytes))

-- A probe, once the transport is constructed or has thrown.
unfoldable pub opened : UsbDevice → DeviceInfo → Option ℤ → Option ProbeError × DeviceInfo
opened u info (some code) = (some (usb code), info)
opened u info none =
    identify (record info { manufacturer = u.manufacturer; product = u.product; serial = u.serial })
      u.get_info

-- What is thrown, and what was written before.
unfoldable pub probe : UsbDevice → DeviceInfo → Option ProbeError × DeviceInfo
probe u info = opened u info u.opening

-- `usb != nullptr && keep_unprobed_candidate(usb->code())`
abbrev pub is_unreachable : ProbeError → Bool
is_unreachable protocol = false
is_unreachable (usb code) = keep_unprobed_candidate code

-- The try block of list_devices and its handler.
abbrev pub after_probe : Option ProbeError × DeviceInfo → Option DeviceInfo
after_probe (none, info) = some (record info { identified = true })
after_probe (some e, info) =
    if info.has_vendor_interface || is_unreachable e
    then some (record info { probe_error = some e })
    else none

abbrev pub described : UsbDevice → Descriptor → DeviceInfo
described u desc =
    let interface_number = find_vendor_interface u.interfaces in
    record {
      vid = desc.id_vendor;
      pid = desc.id_product;
      bus = u.bus;
      address = u.address;
      serial = [];
      manufacturer = [];
      product = [];
      identified = has_value interface_number;
      has_vendor_interface = has_value interface_number;
      interface_number = interface_number;
      info = none;
      probe_error = none;
      device = u;
    }

-- The body of list_devices's loop.
unfoldable pub listed : EnumerateOptions → UsbDevice → Option Descriptor → Option DeviceInfo
listed o u none = none
listed o u (some desc) =
    let info = described u desc in
    if not (matches_filter desc.id_vendor desc.id_product o)
    then none
    else if not info.identified
        && not (o.probe && is_probe_candidate desc.id_vendor desc.id_product o)
    then none
    else if o.probe
    then after_probe (probe u info)
    else some info

abbrev pub push_back : Option DeviceInfo → List DeviceInfo → List DeviceInfo
push_back none found = found
push_back (some info) found = info ∷ found

unfoldable pub list_from : EnumerateOptions → List UsbDevice → List DeviceInfo
list_from o [] = []
list_from o (u ∷ us) = push_back (listed o u u.descriptor) (list_from o us)

-- The context is the bus; `none` is a null pointer.
unfoldable pub list_devices : Option Bus → EnumerateOptions → Result (List DeviceInfo)
list_devices none o = err invalid_argument
list_devices (some (unreadable code)) o = err (throw_usb_error code)
list_devices (some (present us)) o = ok (list_from o us)

abbrev pub same_text : List ℕ → List ℕ → Bool
same_text [] [] = true
same_text [] (y ∷ ys) = false
same_text (x ∷ xs) [] = false
same_text (x ∷ xs) (y ∷ ys) = x == y && same_text xs ys

-- `connect` is the constructor of the transport and of Device on it.
module _ {D : Type 0} (connect : UsbDevice → Result D) where
  -- The loop of open_first.
  unfoldable pub first_identified : List DeviceInfo → Result D
  first_identified [] = err device_not_found
  first_identified (info ∷ devices) =
      if info.identified then connect info.device else first_identified devices

  unfoldable pub open_first : Option Bus → EnumerateOptions → Result D
  open_first context o = elim (list_devices context o) [
    | err e ↦ err e
    | ok devices ↦ first_identified devices
  ]

  -- The loop of open_by_serial.
  unfoldable pub first_with_serial : List ℕ → List DeviceInfo → Result D
  first_with_serial serial [] = err device_not_found
  first_with_serial serial (info ∷ devices) =
      if not info.identified
      then first_with_serial serial devices
      else if same_text info.serial serial
      then connect info.device
      else first_with_serial serial devices

  unfoldable pub open_by_serial : Option Bus → List ℕ → EnumerateOptions → Result D
  open_by_serial context serial o = elim (list_devices context o) [
    | err e ↦ err e
    | ok devices ↦ first_with_serial serial devices
  ]
