-- ===== src/Host/Enumerator/Probe.antt =====
-- The probe of a device in extras/driver/src/Enumerator.cpp.
use arduino_driver.Prelude.{
  ℕ, ◌≡◌, refl, sym, ap, Bool, true, false, ◌&&◌, Option, none, some, List, [], min, if◌then◌else◌,
  length, length-take, take, leb, ltb, arith, if_cases, subst,
}
use arduino_driver.Prelude.Signed.{ℤ}
use arduino_driver.Protocol.Decode.{decode_info, has_magic, info_fields}
use arduino_driver.Protocol.Layout.{Info}
use arduino_driver.Protocol.Errors.{ok, err, protocol_error, throw_unless, ◌>>◌}
use arduino_driver.Protocol.Limit
use arduino_driver.Host.Enumerator.{
  Descriptor, UsbDevice, DeviceInfo, Reply, failed, received, ProbeError, usb, protocol,
  find_vendor_interface, has_value, keep_unprobed_candidate, probe, opened, identify, keep_info,
  is_unreachable, described,
}

abbrev pub has_interface : UsbDevice → Bool
has_interface u = has_value (find_vendor_interface u.interfaces)

-- The reply is a whole GET_INFO reply of a UsbIo device.
abbrev pub is_good : Reply → Bool
is_good (failed code) = false
is_good (received bytes) =
    leb Limit.info_len (length bytes) && has_magic (take Limit.info_len bytes)

-- The device can be opened and answers GET_INFO.
abbrev pub answers : Option ℤ → Reply → Bool
answers (some code) reply = false
answers none reply = is_good reply

abbrev pub is_cut : Reply → Bool
is_cut (failed code) = keep_unprobed_candidate code
is_cut (received bytes) = false

-- A probe cannot tell, for want of rights, support or because the device is busy.
abbrev pub is_hidden : Option ℤ → Reply → Bool
is_hidden (some code) reply = keep_unprobed_candidate code
is_hidden none reply = is_cut reply

-- The serial number that a probe reads.
abbrev pub serial_seen : UsbDevice → Option ℤ → List ℕ
serial_seen u (some code) = []
serial_seen u none = u.serial

-- What a probe keeps of an entry.
pub record IsEntry (u : UsbDevice) (vendor : Bool) (serial : List ℕ) (i : DeviceInfo) : Type 0 where
  pub device : i.device ≡ u
  pub identified : i.identified ≡ vendor
  pub has_vendor_interface : i.has_vendor_interface ≡ vendor
  pub serial_number : i.serial ≡ serial

-- The end of a probe.
pub data Probed (u : UsbDevice) (vendor : Bool) (opening : Option ℤ) (reply : Reply)
    : Option ProbeError × DeviceInfo → Type 0 where
  reached :
      (i : DeviceInfo)
      → answers opening reply ≡ true
      → IsEntry u vendor (serial_seen u opening) i
      → Probed u vendor opening reply (none, i)
  thrown :
      (e : ProbeError) (i : DeviceInfo)
      → answers opening reply ≡ false
      → is_unreachable e ≡ is_hidden opening reply
      → IsEntry u vendor (serial_seen u opening) i
      → Probed u vendor opening reply (some e, i)

decode_info-whole :
    (bytes : List ℕ)
    → leb Limit.info_len (length bytes) ≡ true
    → decode_info bytes ≡ (if has_magic bytes then ok (info_fields bytes) else err protocol_error)
unfolding decode_info
decode_info-whole bytes whole = whole_by (leb Limit.info_len (length bytes)) (has_magic bytes) whole
  where
    whole_by :
        (all magic : Bool)
        → all ≡ true
        → (throw_unless protocol_error all
            >> (throw_unless protocol_error magic >> ok (info_fields bytes)))
          ≡ (if magic then ok (info_fields bytes) else err protocol_error)
    whole_by true true h = refl
    whole_by true false h = refl
    whole_by false magic h = absurd (ground arith)

-- A reply that is long enough.
kept-Probed :
    (u : UsbDevice) (vendor : Bool) (info : DeviceInfo) (reply : Reply) (fields : Info)
    (magic : Bool)
    → IsEntry u vendor u.serial info
    → is_good reply ≡ magic
    → is_cut reply ≡ false
    → Probed u vendor none reply (keep_info info (if magic then ok fields else err protocol_error))
unfolding keep_info
kept-Probed u vendor info reply fields true entry good cut =
    reached (record info { info = some fields }) good
      (record {
        device = entry.device;
        identified = entry.identified;
        has_vendor_interface = entry.has_vendor_interface;
        serial_number = entry.serial_number;
      })
kept-Probed u vendor info reply fields false entry good cut =
    thrown protocol info good (sym cut) entry

identify-Probed :
    (u : UsbDevice) (vendor : Bool) (info : DeviceInfo) (reply : Reply)
    → IsEntry u vendor u.serial info
    → Probed u vendor none reply (identify info reply)
unfolding identify
identify-Probed u vendor info (failed code) entry = thrown (usb code) info refl refl entry
identify-Probed u vendor info (received bytes) entry =
    let reply = take Limit.info_len bytes in
    if_cases (ltb (length bytes) Limit.info_len) (some protocol, info)
      (keep_info info (decode_info reply)) (Probed u vendor none (received bytes))
      (λ short. thrown protocol info (cut_short (has_magic reply) short) refl entry)
      (λ whole.
        subst (λ r. Probed u vendor none (received bytes) (keep_info info r))
          (sym (decode_info-whole reply (full (length-take Limit.info_len bytes) whole)))
          (kept-Probed u vendor info (received bytes) (info_fields reply) (has_magic reply) entry
            (ap (λ t. t && has_magic reply) (long whole)) refl))
  where
    full :
        {n : ℕ}
        → n ≡ min Limit.info_len (length bytes)
        → ltb (length bytes) Limit.info_len ≡ false
        → leb Limit.info_len n ≡ true
    full e h = ground arith

    long : ltb (length bytes) Limit.info_len ≡ false → leb Limit.info_len (length bytes) ≡ true
    long h = ground arith

    cut_short :
        (magic : Bool)
        → ltb (length bytes) Limit.info_len ≡ true
        → leb Limit.info_len (length bytes) && magic ≡ false
    cut_short magic h = ground arith

opened-Probed :
    (u : UsbDevice) (vendor : Bool) (info : DeviceInfo) (opening : Option ℤ)
    → IsEntry u vendor [] info
    → Probed u vendor opening u.get_info (opened u info opening)
unfolding opened
opened-Probed u vendor info (some code) entry = thrown (usb code) info refl refl entry
opened-Probed u vendor info none entry =
    identify-Probed u vendor
      (record info { manufacturer = u.manufacturer; product = u.product; serial = u.serial })
      u.get_info
      (record {
        device = entry.device;
        identified = entry.identified;
        has_vendor_interface = entry.has_vendor_interface;
        serial_number = refl;
      })

pub probe-Probed :
    (u : UsbDevice) (desc : Descriptor)
    → Probed u (has_interface u) u.opening u.get_info (probe u (described u desc))
unfolding probe
probe-Probed u desc =
    opened-Probed u (has_interface u) (described u desc) u.opening (record {
      device = refl;
      identified = refl;
      has_vendor_interface = refl;
      serial_number = refl;
    })
