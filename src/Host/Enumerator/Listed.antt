-- ===== src/Host/Enumerator/Listed.antt =====
-- What list_devices of extras/driver/src/Enumerator.cpp does with one device.
use arduino_driver.Prelude.{
  ℕ, ◌≡◌, refl, Bool, true, false, ◌&&◌, ◌||◌, not, Option, none, some, List, [], if◌then◌else◌,
  arith, if_cases,
}
use arduino_driver.Host.Enumerator.{
  Descriptor, EnumerateOptions, UsbDevice, DeviceInfo, ProbeError, matches_filter,
  is_probe_candidate, probe, is_unreachable, after_probe, described, listed,
}
use arduino_driver.Host.Enumerator.Probe.{
  has_interface, answers, is_hidden, serial_seen, Probed, reached, thrown, probe-Probed,
}

-- A device in the filter with the vendor interface, or a candidate of which a probe says so.
abbrev pub claimed : EnumerateOptions → UsbDevice → Option Descriptor → Bool → Bool
claimed o u none sign = false
claimed o u (some desc) sign =
    matches_filter desc.id_vendor desc.id_product o
    && (has_interface u || (o.probe && is_probe_candidate desc.id_vendor desc.id_product o && sign))

-- The device is known to run UsbIo.
abbrev pub is_ours : EnumerateOptions → UsbDevice → Bool
is_ours o u = claimed o u u.descriptor (answers u.opening u.get_info)

-- The device is known to run UsbIo, or might.
abbrev pub may_be_ours : EnumerateOptions → UsbDevice → Bool
may_be_ours o u =
    claimed o u u.descriptor (answers u.opening u.get_info || is_hidden u.opening u.get_info)

-- The serial number that an entry has.
abbrev pub serial_of : EnumerateOptions → UsbDevice → List ℕ
serial_of o u = if o.probe then serial_seen u u.opening else []

abbrev pub says_why : Option ProbeError → Bool
says_why none = false
says_why (some e) = is_unreachable e

-- An entry that is not identified without a code that says why.
abbrev pub is_unexplained : DeviceInfo → Bool
is_unexplained i = not i.identified && not (says_why i.probe_error)

pub record IsRight (o : EnumerateOptions) (u : UsbDevice) (ours : Bool) (i : DeviceInfo)
    : Type 0 where
  pub device : i.device ≡ u
  pub identified : i.identified ≡ ours
  pub explained : is_unexplained i ≡ false
  pub serial_number : i.serial ≡ serial_of o u

pub data Judged (o : EnumerateOptions) (u : UsbDevice) (maybe ours : Bool)
    : Option DeviceInfo → Type 0 where
  skipped : maybe ≡ false → ours ≡ false → Judged o u maybe ours none
  listed_as : (i : DeviceInfo) → maybe ≡ true → IsRight o u ours i → Judged o u maybe ours (some i)

after_probe-Judged :
    (o : EnumerateOptions) (u : UsbDevice) (s : Option ProbeError × DeviceInfo)
    → o.probe ≡ true
    → Probed u (has_interface u) u.opening u.get_info s
    → let yes = answers u.opening u.get_info in
      Judged o u
        (has_interface u || (yes || is_hidden u.opening u.get_info))
        (has_interface u || yes)
        (after_probe s)
after_probe-Judged o u s probing (reached i good entry) =
    listed_as (record i { identified = true }) (ground (arith, good))
      (record {
        device = entry.device;
        identified = ground (arith, good);
        explained = refl;
        serial_number = rw probing entry.serial_number;
      })
after_probe-Judged o u s probing (thrown e i bad hidden entry) =
    if_cases (i.has_vendor_interface || is_unreachable e) (some (record i { probe_error = some e }))
      none
      (Judged o u
        (has_interface u || (answers u.opening u.get_info || is_hidden u.opening u.get_info))
        (has_interface u || answers u.opening u.get_info))
      (λ keep.
        listed_as (record i { probe_error = some e })
          (ground (arith, keep, hidden, entry.has_vendor_interface))
          (record {
            device = entry.device;
            identified = ground (arith, bad, entry.identified);
            explained = ground (arith, keep, entry.identified, entry.has_vendor_interface);
            serial_number = rw probing entry.serial_number;
          }))
      (λ drop.
        skipped (ground (arith, drop, bad, hidden, entry.has_vendor_interface))
          (ground (arith, drop, bad, entry.has_vendor_interface)))

pub listed-Judged :
    (o : EnumerateOptions) (u : UsbDevice) (descriptor : Option Descriptor)
    → let good = answers u.opening u.get_info in
      Judged o u
        (claimed o u descriptor (good || is_hidden u.opening u.get_info))
        (claimed o u descriptor good)
        (listed o u descriptor)
unfolding listed
listed-Judged o u none = skipped refl refl
listed-Judged o u (some desc) =
    by_tests (matches_filter desc.id_vendor desc.id_product o) o.probe
      (is_probe_candidate desc.id_vendor desc.id_product o) (has_interface u)
      (answers u.opening u.get_info) (is_hidden u.opening u.get_info)
      (λ probing. after_probe-Judged o u (probe u (described u desc)) probing (probe-Probed u desc))
      (λ resting shown. record {
        device = refl;
        identified = shown;
        explained = rw shown refl;
        serial_number = rw resting refl;
      })
  where
    by_tests :
        (fits probing candidate vendor good hidden : Bool) {r : Option DeviceInfo} {i : DeviceInfo}
        → (probing ≡ true → Judged o u (vendor || (good || hidden)) (vendor || good) r)
        → (probing ≡ false → vendor ≡ true → IsRight o u true i)
        → Judged o u
            (fits && (vendor || (probing && candidate && (good || hidden))))
            (fits && (vendor || (probing && candidate && good)))
            (if not fits
              then none
              else if not vendor && not (probing && candidate)
              then none
              else if probing
              then r
              else some i)
    by_tests false probing candidate vendor good hidden probed plain = skipped refl refl
    by_tests true true true true good hidden probed plain = probed refl
    by_tests true true true false good hidden probed plain = probed refl
    by_tests true true false true good hidden probed plain = probed refl
    by_tests true true false false good hidden probed plain = skipped refl refl
    by_tests true false candidate true good hidden {i = i} probed plain =
        listed_as i refl (plain refl refl)
    by_tests true false candidate false good hidden probed plain = skipped refl refl
