-- ===== src/Host/Enumerator/Identity.antt =====
-- Which devices extras/driver/src/Enumerator.cpp lists, and which one it opens.
use arduino_driver.Prelude.{
  ℕ, ◌≡◌, refl, ap, ap₂, ◌∙◌, Bool, true, false, ◌&&◌, Option, some, List, [], ◌∷◌, map, filter,
  if◌then◌else◌, Bool-cases, inl, inr,
}
use arduino_driver.Protocol.Errors.{Result, ok, err, device_not_found}
use arduino_driver.Host.Enumerator.{
  EnumerateOptions, UsbDevice, DeviceInfo, present, listed, push_back, list_from, list_devices,
  same_text, first_identified, open_first, first_with_serial, open_by_serial,
}
use arduino_driver.Host.Enumerator.Listed.{
  is_ours, may_be_ours, serial_of, is_unexplained, IsRight, Judged, skipped, listed_as,
  listed-Judged,
}

-- What the list holds of each device.
record Lists (o : EnumerateOptions) (us : List UsbDevice) (found : List DeviceInfo) : Type 0 where
  listed_devices : map (λ i. i.device) found ≡ filter (may_be_ours o) us
  identified_devices :
      map (λ i. i.device) (filter (λ i. i.identified) found) ≡ filter (is_ours o) us
  explained : filter is_unexplained found ≡ []

list_from-Lists : (o : EnumerateOptions) (us : List UsbDevice) → Lists o us (list_from o us)
unfolding list_from
list_from-Lists o [] = record { listed_devices = refl; identified_devices = refl; explained = refl }
list_from-Lists o (u ∷ us) =
    by_verdict (listed o u u.descriptor) (listed-Judged o u u.descriptor) (list_from-Lists o us)
  where
    keep :
        (i : DeviceInfo) (ours : Bool)
        → IsRight o u ours i
        → map (λ (j : DeviceInfo). j.device) (filter (λ j. j.identified) (list_from o us))
          ≡ filter (is_ours o) us
        → map (λ (j : DeviceInfo). j.device) (filter (λ j. j.identified) (i ∷ list_from o us))
          ≡ (if ours then u ∷ filter (is_ours o) us else filter (is_ours o) us)
    keep i true right rest = rw (right.identified) (ap₂ (λ x xs. x ∷ xs) right.device rest)
    keep i false right rest = rw (right.identified) rest

    by_verdict :
        (r : Option DeviceInfo)
        → Judged o u (may_be_ours o u) (is_ours o u) r
        → Lists o us (list_from o us)
        → Lists o (u ∷ us) (push_back r (list_from o us))
    by_verdict r (skipped maybe ours) rest = record {
      listed_devices = rest.listed_devices ∙ rw maybe refl;
      identified_devices = rest.identified_devices ∙ rw ours refl;
      explained = rest.explained;
    }
    by_verdict r (listed_as i maybe right) rest = record {
      listed_devices = ap₂ (λ x xs. x ∷ xs) right.device rest.listed_devices ∙ rw maybe refl;
      identified_devices = keep i (is_ours o u) right rest.identified_devices;
      explained = rw (right.explained) rest.explained;
    }

-- `connect` on the first of the devices, if there is one.
abbrev pub connect_first : {D : Type 0} → (UsbDevice → Result D) → List UsbDevice → Result D
connect_first connect [] = err device_not_found
connect_first connect (u ∷ us) = connect u

first_identified-found :
    {D : Type 0}
    → (connect : UsbDevice → Result D) (found : List DeviceInfo)
    → first_identified connect found
      ≡ connect_first connect (map (λ i. i.device) (filter (λ i. i.identified) found))
unfolding first_identified
first_identified-found connect [] = refl
first_identified-found connect (i ∷ found) = elim (Bool-cases i.identified) [
  | inl yours ↦ rw yours refl
  | inr other ↦ rw other (first_identified-found connect found)
]

first_with_serial-list_from :
    {D : Type 0}
    → (connect : UsbDevice → Result D) (serial : List ℕ) (o : EnumerateOptions)
      (us : List UsbDevice)
    → first_with_serial connect serial (list_from o us)
      ≡ connect_first connect (filter (λ u. is_ours o u && same_text (serial_of o u) serial) us)
unfolding first_with_serial list_from
first_with_serial-list_from connect serial o [] = refl
first_with_serial-list_from connect serial o (u ∷ us) =
    by_verdict (listed o u u.descriptor) (is_ours o u) (listed-Judged o u u.descriptor)
      (first_with_serial-list_from connect serial o us)
  where
    by_verdict :
        (r : Option DeviceInfo) (ours : Bool)
        → Judged o u (may_be_ours o u) ours r
        → first_with_serial connect serial (list_from o us)
          ≡ connect_first connect (filter (λ u. is_ours o u && same_text (serial_of o u) serial) us)
        → first_with_serial connect serial (push_back r (list_from o us))
          ≡ connect_first connect (
              if ours && same_text (serial_of o u) serial
              then u ∷ filter (λ u. is_ours o u && same_text (serial_of o u) serial) us
              else filter (λ u. is_ours o u && same_text (serial_of o u) serial) us)
    by_verdict r ours (skipped maybe other) rest = rest ∙ rw other refl
    by_verdict r true (listed_as i maybe right) rest =
        elim (Bool-cases (same_text (serial_of o u) serial)) [
          | inl hit ↦ rw (right.identified, right.serial_number, hit) (ap connect right.device)
          | inr miss ↦ rw (right.identified, right.serial_number, miss) rest
        ]
    by_verdict r false (listed_as i maybe right) rest = rw (right.identified) rest

-- On a bus that can be read, list_devices succeeds, in the order of the bus. It lists exactly the devices
-- that pass the filter and that carry the vendor interface, or that, when probing is on and they are
-- candidates, answer GET_INFO or cannot be reached for want of rights, of a driver or because they are busy.
-- The identified entries are exactly those with the interface or an answer, and every other entry has
-- the error of its probe, with one of these three codes.
pub list_devices_lem :
    (o : EnumerateOptions) (us : List UsbDevice)
    → (found : List DeviceInfo) × (list_devices (some (present us)) o ≡ ok found)
      × (map (λ i. i.device) found ≡ filter (may_be_ours o) us)
      × (map (λ i. i.device) (filter (λ i. i.identified) found) ≡ filter (is_ours o) us)
      × (filter is_unexplained found ≡ [])
unfolding list_devices
list_devices_lem o us =
    let all = list_from-Lists o us in
    (list_from o us, refl, all.listed_devices, all.identified_devices, all.explained)

-- On a bus that can be read, open_first connects to the first device that is ours: one that passes the filter and
-- has the vendor interface or, as a candidate that is probed, answers GET_INFO. open_by_serial connects to the
-- first of these whose serial number, as the probe read it, is the wanted one. Both end with that connection's
-- result, and throw DeviceNotFound if there is no such device.
pub open_first_lem :
    {D : Type 0}
    → (connect : UsbDevice → Result D) (o : EnumerateOptions) (us : List UsbDevice)
      (serial : List ℕ)
    → (open_first connect (some (present us)) o ≡ connect_first connect (filter (is_ours o) us))
      × (open_by_serial connect (some (present us)) serial o
          ≡ connect_first connect
              (filter (λ u. is_ours o u && same_text (serial_of o u) serial) us))
unfolding open_first open_by_serial list_devices
open_first_lem connect o us serial = (
  first_identified-found connect (list_from o us)
      ∙ ap (connect_first connect) (list_from-Lists o us).identified_devices,
  first_with_serial-list_from connect serial o us,
)
