-- ===== src/Firmware/Select/Selection.antt =====
-- STREAM_SELECT of src/UsbIo.cpp as the change of a list of at most eight distinct pins:
-- handle_stream_select, and what START, STOP and RESET make of the selection.
use arduino_driver.Prelude.{
  ℕ, suc, ◌+◌, ◌-◌, ◌≤◌, ◌<◌, ◌≡◌, refl, sym, ap, ◌∙◌, Bool, true, false, ◌&&◌, ◌||◌, not, Option,
  none, some, List, [], ◌∷◌, ◌++◌, arith, ltb, leb, ◌==◌, if◌then◌else◌, get_or, set, length,
  length-set, get_or-set_self, u8, u8_sub,
}
use arduino_driver.Protocol.Mode
use arduino_driver.Firmware.Modes.{mode_is_input}
use arduino_driver.Firmware.Queue.{stall}
use arduino_driver.Firmware.Select.{
  stream_channel_index, close_gap, add_channel, remove_channel, handle_stream_select,
  streaming_flag,
}
use arduino_driver.Firmware.Select.Gap.{slice-close_gap, length-shifted}
use arduino_driver.Firmware.Select.Slice.{
  slice, slice-snoc, slice-set_past, remove, times, times-snoc, times-remove, times_search,
  times_found, search_below, remove_absent,
}
use arduino_driver.Firmware.State.{Device, Streaming, mode_of}

-- The selected pins, in the order of selection.
abbrev pub selected : Streaming → List ℕ
selected s = slice s.channels 0 s.n_channels

-- At most eight pins, each once; a stream that runs has one.
pub record IsSelection (s : Streaming) : Type 0 where
  pub full_length : length s.channels ≡ 8
  pub bounded : s.n_channels ≤ 8
  pub distinct : (pin : ℕ) → times pin (selected s) ≤ 1
  pub sampling : s.running ≡ true → 0 < s.n_channels

-- The channels after a pin is appended.
abbrev appended : Streaming → ℕ → Streaming
appended s pin = record s {
  channels = set s.channels s.n_channels pin;
  n_channels = u8 (s.n_channels + 1);
}

selected-appended :
    (s : Streaming) (pin : ℕ)
    → IsSelection s
    → s.n_channels < 8
    → selected (appended s pin) ≡ selected s ++ pin ∷ []
selected-appended s pin v room =
    let n = s.n_channels in
    let cs = set s.channels n pin in
    ap (slice cs 0) (let e : u8 (n + 1) ≡ suc n = omega arith in e)
    ∙ slice-snoc cs 0 n
    ∙ ap (λ (k : ℕ). slice cs 0 n ++ get_or cs k 0 ∷ []) (let e : 0 + n ≡ n = omega arith in e)
    ∙ ap (λ (x : ℕ). slice cs 0 n ++ x ∷ [])
        (get_or-set_self s.channels n pin 0 (omega (arith, v.full_length)))
    ∙ ap (λ (xs : List ℕ). xs ++ pin ∷ []) (slice-set_past s.channels 0 n n pin (omega arith))

appended-IsSelection :
    (s : Streaming) (pin : ℕ)
    → IsSelection s
    → s.n_channels < 8
    → stream_channel_index s pin ≡ none
    → IsSelection (appended s pin)
unfolding stream_channel_index
appended-IsSelection s pin v room h = record {
  full_length = length-set s.channels s.n_channels pin ∙ v.full_length;
  bounded = omega arith;
  distinct = λ p. rw (selected-appended s pin v room) (
      ground (
        arith,
        times-snoc pin p (selected s),
        times_search s.channels 0 s.n_channels pin h,
        v.distinct p,
      ));
  sampling = λ h. omega arith;
}

-- The channels after the entry `k` is taken out.
abbrev closed : Streaming → ℕ → Streaming
closed s k = record s {
  channels = close_gap s.channels k s.n_channels;
  n_channels = u8_sub s.n_channels 1;
}

selected-closed :
    (s : Streaming) (pin k : ℕ)
    → IsSelection s
    → stream_channel_index s pin ≡ some k
    → selected (closed s k) ≡ remove pin (selected s)
unfolding stream_channel_index
selected-closed s pin k v found =
    ap (slice (close_gap s.channels k s.n_channels) 0) (
      let below = search_below s.channels s.n_channels pin k found in
      let e : u8_sub s.n_channels 1 ≡ s.n_channels - 1 = omega (arith, v.bounded) in e)
    ∙ slice-close_gap s.channels s.n_channels pin k (omega (arith, v.full_length, v.bounded)) found

closed-IsSelection :
    (s : Streaming) (pin k : ℕ)
    → IsSelection s
    → s.running ≡ false
    → stream_channel_index s pin ≡ some k
    → IsSelection (closed s k)
closed-IsSelection s pin k v idle found = record {
  full_length =
      unfold close_gap in (length-shifted k (s.n_channels - 1 - k) s.channels ∙ v.full_length);
  bounded =
      unfold stream_channel_index in
      omega (arith, v.bounded, search_below s.channels s.n_channels pin k found);
  distinct = λ p.
      rw (selected-closed s pin k v found)
        (ground (arith, times-remove pin p (selected s), v.distinct p));
  sampling = λ h. absurd (ground arith);
}

-- The selection that STREAM_SELECT makes of `pins`.
abbrev pub reselect : ℕ → ℕ → List ℕ → List ℕ
reselect w_value pin pins =
    if w_value == 0 then remove pin pins else if times pin pins == 0 then pins ++ pin ∷ [] else pins

-- Whether STREAM_SELECT is accepted.
abbrev pub selects : Device → ℕ → ℕ → Bool
selects d w_value w_index =
    let pin = u8 w_index in
    streaming_flag d
    && not d.stream.running
    && ltb w_index d.n_pins
    && (mode_of d pin == Mode.analog_in || mode_is_input (mode_of d pin))
    && leb w_value 1
    && (w_value == 0 || not (times pin (selected d.stream) == 0) || ltb d.stream.n_channels 8)

add_channel_lem :
    (d : Device) (pin : ℕ) (idx : Option ℕ)
    → IsSelection d.stream
    → stream_channel_index d.stream pin ≡ idx
    → let (accepted, after) = add_channel d pin idx in
      (accepted ≡ (not (times pin (selected d.stream) == 0) || ltb d.stream.n_channels 8))
      × IsSelection after.stream
      × (selected after.stream
          ≡ (if accepted then reselect 1 pin (selected d.stream) else selected d.stream))
unfolding add_channel stall stream_channel_index
add_channel_lem d pin (some k) v h =
    let found = times_found d.stream.channels 0 d.stream.n_channels pin k h in
    (ground arith, v, ground arith)
add_channel_lem d pin none v h =
    let absent = times_search d.stream.channels 0 d.stream.n_channels pin h in
    let valid = λ (room : d.stream.n_channels < 8). appended-IsSelection d.stream pin v room h in
    let pins = λ (room : d.stream.n_channels < 8). selected-appended d.stream pin v room in
    ground (arith, absent, valid, pins)

remove_channel_lem :
    (d : Device) (pin : ℕ) (idx : Option ℕ)
    → IsSelection d.stream
    → d.stream.running ≡ false
    → stream_channel_index d.stream pin ≡ idx
    → let (accepted, after) = remove_channel d idx in
      (accepted ≡ true)
      × IsSelection after.stream
      × (selected after.stream ≡ remove pin (selected d.stream))
unfolding remove_channel stream_channel_index
remove_channel_lem d pin (some k) v idle h =
    (refl, closed-IsSelection d.stream pin k v idle h, selected-closed d.stream pin k v h)
remove_channel_lem d pin none v idle h =
    let absent = times_search d.stream.channels 0 d.stream.n_channels pin h in
    (refl, v, sym (remove_absent pin (selected d.stream) absent))

-- For a valid selection, STREAM_SELECT is accepted exactly when the device streams but no stream runs,
-- the pin exists and is an analog or digital input, wValue is 0 or 1, and a pin to add is selected
-- already or there are fewer than eight. If it is accepted, wValue 0 takes the pin out of the selected
-- pins and wValue 1 puts it at their end unless it is among them; the others stay in order. If it is
-- refused, the selected pins stay. The selection stays valid: at most eight pins, each once.
pub handle_stream_select_lem :
    (d : Device) (w_value w_index : ℕ)
    → IsSelection d.stream
    → let (accepted, after) = handle_stream_select d w_value w_index in
      (accepted ≡ selects d w_value w_index)
      × IsSelection after.stream
      × (selected after.stream ≡ (
          if accepted
          then reselect w_value (u8 w_index) (selected d.stream)
          else selected d.stream))
unfolding handle_stream_select stall
handle_stream_select_lem d w_value w_index v =
    let pin = u8 w_index in
    let idx = stream_channel_index d.stream pin in
    let taken_out = λ (idle : d.stream.running ≡ false). remove_channel_lem d pin idx v idle refl in
    ground (arith, add_channel_lem d pin idx v refl, taken_out)
