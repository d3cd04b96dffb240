-- ===== src/Firmware/Reply.antt =====
-- UsbIoDevice::handle_in of src/UsbIo.cpp: the bytes of each reply. A reply is what the code writes
-- from the start of _reply on, before the cut to wLength.
pub mod Pop
pub mod Identity
pub mod Bitmap
use arduino_driver.Prelude.{
  ℕ, zero, suc, ◌+◌, ◌-◌, ◌/◌, ◌%◌, ◌^◌, Bool, true, false, ◌&&◌, ◌||◌, not, Option, some, List, [],
  ◌∷◌, ◌++◌, bit_or, bit_and, min, u8, u8_sub, ltb, leb, ◌==◌, if◌then◌else◌, get_or, set, length,
  take, drop, replicate, map,
}
use arduino_driver.Prelude.Loop.{for_range}
use arduino_driver.Protocol.Bytes.{put_u16}
use arduino_driver.Protocol.Caps
use arduino_driver.Protocol.Flag
use arduino_driver.Protocol.Layout
use arduino_driver.Protocol.Layout.{Info}
use arduino_driver.Protocol.Limit
use arduino_driver.Protocol.Mode
use arduino_driver.Protocol.Request
use arduino_driver.Protocol.Request.{Request}
use arduino_driver.Protocol.Status
use arduino_driver.Firmware.Board.{Board}
use arduino_driver.Firmware.Modes.{mode_is_digital}
use arduino_driver.Firmware.Queue.{busy, queue_pending}
use arduino_driver.Firmware.Ring.{Ring, front, advance, pending}
use arduino_driver.Firmware.Select.{streaming_flag}
use arduino_driver.Firmware.State.{
  Device, Event, EventWatch, Streaming, event_tombstone, zeroed_event, zeroed_watch, caps_of,
  mode_of, dio_of, ain_of,
}
use arduino_driver.Firmware.Watch.{count_queued_events}

-- Either a STALL with its reason, or the reply and the state after it.
pub data Answer : Type 0 where
  stalled : ℕ → Answer
  replied : List ℕ → Device → Answer

unfoldable pub info_of : Board → Device → Info
info_of b d = record {
  protocol_version = Limit.protocol_version;
  board_id = b.board_id;
  n_pins = d.n_pins;
  n_ain = d.n_ain;
  adc_bits = b.adc_bits;
  pwm_bits = b.pwm_bits;
  dac_bits = b.dac_bits;
  queue_depth = Limit.queue_depth;
  vref_mv = b.vref_mv;
  io_mv = b.io_mv;
  flags = d.flags;
  stream_max_channels = if streaming_flag d then Limit.max_stream_channels else 0;
  event_max_pins = if not (bit_and d.flags Flag.events == 0) then Limit.max_event_pins else 0;
  stream_min_period_us = if streaming_flag d then Limit.stream_min_period_us else 0;
}

unfoldable pub pin_caps_reply : Device → ℕ → ℕ → List ℕ
pin_caps_reply d w_index w_length =
    if ltb w_index d.n_pins
    then take (min (d.n_pins - w_index) w_length) (drop w_index d.caps)
    else []

unfoldable pub status_reply : Device → List ℕ
status_reply d = Status.ok ∷ queue_pending d ∷ d.last_error ∷ 0 ∷ []

unfoldable pub dio_reply : Device → ℕ → List ℕ
dio_reply d w_index =
    if leb d.n_pins w_index
    then Status.bad_pin ∷ 0 ∷ []
    else if not (mode_is_digital (mode_of d w_index))
    then Status.bad_mode ∷ 0 ∷ []
    else if busy d
    then Status.busy ∷ 0 ∷ []
    else Status.ok ∷ dio_of d w_index ∷ []

unfoldable pub ai_reply : Device → ℕ → List ℕ
ai_reply d w_index =
    if leb d.n_pins w_index
    then Status.bad_pin ∷ 0 ∷ put_u16 0
    else if not (mode_of d w_index == Mode.analog_in)
    then Status.bad_mode ∷ 0 ∷ put_u16 0
    else if busy d
    then Status.busy ∷ 0 ∷ put_u16 0
    else Status.ok ∷ 0 ∷ put_u16 (ain_of d w_index)

-- The level that DIO_READ_ALL and a stream record show for a pin.
abbrev pub reads_high : Device → ℕ → Bool
reads_high d pin = mode_is_digital (mode_of d pin) && not (dio_of d pin == 0)

-- `bitmap[p >> 3] |= 1 << (p & 7)`
unfoldable pub mark_pin : Device → ℕ → List ℕ → List ℕ
mark_pin d pin bitmap =
    if reads_high d pin
    then set bitmap (pin / 8) (u8 (bit_or (get_or bitmap (pin / 8) 0) (2 ^ (pin % 8))))
    else bitmap

unfoldable pub dio_bitmap : Device → List ℕ
dio_bitmap d = for_range 0 d.n_pins (mark_pin d) (replicate ((d.n_pins + 7) / 8) 0)

abbrev pub busy_status : Device → ℕ
busy_status d = if busy d then Status.busy else Status.ok

unfoldable pub dio_all_reply : Device → List ℕ
dio_all_reply d = busy_status d ∷ 0 ∷ dio_bitmap d

unfoldable pub append_sample : Device → ℕ → List ℕ → List ℕ
append_sample d pin reply =
    if Caps.any_of (caps_of d pin) Caps.ain
    then reply ++ put_u16 (if mode_of d pin == Mode.analog_in then ain_of d pin else 0)
    else reply

unfoldable pub ai_all_reply : Device → List ℕ
ai_all_reply d = for_range 0 d.n_pins (append_sample d) (busy_status d ∷ 0 ∷ [])

-- `_stream_seq == 0 ? 0 : _stream_seq - 1`
unfoldable pub stream_status_reply : Streaming → List ℕ
stream_status_reply s =
    Layout.stream_status_bytes Status.ok s.running s.n_channels s.flags s.period_us
      (if s.seq == 0 then 0 else s.seq - 1) s.overruns

-- `while (tail != head && count < cap)`, on as many rounds as entries are queued.
unfoldable pub pop_loop : ℕ → ℕ → Ring Event → List Event → List Event × Ring Event
pop_loop cap zero r taken = (taken, r)
pop_loop cap (suc rounds) r taken =
    let slot = front zeroed_event r in
    let rest =
      pop_loop cap rounds (advance r)
        (if slot.pin == event_tombstone then taken else taken ++ slot ∷ []) in
    if ltb (length taken) cap then rest else (taken, r)

abbrev pub pop_cap : ℕ → ℕ
pop_cap w_index =
    if w_index == 0 || ltb Limit.max_events_per_pop w_index
    then Limit.max_events_per_pop
    else w_index

unfoldable pub pop_events : Ring Event → ℕ → List Event × Ring Event
pop_events r cap = pop_loop cap (pending r) r []

abbrev pub entry_bytes : Event → List ℕ
entry_bytes e = Layout.event_bytes e.pin e.edge e.seq e.t_ms

abbrev pub concat : List (List ℕ) → List ℕ
concat [] = []
concat (xs ∷ xss) = xs ++ concat xss

unfoldable pub event_pop_answer : Device → ℕ → Answer
event_pop_answer d w_index =
    let (taken, r) = pop_events d.events.ring (pop_cap w_index) in
    replied
      (Layout.event_header_bytes Status.ok (length taken) d.events.dropped (count_queued_events r)
        ++ concat (map entry_bytes taken))
      (record d { events = record (d.events) { ring = r; dropped = 0 } })

-- The slots in use, in table order.
unfoldable pub active_slots : ℕ → List EventWatch → List ℕ
active_slots i [] = []
active_slots i (w ∷ ws) = let rest = active_slots (suc i) ws in if w.active then i ∷ rest else rest

abbrev pub arm_seq_of : List EventWatch → ℕ → ℕ
arm_seq_of watch i = (get_or watch i zeroed_watch).arm_seq

-- `(int8_t)(a - b) > 0`
abbrev pub armed_later : ℕ → ℕ → Bool
armed_later a b = ltb 0 (u8_sub a b) && ltb (u8_sub a b) 128

-- The inner loop of the insertion sort over the sorted prefix, whose last entry stands first here.
unfoldable pub insert_slot : List EventWatch → ℕ → List ℕ → List ℕ
insert_slot watch key [] = key ∷ []
insert_slot watch key (i ∷ is) =
    if armed_later (arm_seq_of watch i) (arm_seq_of watch key)
    then i ∷ insert_slot watch key is
    else key ∷ i ∷ is

unfoldable pub sort_slots : List EventWatch → List ℕ → List ℕ → List ℕ
sort_slots watch [] sorted = sorted
sort_slots watch (key ∷ keys) sorted = sort_slots watch keys (insert_slot watch key sorted)

-- The entries in the order of the reply, from the reversed list of slots.
unfoldable pub count_entries : List EventWatch → List ℕ → List ℕ → List ℕ
count_entries watch [] reply = reply
count_entries watch (i ∷ is) reply =
    let w = get_or watch i zeroed_watch in
    count_entries watch is (Layout.event_count_bytes w.pin w.edge_mode w.count ++ reply)

unfoldable pub event_counts_reply : List EventWatch → List ℕ
event_counts_reply watch =
    let order = sort_slots watch (active_slots 0 watch) [] in
    Layout.event_header_bytes Status.ok (length order) 0 0 ++ count_entries watch order []

-- The switch over bRequest; `millis_now` and `micros_now` are what the clock reads for GET_TIME.
unfoldable pub dispatch_in : Board → Device → Option Request → ℕ → ℕ → ℕ → ℕ → Answer
dispatch_in b d (some Request.get_info) w_index w_length millis_now micros_now =
    replied (Layout.info_bytes (info_of b d)) d
dispatch_in b d (some Request.get_pin_caps) w_index w_length millis_now micros_now =
    replied (pin_caps_reply d w_index w_length) d
dispatch_in b d (some Request.get_status) w_index w_length millis_now micros_now =
    replied (status_reply d) (record d { last_error = Status.ok })
dispatch_in b d (some Request.get_time) w_index w_length millis_now micros_now =
    replied (Layout.time_bytes Status.ok millis_now micros_now) d
dispatch_in b d (some Request.dio_read) w_index w_length millis_now micros_now =
    replied (dio_reply d w_index) d
dispatch_in b d (some Request.ai_read) w_index w_length millis_now micros_now =
    replied (ai_reply d w_index) d
dispatch_in b d (some Request.dio_read_all) w_index w_length millis_now micros_now =
    replied (dio_all_reply d) d
dispatch_in b d (some Request.ai_read_all) w_index w_length millis_now micros_now =
    replied (ai_all_reply d) d
dispatch_in b d (some Request.stream_status) w_index w_length millis_now micros_now =
    if b.has_stream_transport && streaming_flag d
    then replied (stream_status_reply d.stream) d
    else stalled Status.unsupported
dispatch_in b d (some Request.event_pop) w_index w_length millis_now micros_now =
    event_pop_answer d w_index
dispatch_in b d (some Request.event_counts) w_index w_length millis_now micros_now =
    replied (event_counts_reply d.events.watch) d
dispatch_in b d _ w_index w_length millis_now micros_now = stalled Status.bad_cmd

-- false is a STALL; the reply is cut to wLength.
abbrev pub finish : Device → ℕ → Answer → Bool × List ℕ × Device
finish d w_length (stalled reason) = (false, [], record d { last_error = reason })
finish d w_length (replied reply d') = (true, take w_length reply, d')

unfoldable pub handle_in : Board → Device → ℕ → ℕ → ℕ → ℕ → ℕ → Bool × List ℕ × Device
handle_in b d b_request w_index w_length millis_now micros_now =
    finish d w_length
      (dispatch_in b d (Request.of_code b_request) w_index w_length millis_now micros_now)
