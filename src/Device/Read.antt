-- ===== src/Device/Read.antt =====
-- src/device.c: device_read_event, behind the read of an event.
use keyd_fork.Common.{
  ℕ, ◌+◌, ◌-◌, ◌*◌, ◌/◌, ◌%◌, ◌&&◌, Option, none, some, ltb, leb, ◌==◌, if◌then◌else◌, Result,
  ◌>>=◌, ok, aborted, device_closed, division_by_zero,
}
use keyd_fork.Keys.{
  keyd_voicecommand, keyd_middle_mouse, keyd_left_mouse, keyd_mouse_2, keyd_zoom, keyd_mouse_back,
  keyd_mouse_forward, keyd_right_mouse, keyd_mouse_1, keyd_fn,
}
use keyd_fork.Device.{Device, DeviceEvent, EventType}

-- The constants of linux/input.h that the code compares with.
pub record Evdev : Type 0 where
  pub ev_rel : ℕ
  pub ev_abs : ℕ
  pub ev_key : ℕ
  pub ev_led : ℕ
  pub rel_wheel : ℕ
  pub rel_hwheel : ℕ
  pub rel_x : ℕ
  pub rel_y : ℕ
  pub abs_x : ℕ
  pub abs_y : ℕ
  pub btn_left : ℕ
  pub btn_middle : ℕ
  pub btn_right : ℕ
  pub btn_side : ℕ
  pub btn_extra : ℕ
  pub btn_back : ℕ
  pub btn_forward : ℕ
  pub key_fn : ℕ
  pub key_zoom : ℕ
  pub key_voicecommand : ℕ
  pub btn_digi : ℕ
  pub btn_tool_quadtap : ℕ

-- `struct input_event`. The value is the word of an int.
pub record InputEvent : Type 0 where
  pub type : ℕ
  pub code : ℕ
  pub value : ℕ

-- What `read` gives: an event, EAGAIN, or another error.
pub data Reading : Type 0 where
  event : InputEvent → Reading
  again : Reading
  broken : Reading

abbrev word : ℕ
word = 4294967296

abbrev mouse_event : EventType → ℕ → ℕ → DeviceEvent → DeviceEvent
mouse_event type x y last = record last { type = type; x = x; y = y }

-- EV_REL.
unfoldable pub read_rel : Evdev → InputEvent → DeviceEvent → Option DeviceEvent
read_rel c ev last =
    if ev.code == c.rel_wheel
    then some (mouse_event EventType.mouse_scroll 0 ev.value last)
    else if ev.code == c.rel_hwheel
    then some (mouse_event EventType.mouse_scroll ev.value 0 last)
    else if ev.code == c.rel_x
    then some (mouse_event EventType.mouse_move ev.value 0 last)
    else if ev.code == c.rel_y
    then some (mouse_event EventType.mouse_move 0 ev.value last)
    else none

-- A position scaled to 1024, on words.
unfoldable pub scale : ℕ → ℕ → ℕ → Result ℕ
scale value min max =
    let range = (max + word - min) % word in
    if range == 0 then aborted division_by_zero else ok (value * 1024 % word / range)

-- EV_ABS. With another code the event of the call before is given once more.
unfoldable pub read_abs : Evdev → Device → InputEvent → DeviceEvent → Result (Option DeviceEvent)
unfolding scale
read_abs c dev ev last =
    if ev.code == c.abs_x
    then (do
      x ← scale ev.value dev.minx dev.maxx
      ok (some (mouse_event EventType.mouse_move_abs x 0 last)))
    else if ev.code == c.abs_y
    then (do
      y ← scale ev.value dev.miny dev.maxy
      ok (some (mouse_event EventType.mouse_move_abs 0 y last)))
    else ok (some last)

-- The key for a code from 256 on, cut to a byte where it is stored.
unfoldable pub key_code : Evdev → ℕ → Option ℕ
key_code c code =
    if ltb code 256
    then some code
    else if code == c.btn_left
    then some keyd_left_mouse
    else if code == c.btn_middle
    then some keyd_middle_mouse
    else if code == c.btn_right
    then some keyd_right_mouse
    else if code == c.btn_side
    then some keyd_mouse_1
    else if code == c.btn_extra
    then some keyd_mouse_2
    else if code == c.btn_back
    then some keyd_mouse_back
    else if code == c.btn_forward
    then some keyd_mouse_forward
    else if code == c.key_fn
    then some keyd_fn
    else if code == c.key_zoom
    then some keyd_zoom
    else if code == c.key_voicecommand
    then some keyd_voicecommand
    else if leb c.btn_digi code && leb code c.btn_tool_quadtap
    then some code
    else none

-- EV_KEY. Repeats are ignored.
unfoldable pub read_key : Evdev → InputEvent → DeviceEvent → Option DeviceEvent
unfolding key_code
read_key c ev last = if ev.value == 2 then none else (elim (key_code c ev.code) [
  | none ↦ none
  | some code ↦
      some (record last { type = EventType.key; code = code % 256; pressed = ev.value % 256 })
])

unfoldable pub read_input : Evdev → Device → InputEvent → DeviceEvent → Result (Option DeviceEvent)
unfolding read_rel read_abs read_key
read_input c dev ev last =
    if ev.type == c.ev_rel
    then ok (read_rel c ev last)
    else if ev.type == c.ev_abs
    then read_abs c dev ev last
    else if ev.type == c.ev_key
    then ok (read_key c ev last)
    else if ev.type == c.ev_led
    then ok (
        some (record last { type = EventType.led; code = ev.code % 256; pressed = ev.value % 256 }))
    else ok none

-- The result, which is also what the static event holds from then on, and the device. `last` is
-- what it held.
unfoldable pub read_reading :
    Evdev → Device → DeviceEvent → Reading → Result (Option DeviceEvent × Device)
unfolding read_input
read_reading c dev last (event ev) = do r ← read_input c dev ev last; ok (r, dev)
read_reading c dev last again = ok (none, dev)
read_reading c dev last broken =
    ok (some (record last { type = EventType.removed }), record dev { fd = none })

unfoldable pub device_read_event :
    Evdev → Device → DeviceEvent → Reading → Result (Option DeviceEvent × Device)
unfolding read_reading
device_read_event c dev last r = elim dev.fd [
  | none ↦ aborted device_closed
  | some _ ↦ read_reading c dev last r
]
