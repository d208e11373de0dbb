-- ===== src/Vkbd/Uinput/Codes.antt =====
-- src/vkbd/uinput.c and src/device.c: the codes of the keys that are written, and what a device that
-- gives them is read as.
use keyd_fork.Common.{ℕ, ◌≤◌, ◌<◌, ◌≡◌, some, arith}
use keyd_fork.Device.Read.{key_code}
use keyd_fork.Vkbd.Uinput.{Uinput, event_code}

-- The order of these codes in linux/input-event-codes.h.
pub record IsOrdered (u : Uinput) : Type 0 where
  pub left : 256 ≤ u.evdev.btn_left
  pub right : u.evdev.btn_left < u.evdev.btn_right
  pub middle : u.evdev.btn_right < u.evdev.btn_middle
  pub side : u.evdev.btn_middle < u.evdev.btn_side
  pub extra : u.evdev.btn_side < u.evdev.btn_extra
  pub forward : u.evdev.btn_extra < u.evdev.btn_forward
  pub back : u.evdev.btn_forward < u.evdev.btn_back
  pub task : u.evdev.btn_back ≤ u.btn_task
  pub zoom : u.btn_task < u.evdev.key_zoom
  pub fn : u.evdev.key_zoom < u.evdev.key_fn
  pub voicecommand : u.evdev.key_fn < u.evdev.key_voicecommand

-- A key that is written is read back as the same key: device_read_event's table of buttons and of
-- keys above 255 undoes the one of write_key_event.
pub key_code-event_code :
    (u : Uinput) (code : ℕ)
    → IsOrdered u
    → code < 256
    → key_code u.evdev (event_code u code).1 ≡ some code
unfolding key_code event_code
key_code-event_code u code o less =
    let h1 = o.left in
    let h2 = o.right in
    let h3 = o.middle in
    let h4 = o.side in
    let h5 = o.extra in
    let h6 = o.forward in
    let h7 = o.back in
    let h8 = o.task in let h9 = o.zoom in let h10 = o.fn in let h11 = o.voicecommand in ground arith
