-- ===== src/Vkbd/Uinput.antt =====
-- src/vkbd/uinput.c: the virtual keyboard and the virtual pointer.
pub mod Codes
pub mod Enabled
use keyd_fork.Common.{
  ℕ, ◌+◌, ◌-◌, Bool, true, false, List, [], ◌∷◌, ◌++◌, map, ltb, ◌==◌, if◌then◌else◌, take,
  range_from, Result, ok, aborted, exited,
}
use keyd_fork.Device.Read.{Evdev, InputEvent}
use keyd_fork.Keys.{
  keyd_voicecommand, keyd_middle_mouse, keyd_left_mouse, keyd_mouse_2, keyd_zoom, keyd_mouse_back,
  keyd_mouse_forward, keyd_right_mouse, keyd_mouse_1,
}
use keyd_fork.Keys.Table.{Keycode, keycode_table}

-- More constants of linux/input.h, and the size of the name in `struct uinput_user_dev`.
pub record Uinput : Type 0 where
  pub evdev : Evdev
  pub ev_rep : ℕ
  pub ev_syn : ℕ
  pub led_numl : ℕ
  pub led_misc : ℕ
  pub rel_z : ℕ
  pub btn_task : ℕ
  pub name_size : ℕ

-- What is asked of /dev/uinput. A device that is written has its product, its name and the highest
-- value of the axes x and y; the bus and the vendor are always the same.
pub data Request : Type 0 where
  set_evbit set_keybit set_ledbit set_absbit set_relbit : ℕ → Request
  user_dev : ℕ → List ℕ → ℕ → Request
  dev_create : Request

-- The codes of the table's entries below 256, in the table's order.
unfoldable pub key_codes : List Keycode → List ℕ
key_codes [] = []
key_codes (k ∷ ks) = let rest = key_codes ks in if ltb k.code 256 then k.code ∷ rest else rest

-- The requests for a keyboard, in order.
unfoldable pub keyboard_requests : Uinput → List ℕ → List Request
unfolding key_codes
keyboard_requests u name =
    (set_evbit u.ev_rep
      ∷ set_evbit u.evdev.ev_key
      ∷ set_evbit u.evdev.ev_led
      ∷ set_evbit u.ev_syn
      ∷ map set_keybit (key_codes keycode_table))
    ++ (map set_ledbit (range_from u.led_numl (u.led_misc + 1 - u.led_numl))
        ++ (set_keybit u.evdev.key_zoom
            ∷ user_dev 2782 (take (u.name_size - 1) name) 0
            ∷ dev_create
            ∷ []))

unfoldable pub pointer_requests : Uinput → List ℕ → List Request
pointer_requests u name =
    (set_evbit u.evdev.ev_rel
      ∷ set_evbit u.evdev.ev_abs
      ∷ set_evbit u.evdev.ev_key
      ∷ set_evbit u.ev_syn
      ∷ set_absbit u.evdev.abs_x
      ∷ set_absbit u.evdev.abs_y
      ∷ set_relbit u.evdev.rel_x
      ∷ set_relbit u.evdev.rel_wheel
      ∷ set_relbit u.evdev.rel_hwheel
      ∷ set_relbit u.evdev.rel_y
      ∷ set_relbit u.rel_z
      ∷ map set_keybit (range_from u.evdev.btn_left (u.btn_task + 1 - u.evdev.btn_left)))
    ++ (user_dev 6878 (take (u.name_size - 1) name) 1024 ∷ dev_create ∷ [])

-- Whether the system opens the file, and whether it does what is asked; the process exits where
-- a request of a keyboard fails.
unfoldable pub all_done : (Request → Bool) → List Request → Bool
all_done does [] = true
all_done does (r ∷ rs) = let rest = all_done does rs in if does r then rest else false

unfoldable pub create_virtual_keyboard :
    Uinput → Bool → (Request → Bool) → List ℕ → Result (List Request)
unfolding keyboard_requests all_done
create_virtual_keyboard u opens does name =
    if opens
    then (if all_done does (keyboard_requests u name)
        then ok (keyboard_requests u name)
        else aborted exited)
    else aborted exited

-- Only the write of the device must succeed.
unfoldable pub create_virtual_pointer :
    Uinput → Bool → (Request → Bool) → List ℕ → Result (List Request)
unfolding pointer_requests
create_virtual_pointer u opens does name =
    if opens
    then (if does (user_dev 6878 (take (u.name_size - 1) name) 1024)
        then ok (pointer_requests u name)
        else aborted exited)
    else aborted exited

-- What is written to the keyboard's file and to the pointer's, and a pause in microseconds. The time
-- of every event is 0.
pub data Write : Type 0 where
  to_keyboard to_pointer : InputEvent → Write
  wait : ℕ → Write

abbrev input_event : ℕ → ℕ → ℕ → InputEvent
input_event type code value = record { type = type; code = code; value = value }

-- The `switch`: whether the key is a button, and the code of the event.
unfoldable pub event_code : Uinput → ℕ → Bool × ℕ
event_code u code =
    if code == keyd_left_mouse
    then (true, u.evdev.btn_left)
    else if code == keyd_middle_mouse
    then (true, u.evdev.btn_middle)
    else if code == keyd_right_mouse
    then (true, u.evdev.btn_right)
    else if code == keyd_mouse_1
    then (true, u.evdev.btn_side)
    else if code == keyd_mouse_2
    then (true, u.evdev.btn_extra)
    else if code == keyd_mouse_back
    then (true, u.evdev.btn_back)
    else if code == keyd_mouse_forward
    then (true, u.evdev.btn_forward)
    else if code == keyd_zoom
    then (false, u.evdev.key_zoom)
    else if code == keyd_voicecommand
    then (false, u.evdev.key_voicecommand)
    else (false, code)

-- The writes in order.
unfoldable pub write_key_event : Uinput → ℕ → ℕ → List Write
unfolding event_code
write_key_event u code state =
    let (is_btn, c) = event_code u code in
    let key = input_event u.evdev.ev_key c state in
    let syn = input_event u.ev_syn 0 0 in
    if is_btn
    then wait 1000 ∷ to_pointer key ∷ to_pointer syn ∷ []
    else to_keyboard key ∷ to_keyboard syn ∷ []

-- A movement along an axis, where there is one.
abbrev moved : ℕ → ℕ → ℕ → List Write
moved type code value = if value == 0 then [] else to_pointer (input_event type code value) ∷ []

unfoldable pub vkbd_mouse_move : Uinput → ℕ → ℕ → List Write
vkbd_mouse_move u x y =
    moved u.evdev.ev_rel u.evdev.rel_x x
    ++ (moved u.evdev.ev_rel u.evdev.rel_y y ++ (to_pointer (input_event u.ev_syn 0 0) ∷ []))

unfoldable pub vkbd_mouse_scroll : Uinput → ℕ → ℕ → List Write
vkbd_mouse_scroll u x y =
    to_pointer (input_event u.evdev.ev_rel u.evdev.rel_wheel y)
    ∷ to_pointer (input_event u.evdev.ev_rel u.evdev.rel_hwheel x)
    ∷ to_pointer (input_event u.ev_syn 0 0)
    ∷ []

unfoldable pub vkbd_mouse_move_abs : Uinput → ℕ → ℕ → List Write
vkbd_mouse_move_abs u x y =
    moved u.evdev.ev_abs u.evdev.abs_x x
    ++ (moved u.evdev.ev_abs u.evdev.abs_y y ++ (to_pointer (input_event u.ev_syn 0 0) ∷ []))
