-- ===== src/Daemon/Events.antt =====
-- src/keyd.h and src/daemon.c: event_handler.
use keyd_fork.Common.{
  ℕ, ◌+◌, ◌-◌, ◌%◌, Bool, true, false, not, ◌&&◌, none, some, List, [], ◌∷◌, ◌==◌, if◌then◌else◌,
  get_elem?, modify, update, Result, ◌>>=◌, ok, aborted, use_after_free,
}
use keyd_fork.Daemon.Engine.{run_keyboard}
use keyd_fork.Keys.{keyd_external_mouse_button}
use keyd_fork.Daemon.Configs.{manage_device}
use keyd_fork.Config.{Descriptor}
use keyd_fork.Device.{Device, DeviceEvent, EventType}
use keyd_fork.Keyboard.State.{Keyboard, KeyEvent}
use keyd_fork.Daemon.{Daemon, World, emit, vkbd_scroll, vkbd_move, vkbd_move_abs, led}
use keyd_fork.Daemon.Client.{IpcMessage, handle_client}
use keyd_fork.Common.Int.{ℤ, pos, int_32, int_16, word_32, neg, div, rem}

-- `struct event`; a device is its index in the table, and a client the connection that is accepted
-- with the message that it sends.
pub data Event : Type 0 where
  dev_add : ℕ → Event
  dev_remove : ℕ → Event
  dev_event : ℕ → DeviceEvent → Event
  client : ℕ → IpcMessage → Event
  fd_other : Event
  timed_out : Event

-- `int` sums wrap around.
unfoldable pub add_move : ℤ → ℕ → ℤ
add_move old by = int_32 ((word_32 old + by) % 4294967296)

-- A move of the mouse while a keyboard scrolls.
unfoldable pub scroll_by : Daemon → ℕ → ℤ → ℕ → ℕ → Daemon
unfolding add_move
scroll_by d a sensitivity dx dy =
    let y = add_move (d.scroll a).1 dy in
    let x = add_move (d.scroll a).0 dx in
    record d {
      scroll = update d.scroll a (rem x sensitivity, rem y sensitivity);
      trace =
          vkbd_scroll (pos 0) (div x sensitivity)
          ∷ vkbd_scroll (pos 0) (neg (div y sensitivity))
          ∷ d.trace;
    }

unfoldable pub move_mouse : Daemon → ℕ → Keyboard → DeviceEvent → Daemon
unfolding scroll_by
move_mouse d a kbd e =
    if kbd.scroll.active
    then (if kbd.scroll.sensitivity == 0
        then d
        else scroll_by d a (int_16 kbd.scroll.sensitivity) e.x e.y)
    else emit d (vkbd_move e.x e.y)

abbrev pub key_event : ℕ → Bool → ℕ → KeyEvent
key_event code pressed time = record { code = code; pressed = pressed; timestamp = time }

module _ (w : World) (fuel : ℕ) where
  unfoldable pub press_mouse_button : Daemon → ℕ → DeviceEvent → ℕ → Result Daemon
  press_mouse_button d a e time = do
    (_, d') ← run_keyboard w fuel d a (key_event keyd_external_mouse_button true time ∷ [])
    (timeout, d'') ← run_keyboard w fuel d' a (key_event keyd_external_mouse_button false time ∷ [])
    ok (emit (record d'' { timeout = timeout }) (vkbd_scroll (int_32 e.x) (int_32 e.y)))

  -- The `switch` on an event of a device that has a keyboard.
  unfoldable pub grabbed_event : Daemon → ℕ → EventType → DeviceEvent → ℕ → Result Daemon
  unfolding move_mouse press_mouse_button
  grabbed_event d a EventType.key e time = do
    (timeout, d') ← run_keyboard w fuel d a (key_event e.code (not (e.pressed == 0)) time ∷ [])
    ok (record d' { timeout = timeout })
  grabbed_event d a EventType.mouse_move e time = elim (d.kbds a) [
    | none ↦ aborted use_after_free
    | some kbd ↦ ok (move_mouse d a kbd e)
  ]
  grabbed_event d a EventType.mouse_move_abs e time = ok (emit d (vkbd_move_abs e.x e.y))
  grabbed_event d a EventType.mouse_scroll e time = press_mouse_button d a e time
  grabbed_event d a _ e time = ok d

  -- The light of a virtual device goes on to every device with a keyboard.
  unfoldable pub spread_led : Daemon → DeviceEvent → List Device → Daemon
  spread_led d e [] = d
  spread_led d e (dev ∷ devs) =
      spread_led (elim dev.data' [ none ↦ d | some _ ↦ emit d (led dev.path e.code e.pressed) ]) e
        devs

  unfoldable pub is_led : EventType → Bool
  is_led EventType.led = true
  is_led _ = false

  unfoldable pub device_event : Daemon → Device → DeviceEvent → ℕ → Result Daemon
  unfolding grabbed_event spread_led is_led
  device_event d dev e time = elim dev.data' [
    | some a ↦ grabbed_event (record d { active_kbd = some a }) a e.type e time
    | none ↦ ok (if dev.is_virtual && is_led e.type then spread_led d e d.device_table else d)
  ]

  unfoldable pub dispatch : Descriptor → Daemon → Event → ℕ → Result Daemon
  unfolding device_event
  dispatch junk d (dev_add i) time = elim (get_elem? d.device_table i) [
    | none ↦ ok d
    | some dev ↦
        let (dev', d') = manage_device w d dev in
        ok (record d' { device_table = modify d'.device_table i (λ _. dev') })
  ]
  dispatch junk d (dev_remove i) time = ok d
  dispatch junk d (dev_event i e) time = elim (get_elem? d.device_table i) [
    | none ↦ ok d
    | some dev ↦ device_event d dev e time
  ]
  dispatch junk d (client con msg) time = handle_client w junk d con msg
  dispatch junk d fd_other time = ok d
  dispatch junk d timed_out time = elim d.active_kbd [
    | none ↦ ok d
    | some a ↦ (do
      (timeout, d') ← run_keyboard w fuel d a (key_event 0 false time ∷ [])
      ok (record d' { timeout = timeout }))
  ]

  -- The result: the daemon's `timeout`, but where time runs out and no keyboard is active.
  unfoldable pub returned_timeout : Event → Daemon → ℕ
  returned_timeout timed_out d = elim d.active_kbd [ none ↦ 0 | some _ ↦ d.timeout ]
  returned_timeout _ d = d.timeout

  unfoldable pub event_handler : Descriptor → Daemon → Event → ℕ → Result (ℕ × Daemon)
  unfolding dispatch returned_timeout
  event_handler junk d ev time = do
    let now = record d { timeout = d.timeout + d.last_time - time; last_time = time }
    d' ← dispatch junk now ev time
    ok (returned_timeout ev d', d')
