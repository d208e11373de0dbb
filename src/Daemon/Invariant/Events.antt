-- ===== src/Daemon/Invariant/Events.antt =====
-- src/daemon.c: event_handler keeps the invariant.
use keyd_fork.Common.{
  ℕ, zero, suc, ◌+◌, ◌-◌, ◌≡◌, refl, subst, false, ◌&&◌, Option, none, some, List, [], ◌∷◌, ◌==◌,
  if◌then◌else◌, if_intro, get_elem?, modify, All, ◌>>=◌, Ensures, Ensures-bind, ok, aborted,
  use_after_free, done, aborts,
}
use keyd_fork.Daemon.Configs.{manage_device}
use keyd_fork.Daemon.Invariant.Clients.{run_keyboard-Inv, handle_client-Inv}
use keyd_fork.Daemon.{led, emit, vkbd_scroll}
use keyd_fork.Daemon.Events.{
  dev_add, dev_remove, dev_event, client, fd_other, timed_out, client, Event, dispatch, key_event,
  is_led, device_event, event_handler,
}
use keyd_fork.Daemon.Events.{
  dev_add, dev_remove, dev_event, client, fd_other, timed_out, scroll_by, spread_led, grabbed_event,
  press_mouse_button, move_mouse, key_event, is_led, device_event, event_handler,
}
use keyd_fork.Device.{Device, DeviceEvent, EventType}
use keyd_fork.Daemon.Invariant.Steps.{emit-Quiet}
use keyd_fork.Keyboard.State.{KeyEvent, Keyboard}
use keyd_fork.Daemon.Invariant.Devices.{some_injective, manage_device-Managed}
use keyd_fork.Config.{Descriptor}
use keyd_fork.Daemon.{Daemon, World, emit, vkbd_scroll, vkbd_move, vkbd_move_abs, led}
use keyd_fork.Daemon.Engine.{run_keyboard}
use keyd_fork.Daemon.Invariant.{Inv, Quiet-Inv, Quiet, Quiet-trans, Quiet-refl, IsServed}
use keyd_fork.Common.Int.{ℤ, int_32}
use keyd_fork.Device.{Device, DeviceEvent, EventType}

scroll_by-Quiet : (d : Daemon) (a : ℕ) (s : ℤ) (dx dy : ℕ) → Quiet d (scroll_by d a s dx dy)
unfolding scroll_by
scroll_by-Quiet d a s dx dy = record {
  kbds_same = refl;
  configs_same = refl;
  devices_same = refl;
  next_same = refl;
  active_same = refl;
  records = λ r. r;
}

move_mouse-Quiet :
    (d : Daemon) (a : ℕ) (kbd : Keyboard) (e : DeviceEvent) → Quiet d (move_mouse d a kbd e)
unfolding move_mouse
move_mouse-Quiet d a kbd e =
    if_intro (Quiet d) kbd.scroll.active
      (if_intro (Quiet d) (kbd.scroll.sensitivity == 0) (Quiet-refl d)
        (scroll_by-Quiet d a _ e.x e.y))
      (emit-Quiet d (vkbd_move e.x e.y) (λ t c. refl))

spread_led-Quiet :
    (w : World) (fuel : ℕ) (d : Daemon) (e : DeviceEvent) (devs : List Device)
    → Quiet d (spread_led w fuel d e devs)
unfolding spread_led
spread_led-Quiet w fuel d e [] = Quiet-refl d
spread_led-Quiet w fuel d e (dev ∷ devs) = Quiet-trans (one dev.data') (
    spread_led-Quiet w fuel
      (elim dev.data' [ none ↦ d | some _ ↦ emit d (led dev.path e.code e.pressed) ]) e devs)
  where
    one :
        (o : Option ℕ)
        → Quiet d (elim o [ none ↦ d | some _ ↦ emit d (led dev.path e.code e.pressed) ])
    one none = Quiet-refl d
    one (some _) = emit-Quiet d _ (λ t c. refl)

-- The times and the active keyboard are no part of it.
timed-Inv :
    (d : Daemon) (timeout last : ℕ) (active : Option ℕ)
    → Inv d
    → Inv (record d { timeout = timeout; last_time = last; active_kbd = active })
timed-Inv d timeout last active v = record {
  recorded = v.recorded;
  configs_live = v.configs_live;
  devices_served = v.devices_served;
}

press_mouse_button-Inv :
    (w : World) (fuel : ℕ) (d : Daemon) (a : ℕ) (e : DeviceEvent) (time : ℕ)
    → Inv d
    → Ensures Inv (press_mouse_button w fuel d a e time)
unfolding press_mouse_button
press_mouse_button-Inv w fuel d a e time v =
    Ensures-bind _ (run_keyboard-Inv w fuel d a _ v) (λ (_, d') v'.
      Ensures-bind _ (run_keyboard-Inv w fuel d' a _ v') (λ (timeout, d'') v''. done (
        Quiet-Inv (emit-Quiet _ (vkbd_scroll (int_32 e.x) (int_32 e.y)) (λ t c. refl))
          (timed-Inv d'' timeout d''.last_time d''.active_kbd v''))))

-- The event of a key, or the time that has come.
timed_run-Inv :
    (w : World) (fuel : ℕ) (d : Daemon) (a : ℕ) (events : List KeyEvent)
    → Inv d
    → Ensures Inv
        (run_keyboard w fuel d a events >>= (λ (timeout, d'). ok (record d' { timeout = timeout })))
timed_run-Inv w fuel d a events v =
    Ensures-bind _ (run_keyboard-Inv w fuel d a events v)
      (λ (timeout, d') v'. done (timed-Inv d' timeout d'.last_time d'.active_kbd v'))

grabbed_event-Inv :
    (w : World) (fuel : ℕ) (d : Daemon) (a : ℕ) (type : EventType) (e : DeviceEvent) (time : ℕ)
    → Inv d
    → Ensures Inv (grabbed_event w fuel d a type e time)
unfolding grabbed_event
grabbed_event-Inv w fuel d a EventType.key e time v = timed_run-Inv w fuel d a _ v
grabbed_event-Inv w fuel d a EventType.mouse_move e time v = at (d.kbds a)
  where
    at :
        (o : Option Keyboard)
        → Ensures Inv
            (elim o [ none ↦ aborted use_after_free | some kbd ↦ ok (move_mouse d a kbd e) ])
    at none = aborts
    at (some kbd) = done (Quiet-Inv (move_mouse-Quiet d a kbd e) v)
grabbed_event-Inv w fuel d a EventType.mouse_move_abs e time v =
    done (Quiet-Inv (emit-Quiet d (vkbd_move_abs e.x e.y) (λ t c. refl)) v)
grabbed_event-Inv w fuel d a EventType.mouse_scroll e time v =
    press_mouse_button-Inv w fuel d a e time v
grabbed_event-Inv w fuel d a EventType.led e time v = done v
grabbed_event-Inv w fuel d a EventType.removed e time v = done v

device_event-Inv :
    (w : World) (fuel : ℕ) (d : Daemon) (dev : Device) (e : DeviceEvent) (time : ℕ)
    → Inv d
    → Ensures Inv (device_event w fuel d dev e time)
unfolding device_event
device_event-Inv w fuel d dev e time v = at dev.data'
  where
    at :
        (o : Option ℕ)
        → Ensures Inv (elim o [
          | some a ↦ grabbed_event w fuel (record d { active_kbd = some a }) a e.type e time
          | none ↦ ok (
              if dev.is_virtual && is_led w fuel e.type
              then spread_led w fuel d e d.device_table
              else d)
        ])
    at (some a) =
        grabbed_event-Inv w fuel (record d { active_kbd = some a }) a e.type e time
          (timed-Inv d d.timeout d.last_time (some a) v)
    at none = done (
        if_intro Inv (dev.is_virtual && is_led w fuel e.type)
          (Quiet-Inv (spread_led-Quiet w fuel d e d.device_table) v) v)

-- The device that is at an index.
pub get_elem?-All {ℓ} :
    {A : Type ℓ} (P : A → Type 0) (xs : List A) (i : ℕ) (x : A)
    → All P xs
    → get_elem? xs i ≡ some x
    → P x
get_elem?-All P [] i x h e = cc
get_elem?-All P (y ∷ xs) zero x h e = subst P (some_injective y x e) h.0
get_elem?-All P (y ∷ xs) (suc i) x h e = get_elem?-All P xs i x h.1 e

pub modify-All {ℓ} :
    {A : Type ℓ} (P : A → Type 0) (xs : List A) (i : ℕ) (x : A)
    → All P xs
    → P x
    → All P (modify xs i (λ _. x))
modify-All P [] i x h k = h
modify-All P (y ∷ xs) zero x h k = (k, h.1)
modify-All P (y ∷ xs) (suc i) x h k = (h.0, modify-All P xs i x h.1 k)

added-Inv :
    (w : World) (d : Daemon) (i : ℕ) (dev : Device)
    → get_elem? d.device_table i ≡ some dev
    → Inv d
    → Inv (
        let (dev', d') = manage_device w d dev in
        record d' { device_table = modify d'.device_table i (λ _. dev') })
added-Inv w d i dev e v =
    let served = get_elem?-All (IsServed d.kbds) d.device_table i dev v.devices_served e in
    let (new, q) = manage_device-Managed w d dev served.0 v.configs_live in
    let v' = Quiet-Inv q v in
    record {
      recorded = v'.recorded;
      configs_live = v'.configs_live;
      devices_served = modify-All _ _ i _ v'.devices_served (rw q.kbds_same new);
    }

dispatch-Inv :
    (w : World) (fuel : ℕ) (junk : Descriptor) (d : Daemon) (ev : Event) (time : ℕ)
    → Inv d
    → Ensures Inv (dispatch w fuel junk d ev time)
unfolding dispatch
dispatch-Inv w fuel junk d (dev_add i) time v =
    at (get_elem? d.device_table i) (λ dev e. added-Inv w d i dev e v)
  where
    at :
        (o : Option Device)
        → ((dev : Device)
            → o ≡ some dev
            → Inv (
                let (dev', d') = manage_device w d dev in
                record d' { device_table = modify d'.device_table i (λ _. dev') }))
        → Ensures Inv (elim o [
          | none ↦ ok d
          | some dev ↦
              let (dev', d') = manage_device w d dev in
              ok (record d' { device_table = modify d'.device_table i (λ _. dev') })
        ])
    at none h = done v
    at (some dev) h = done (h dev refl)
dispatch-Inv w fuel junk d (dev_remove i) time v = done v
dispatch-Inv w fuel junk d (dev_event i e) time v = at (get_elem? d.device_table i)
  where
    at :
        (o : Option Device)
        → Ensures Inv (elim o [ none ↦ ok d | some dev ↦ device_event w fuel d dev e time ])
    at none = done v
    at (some dev) = device_event-Inv w fuel d dev e time v
dispatch-Inv w fuel junk d (client con msg) time v = handle_client-Inv w junk d con msg v
dispatch-Inv w fuel junk d fd_other time v = done v
dispatch-Inv w fuel junk d timed_out time v = at d.active_kbd
  where
    at :
        (o : Option ℕ)
        → Ensures Inv (elim o [
          | none ↦ ok d
          | some a ↦ (do
            (timeout, d') ← run_keyboard w fuel d a (key_event 0 false time ∷ [])
            ok (record d' { timeout = timeout }))
        ])
    at none = done v
    at (some a) = timed_run-Inv w fuel d a _ v

pub event_handler-Inv :
    (w : World) (fuel : ℕ) (junk : Descriptor) (d : Daemon) (ev : Event) (time : ℕ)
    → Inv d
    → Ensures (λ r. Inv r.1) (event_handler w fuel junk d ev time)
unfolding event_handler
event_handler-Inv w fuel junk d ev time v =
    Ensures-bind _
      (dispatch-Inv w fuel junk _ ev time
        (timed-Inv d (d.timeout + d.last_time - time) time d.active_kbd v))
      (λ d' v'. done v')
