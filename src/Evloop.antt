-- ===== src/Evloop.antt =====
-- src/evloop.c: the loop that waits for events and hands them to the daemon.
pub mod Safety
pub mod Rounds
pub mod Fresh
pub mod Sequence
use keyd_fork.Common.{
  ℕ, ◌-◌, Bool, true, false, not, ◌&&◌, ◌||◌, none, some, List, [], ◌∷◌, ◌++◌, ltb, leb, ◌==◌,
  if◌then◌else◌, length, get_elem?, modify, range, Result, ◌>>=◌, ok, aborted, exited,
  too_many_devices, out_of_bounds,
}
use keyd_fork.Config.{Descriptor}
use keyd_fork.Keys.{keyd_esc, keyd_enter, keyd_backspace}
use keyd_fork.Device.{Device, DeviceEvent, EventType}
use keyd_fork.Device.Read.{Evdev, Reading, device_read_event}
use keyd_fork.Daemon.{Daemon, World}
use keyd_fork.Daemon.Events.{Event, event_handler, dev_add, dev_remove, dev_event, timed_out}

-- The static variables of panic_check.
pub record Panic : Type 0 where
  pub enter : ℕ
  pub backspace : ℕ
  pub escape : ℕ

unfoldable pub track_key : Panic → ℕ → ℕ → Panic
track_key p code pressed =
    if code == keyd_enter
    then record p { enter = pressed }
    else if code == keyd_backspace
    then record p { backspace = pressed }
    else if code == keyd_esc
    then record p { escape = pressed }
    else p

unfoldable pub panic_check : Panic → ℕ → ℕ → Result Panic
unfolding track_key
panic_check p code pressed =
    let p' = track_key p code pressed in
    if not (p'.backspace == 0) && not (p'.enter == 0) && not (p'.escape == 0)
    then aborted exited
    else ok p'

-- What the loop keeps; `devev` is the static event of device_read_event, and a `timeout` that is
-- negative is 0 here, which is treated the same.
pub record Loop : Type 0 where
  pub daemon : Daemon
  pub panic : Panic
  pub devev : DeviceEvent
  pub timeout : ℕ

-- What one call of poll brings: when it returned and how long it took, the devices that have something
-- with what reading them gives until there is nothing, the connections, and the devices that are new.
pub record Round : Type 0 where
  pub timestamp : ℕ
  pub elapsed : ℕ
  pub ready : ℕ → Bool
  pub readings : ℕ → List Reading
  pub aux : List Event
  pub added : List Device

unfoldable pub is_removal : EventType → Bool
is_removal EventType.removed = true
is_removal _ = false

module _ (c : Evdev) (w : World) (fuel : ℕ) (junk : Descriptor) where
  unfoldable pub handle : Loop → Event → ℕ → Result Loop
  handle l ev time = do
    (timeout, d) ← event_handler w fuel junk l.daemon ev time
    ok (record l { daemon = d; timeout = timeout })

  unfoldable pub expire_timeout : Loop → Round → Result Loop
  unfolding handle
  expire_timeout l r =
      if ltb 0 l.timeout && leb l.timeout r.elapsed
      then handle l timed_out r.timestamp
      else ok (record l { timeout = l.timeout - r.elapsed })

  -- The device at an index is another.
  abbrev pub put : Loop → ℕ → Device → Loop
  put l i dev = record l {
    daemon = record l.daemon { device_table = modify l.daemon.device_table i (λ _. dev) };
  }

  -- A device that is gone: whether one is.
  unfoldable pub remove : Loop → ℕ → ℕ → Result (Bool × Loop)
  unfolding handle
  remove l i time = do
    l' ← handle l (dev_remove i) time
    ok (
      true,
      record l' {
        daemon = record l'.daemon {
          device_table = modify l'.daemon.device_table i (λ dev. record dev { fd = none });
        };
      },
    )

  -- An event of a device.
  unfoldable pub pass : Loop → ℕ → DeviceEvent → ℕ → Result Loop
  unfolding panic_check handle
  pass l i e time = do
    p ← panic_check l.panic e.code e.pressed
    handle (record l { panic = p }) (dev_event i e) time

  -- The loop over what a device gives: whether it is gone.
  unfoldable pub read_device : Loop → ℕ → ℕ → List Reading → Result (Bool × Loop)
  unfolding remove pass is_removal
  read_device l i time [] = ok (false, l)
  read_device l i time (r ∷ rs) = elim (get_elem? l.daemon.device_table i) [
    | none ↦ aborted out_of_bounds
    | some dev ↦ device_read_event c dev l.devev r >>= (λ (given, dev'). elim given [
      | none ↦ ok (false, put l i dev')
      | some e ↦
          if is_removal e.type
          then remove (record (put l i dev') { devev = e }) i time
          else pass (record (put l i dev') { devev = e }) i e time
            >>= (λ l'. read_device l' i time rs)
    ])
  ]

  -- The loop over the devices: whether one is gone.
  unfoldable pub read_devices : Loop → Round → List ℕ → Result (Bool × Loop)
  unfolding read_device
  read_devices l r [] = ok (false, l)
  read_devices l r (i ∷ is) = do
    (gone, l') ← if r.ready i then read_device l i r.timestamp (r.readings i) else ok (false, l)
    (others, l'') ← read_devices l' r is
    ok (gone || others, l'')

  unfoldable pub handle_all : Loop → ℕ → List Event → Result Loop
  unfolding handle
  handle_all l time [] = ok l
  handle_all l time (ev ∷ evs) = do l' ← handle l ev time; handle_all l' time evs

  -- The loop over the new devices.
  unfoldable pub add_devices : Loop → ℕ → List Device → Result Loop
  unfolding handle
  add_devices l time [] = ok l
  add_devices l time (dev ∷ devs) =
      let table = l.daemon.device_table in
      if ltb (length table) 64
      then (do
        l' ←
            handle (record l { daemon = record l.daemon { device_table = table ++ (dev ∷ []) } })
              (dev_add (length table)) time
        add_devices l' time devs)
      else aborted too_many_devices

  -- The loop that moves the devices that are left to the front.
  unfoldable pub compact : List Device → List Device
  compact [] = []
  compact (dev ∷ devs) =
      let rest = compact devs in elim dev.fd [ none ↦ rest | some _ ↦ dev ∷ rest ]

  unfoldable pub round : Loop → Round → Result Loop
  unfolding expire_timeout read_devices handle_all add_devices compact
  round l r = do
    l1 ← expire_timeout l r
    (removed, l2) ← read_devices l1 r (range (length l1.daemon.device_table))
    l3 ← handle_all l2 r.timestamp r.aux
    l4 ← add_devices l3 r.timestamp r.added
    ok (
        if removed
        then record l4 {
          daemon = record l4.daemon { device_table = compact l4.daemon.device_table };
        }
        else l4)

  -- The loop over the devices that device_scan finds.
  unfoldable pub start_devices : Loop → ℕ → List ℕ → Result Loop
  unfolding handle
  start_devices l time [] = ok l
  start_devices l time (i ∷ is) = do
    (_, d) ← event_handler w fuel junk l.daemon (dev_add i) time
    start_devices (record l { daemon = d }) time is

  -- As many rounds as there are; the source's loop has no end.
  unfoldable pub rounds : Loop → List Round → Result Loop
  unfolding round
  rounds l [] = ok l
  rounds l (r ∷ rs) = round l r >>= (λ l'. rounds l' rs)

  -- From the devices that are there at the start; the timestamp is what `ev` holds.
  unfoldable pub evloop : Loop → List Device → ℕ → List Round → Result Loop
  unfolding start_devices rounds
  evloop l devices time rs =
      let table = record l { daemon = record l.daemon { device_table = devices }; timeout = 0 } in
      start_devices table time (range (length devices)) >>= (λ l'. rounds l' rs)

-- The connections that are watched.
unfoldable pub evloop_add_fd : List ℕ → ℕ → Result (List ℕ)
evloop_add_fd fds fd = if ltb (length fds) 32 then ok (fds ++ (fd ∷ [])) else aborted out_of_bounds
