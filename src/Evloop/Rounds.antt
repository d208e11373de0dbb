-- ===== src/Evloop/Rounds.antt =====
-- src/evloop.c: the invariant of the daemon over rounds of the loop.
use keyd_fork.Common.{
  ℕ, ◌≡◌, Bool, ◌&&◌, Option, none, some, List, [], ◌∷◌, ◌++◌, ltb, leb, if_intro, length, range,
  All, All-append, Ensures, Ensures-bind, done, aborts,
}
use keyd_fork.Config.{Descriptor}
use keyd_fork.Device.{Device}
use keyd_fork.Device.Read.{Evdev}
use keyd_fork.Daemon.{Daemon, World}
use keyd_fork.Daemon.Events.{Event, timed_out, dev_add}
use keyd_fork.Daemon.Invariant.{Inv, IsServed}
use keyd_fork.Daemon.Invariant.Events.{event_handler-Inv}
use keyd_fork.Evloop.{
  Loop, Round, expire_timeout, read_devices, handle_all, add_devices, compact, round, start_devices,
  rounds, evloop,
}
use keyd_fork.Evloop.Safety.{LoopInv, handle-Inv, read_device-Inv}

-- A device as device_init leaves it: no keyboard serves it yet.
abbrev pub IsFresh : Device → Type 0
IsFresh dev = dev.data' ≡ none

Fresh-IsServed : (d : Daemon) (devs : List Device) → All IsFresh devs → All (IsServed d.kbds) devs
Fresh-IsServed d [] h = tt
Fresh-IsServed d (dev ∷ devs) h =
    let fresh = h.0 in (((λ v. fresh), λ a e. cc), Fresh-IsServed d devs h.1)

table-Inv :
    (d : Daemon) (devs : List Device)
    → Inv d
    → All (IsServed d.kbds) devs
    → Inv (record d { device_table = devs })
table-Inv d devs v h = record {
  recorded = v.recorded;
  configs_live = v.configs_live;
  devices_served = h;
}

module _ (c : Evdev) (w : World) (fuel : ℕ) (junk : Descriptor) where
  expire_timeout-Inv :
      (l : Loop) (r : Round) → LoopInv l → Ensures LoopInv (expire_timeout c w fuel junk l r)
  unfolding expire_timeout
  expire_timeout-Inv l r v =
      if_intro (Ensures LoopInv) (ltb 0 l.timeout && leb l.timeout r.elapsed)
        (handle-Inv c w fuel junk l timed_out r.timestamp v) (done v)

  read_devices-Inv :
      (l : Loop) (r : Round) (is : List ℕ)
      → LoopInv l
      → Ensures (λ (a : Bool × Loop). LoopInv a.1) (read_devices c w fuel junk l r is)
  unfolding read_devices
  read_devices-Inv l r [] v = done v
  read_devices-Inv l r (i ∷ is) v =
      Ensures-bind _
        (if_intro (Ensures (λ (a : Bool × Loop). LoopInv a.1)) (r.ready i)
          (read_device-Inv c w fuel junk l i r.timestamp (r.readings i) v) (done v))
        (λ (gone, l') v'.
          Ensures-bind _ (read_devices-Inv l' r is v') (λ (others, l'') v''. done v''))

  handle_all-Inv :
      (l : Loop) (time : ℕ) (evs : List Event)
      → LoopInv l
      → Ensures LoopInv (handle_all c w fuel junk l time evs)
  unfolding handle_all
  handle_all-Inv l time [] v = done v
  handle_all-Inv l time (ev ∷ evs) v =
      Ensures-bind _ (handle-Inv c w fuel junk l ev time v) (λ l' v'. handle_all-Inv l' time evs v')

  add_devices-Inv :
      (l : Loop) (time : ℕ) (devs : List Device)
      → LoopInv l
      → All IsFresh devs
      → Ensures LoopInv (add_devices c w fuel junk l time devs)
  unfolding add_devices
  add_devices-Inv l time [] v h = done v
  add_devices-Inv l time (dev ∷ devs) v h =
      if_intro (Ensures LoopInv) (ltb (length l.daemon.device_table) 64)
        (Ensures-bind _
          (handle-Inv c w fuel junk
            (record l {
              daemon = record l.daemon { device_table = l.daemon.device_table ++ (dev ∷ []) };
            })
            (dev_add (length l.daemon.device_table)) time
            (table-Inv l.daemon _ v (
              All-append _ l.daemon.device_table (dev ∷ []) v.devices_served
                (Fresh-IsServed l.daemon (dev ∷ []) (h.0, tt)))))
          (λ l' v'. add_devices-Inv l' time devs v' h.1))
        aborts

  compact-All :
      (P : Device → Type 0) (devs : List Device) → All P devs → All P (compact c w fuel junk devs)
  unfolding compact
  compact-All P [] h = tt
  compact-All P (dev ∷ devs) h = kept dev.fd (compact-All P devs h.1)
    where
      kept :
          (o : Option ℕ)
          → All P (compact c w fuel junk devs)
          → All P (elim o [
            | none ↦ compact c w fuel junk devs
            | some _ ↦ dev ∷ compact c w fuel junk devs
          ])
      kept none k = k
      kept (some _) k = (h.0, k)

  round-Inv :
      (l : Loop) (r : Round)
      → LoopInv l
      → All IsFresh r.added
      → Ensures LoopInv (round c w fuel junk l r)
  unfolding round
  round-Inv l r v h = Ensures-bind _ (expire_timeout-Inv l r v) (λ l1 v1.
      Ensures-bind _ (read_devices-Inv l1 r (range (length l1.daemon.device_table)) v1)
        (λ (removed, l2) v2. Ensures-bind _ (handle_all-Inv l2 r.timestamp r.aux v2) (λ l3 v3.
          Ensures-bind _ (add_devices-Inv l3 r.timestamp r.added v3 h) (λ l4 v4. done (
            if_intro LoopInv removed
              (table-Inv l4.daemon _ v4 (compact-All _ l4.daemon.device_table v4.devices_served))
              v4)))))

  start_devices-Inv :
      (l : Loop) (time : ℕ) (is : List ℕ)
      → LoopInv l
      → Ensures LoopInv (start_devices c w fuel junk l time is)
  unfolding start_devices
  start_devices-Inv l time [] v = done v
  start_devices-Inv l time (i ∷ is) v =
      Ensures-bind _ (event_handler-Inv w fuel junk l.daemon (dev_add i) time v)
        (λ (_, d) v'. start_devices-Inv (record l { daemon = d }) time is v')

  rounds-Inv :
      (l : Loop) (rs : List Round)
      → LoopInv l
      → All (λ r. All IsFresh r.added) rs
      → Ensures LoopInv (rounds c w fuel junk l rs)
  unfolding rounds
  rounds-Inv l [] v h = done v
  rounds-Inv l (r ∷ rs) v h =
      Ensures-bind _ (round-Inv l r v h.0) (λ l' v'. rounds-Inv l' rs v' h.1)

-- After any number of rounds, from devices that no keyboard serves yet: every key that the virtual
-- device holds is known to keystate, so that a reload lets go of it; the keyboard of every
-- configuration, and of every device, is not freed; and no virtual device has a keyboard.
pub evloop-Inv :
    (c : Evdev) (w : World) (fuel : ℕ) (junk : Descriptor) (l : Loop) (devices : List Device)
    (time : ℕ) (rs : List Round)
    → Inv l.daemon
    → All IsFresh devices
    → All (λ r. All IsFresh r.added) rs
    → Ensures (λ l'. Inv l'.daemon) (evloop c w fuel junk l devices time rs)
unfolding evloop
evloop-Inv c w fuel junk l devices time rs v fresh h =
    Ensures-bind _
      (start_devices-Inv c w fuel junk _ time (range (length devices))
        (table-Inv l.daemon devices v (Fresh-IsServed l.daemon devices fresh)))
      (λ l' v'. rounds-Inv c w fuel junk l' rs v' h)
