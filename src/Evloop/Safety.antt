-- ===== src/Evloop/Safety.antt =====
-- src/evloop.c: what every round keeps.
use keyd_fork.Common.{
  ℕ, zero, suc, ◌≡◌, refl, Bool, false, Option, none, some, List, [], ◌∷◌, if◌then◌else◌, if_intro,
  get_elem?, modify, All, Result, ◌>>=◌, Ensures, Ensures-bind, ok, aborted, out_of_fuel,
  device_closed, out_of_bounds, done, aborts, starves,
}
use keyd_fork.Config.{Descriptor}
use keyd_fork.Daemon.Events.{dev_remove, dev_event, Event}
use keyd_fork.Device.{Device, DeviceEvent}
use keyd_fork.Device.Read.{
  Evdev, Reading, event, again, broken, device_read_event, read_reading, read_input,
}
use keyd_fork.Daemon.{Daemon, World}
use keyd_fork.Daemon.Invariant.{Inv, IsServed}
use keyd_fork.Daemon.Invariant.Events.{get_elem?-All, modify-All, event_handler-Inv}
use keyd_fork.Evloop.{is_removal, Loop, Panic, panic_check, handle, put, remove, pass, read_device}

abbrev pub LoopInv : Loop → Type 0
LoopInv l = Inv l.daemon

-- Reading a device changes its file at most.
abbrev IsSame : Device → Option DeviceEvent × Device → Type 0
IsSame dev a = (a.1.data' ≡ dev.data') × (a.1.is_virtual ≡ dev.is_virtual)

device_read_event-IsSame :
    (c : Evdev) (dev : Device) (last : DeviceEvent) (r : Reading)
    → Ensures (IsSame dev) (device_read_event c dev last r)
unfolding device_read_event read_reading ◌>>=◌
device_read_event-IsSame c dev last r = opened dev.fd r
  where
    input : (o : Result (Option DeviceEvent)) → Ensures (IsSame dev) (o >>= (λ r. ok (r, dev)))
    input (ok a) = done (refl, refl)
    input (aborted e) = aborts
    input out_of_fuel = starves

    reading : (r : Reading) → Ensures (IsSame dev) (read_reading c dev last r)
    reading (event ev) = input (read_input c dev ev last)
    reading again = done (refl, refl)
    reading broken = done (refl, refl)

    opened :
        (o : Option ℕ) (r : Reading)
        → Ensures
            (IsSame dev)
            (elim o [ none ↦ aborted device_closed | some _ ↦ read_reading c dev last r ])
    opened none r = aborts
    opened (some _) r = reading r

-- The table with a device for one that is served alike.
replaced-Inv :
    (d : Daemon) (i : ℕ) (dev dev' : Device)
    → Inv d
    → get_elem? d.device_table i ≡ some dev
    → dev'.data' ≡ dev.data'
    → dev'.is_virtual ≡ dev.is_virtual
    → Inv (record d { device_table = modify d.device_table i (λ _. dev') })
replaced-Inv d i dev dev' v e same same' =
    let served = get_elem?-All (IsServed d.kbds) d.device_table i dev v.devices_served e in
    record {
      recorded = v.recorded;
      configs_live = v.configs_live;
      devices_served =
          modify-All _ d.device_table i dev' v.devices_served (rw (same, same') served);
    }

closed-Inv :
    (d : Daemon) (i : ℕ)
    → Inv d
    → Inv (record d { device_table = modify d.device_table i (λ dev. record dev { fd = none }) })
closed-Inv d i v = record {
  recorded = v.recorded;
  configs_live = v.configs_live;
  devices_served = closed d.device_table i v.devices_served;
}
  where
    closed :
        (devs : List Device) (i : ℕ)
        → All (IsServed d.kbds) devs
        → All (IsServed d.kbds) (modify devs i (λ dev. record dev { fd = none }))
    closed [] i h = tt
    closed (dev ∷ devs) zero h = (h.0, h.1)
    closed (dev ∷ devs) (suc i) h = (h.0, closed devs i h.1)

module _ (c : Evdev) (w : World) (fuel : ℕ) (junk : Descriptor) where
  pub handle-Inv :
      (l : Loop) (ev : Event) (time : ℕ)
      → LoopInv l
      → Ensures LoopInv (handle c w fuel junk l ev time)
  unfolding handle
  handle-Inv l ev time v =
      Ensures-bind _ (event_handler-Inv w fuel junk l.daemon ev time v) (λ (_, d) v'. done v')

  remove-Inv :
      (l : Loop) (i time : ℕ)
      → LoopInv l
      → Ensures (λ (r : Bool × Loop). LoopInv r.1) (remove c w fuel junk l i time)
  unfolding remove
  remove-Inv l i time v =
      Ensures-bind _ (handle-Inv l (dev_remove i) time v)
        (λ l' v'. done (closed-Inv l'.daemon i v'))

  pass-Inv :
      (l : Loop) (i : ℕ) (e : DeviceEvent) (time : ℕ)
      → LoopInv l
      → Ensures LoopInv (pass c w fuel junk l i e time)
  unfolding pass ◌>>=◌
  pass-Inv l i e time v = checked (panic_check l.panic e.code e.pressed)
    where
      checked :
          (r : Result Panic)
          → Ensures LoopInv
              (r >>= (λ p. handle c w fuel junk (record l { panic = p }) (dev_event i e) time))
      checked (ok p) = handle-Inv (record l { panic = p }) (dev_event i e) time v
      checked (aborted e) = aborts
      checked out_of_fuel = starves

  pub read_device-Inv :
      (l : Loop) (i time : ℕ) (rs : List Reading)
      → LoopInv l
      → Ensures (λ (r : Bool × Loop). LoopInv r.1) (read_device c w fuel junk l i time rs)
  unfolding read_device
  read_device-Inv l i time [] v = done v
  read_device-Inv l i time (r ∷ rs) v =
      found (get_elem? l.daemon.device_table i) refl (λ l' v'. read_device-Inv l' i time rs v')
    where
      Continues : Type 0
      Continues =
          (l' : Loop)
          → LoopInv l'
          → Ensures (λ (r : Bool × Loop). LoopInv r.1) (read_device c w fuel junk l' i time rs)

      given :
          (o : Option DeviceEvent) (dev' : Device)
          → LoopInv (put c w fuel junk l i dev')
          → Continues
          → Ensures
              (λ (r : Bool × Loop). LoopInv r.1)
              (elim o [
                | none ↦ ok (false, put c w fuel junk l i dev')
                | some e ↦
                    if is_removal e.type
                    then remove c w fuel junk
                        (record (put c w fuel junk l i dev') { devev = e })
                        i
                        time
                    else pass c w fuel junk
                        (record (put c w fuel junk l i dev') { devev = e })
                        i
                        e
                        time
                      >>= (λ l'. read_device c w fuel junk l' i time rs)
              ])
      given none dev' v' ih = done v'
      given (some e) dev' v' ih =
          if_intro (Ensures (λ (r : Bool × Loop). LoopInv r.1)) (is_removal e.type)
            (remove-Inv (record (put c w fuel junk l i dev') { devev = e }) i time v')
            (Ensures-bind _
              (pass-Inv (record (put c w fuel junk l i dev') { devev = e }) i e time v') ih)

      found :
          (o : Option Device)
          → get_elem? l.daemon.device_table i ≡ o
          → Continues
          → Ensures
              (λ (r : Bool × Loop). LoopInv r.1)
              (elim o [
                | none ↦ aborted out_of_bounds
                | some dev ↦ device_read_event c dev l.devev r >>= (λ (given, dev'). elim given [
                  | none ↦ ok (false, put c w fuel junk l i dev')
                  | some e ↦
                      if is_removal e.type
                      then remove c w fuel junk
                          (record (put c w fuel junk l i dev') { devev = e })
                          i
                          time
                      else pass c w fuel junk
                          (record (put c w fuel junk l i dev') { devev = e })
                          i
                          e
                          time
                        >>= (λ l'. read_device c w fuel junk l' i time rs)
                ])
              ])
      found none e ih = aborts
      found (some dev) e ih =
          Ensures-bind _ (device_read_event-IsSame c dev l.devev r)
            (λ (o, dev') same. given o dev' (replaced-Inv l.daemon i dev dev' v e same.0 same.1) ih)
