-- ===== src/Evloop/Fresh.antt =====
-- src/device.c: no keyboard serves a device that device_init makes.
use keyd_fork.Common.{
  ℕ, refl, Bool, not, ◌||◌, Option, none, some, List, [], ◌∷◌, ◌==◌, if_intro, All, Result, ◌>>=◌,
  Ensures, Ensures-bind, ok, aborted, out_of_fuel, done, aborts, starves,
}
use keyd_fork.Daemon.{World}
use keyd_fork.Device.Read.{Evdev}
use keyd_fork.Evloop.{evloop, Round, Loop}
use keyd_fork.Config.{Descriptor}
use keyd_fork.Device.{Device}
use keyd_fork.Device.Id.{Probe, resolve_device_capabilities}
use keyd_fork.Device.Init.{
  Opened, identify, read_ranges, device_init, scan_paths, scan_workers, device_scan,
}
use keyd_fork.Daemon.Invariant.{Inv}
use keyd_fork.Evloop.Rounds.{IsFresh, evloop-Inv}

-- What may be there is fresh.
abbrev IsNew : Option Device → Type 0
IsNew none = Unit {0}
IsNew (some dev) = IsFresh dev

identify-IsNew :
    (o : Opened) (p : Probe) (name path : List ℕ) (dev : Device)
    → IsNew (identify o p name path dev)
unfolding identify
identify-IsNew o p name path dev =
    if_intro IsNew (resolve_device_capabilities (some p) == 0 || not o.info) tt refl

device_init-IsNew :
    (o : Option Opened) (path : List ℕ) (before : Device) → IsNew (device_init o path before)
unfolding device_init
device_init-IsNew none path before = tt
device_init-IsNew (some o) path before = named o.name
  where
    probed :
        (p : Option Probe) (name : List ℕ) (dev : Device)
        → IsNew (elim p [ none ↦ none | some p ↦ identify o p name path dev ])
    probed none name dev = tt
    probed (some p) name dev = identify-IsNew o p name path dev

    ranged :
        (name : List ℕ) (d : Option Device)
        → IsNew (elim d [
          | none ↦ none
          | some dev ↦ elim o.probe [ none ↦ none | some p ↦ identify o p name path dev ]
        ])
    ranged name none = tt
    ranged name (some dev) = probed o.probe name dev

    named :
        (n : Option (List ℕ))
        → IsNew (elim n [
          | none ↦ none
          | some name ↦
              elim (read_ranges
                (resolve_device_capabilities o.probe)
                o
                (record before { name = name })) [
                  | none ↦ none
                  | some dev ↦ elim o.probe [ none ↦ none | some p ↦ identify o p name path dev ]
                ]
        ])
    named none = tt
    named (some name) =
        ranged name
          (read_ranges (resolve_device_capabilities o.probe) o (record before { name = name }))

scan_workers-All :
    (opens : List ℕ → Option Opened) (before : Device) (ps : List (List ℕ))
    → All IsFresh (scan_workers opens before ps)
unfolding scan_workers
scan_workers-All opens before [] = tt
scan_workers-All opens before (path ∷ ps) =
    kept (device_init (opens path) path before) (device_init-IsNew (opens path) path before)
      (scan_workers-All opens before ps)
  where
    kept :
        (o : Option Device)
        → IsNew o
        → All IsFresh (scan_workers opens before ps)
        → All IsFresh (elim o [
          | none ↦ scan_workers opens before ps
          | some dev ↦ dev ∷ scan_workers opens before ps
        ])
    kept none h k = k
    kept (some dev) h k = (h, k)

pub device_scan-All :
    (opens : List ℕ → Option Opened) (before : Device) (es : Option (List (List ℕ × Bool)))
    → Ensures (All IsFresh) (device_scan opens before es)
unfolding device_scan ◌>>=◌
device_scan-All opens before none = aborts
device_scan-All opens before (some es) = scanned (scan_paths 0 es)
  where
    scanned :
        (r : Result (List (List ℕ)))
        → Ensures (All IsFresh) (r >>= (λ ps. ok (scan_workers opens before ps)))
    scanned (ok ps) = done (scan_workers-All opens before ps)
    scanned (aborted e) = aborts
    scanned out_of_fuel = starves

-- From the devices that device_scan finds, the loop keeps the invariant over any number of rounds that
-- add devices as device_init makes them: every key that the virtual device holds is known to keystate,
-- so that a reload lets go of it; the keyboard of every configuration, and of every device, is not
-- freed; and no virtual device has a keyboard.
pub evloop-scanned :
    (opens : List ℕ → Option Opened) (before : Device) (es : Option (List (List ℕ × Bool)))
    (c : Evdev) (w : World) (fuel : ℕ) (junk : Descriptor) (l : Loop) (time : ℕ) (rs : List Round)
    → Inv l.daemon
    → All (λ r. All IsFresh r.added) rs
    → Ensures
        (λ l'. Inv l'.daemon)
        (device_scan opens before es >>= (λ devices. evloop c w fuel junk l devices time rs))
evloop-scanned opens before es c w fuel junk l time rs v h =
    Ensures-bind _ (device_scan-All opens before es)
      (λ devices fresh. evloop-Inv c w fuel junk l devices time rs v fresh h)
