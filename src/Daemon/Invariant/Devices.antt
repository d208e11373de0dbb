-- ===== src/Daemon/Invariant/Devices.antt =====
-- src/daemon.c: manage_device keeps the invariant.
use keyd_fork.Common.{
  ℕ, ◌≡◌, refl, subst, ◌∙◌, false, ◌&&◌, Option, none, some, List, [], ◌∷◌, arith, ltb, ◌==◌,
  if◌then◌else◌, ==_refl, if_intro, if_split, update, All,
}
use keyd_fork.Daemon.Invariant.Steps.{emit-Quiet}
use keyd_fork.Parser.Index.{config_check_match, id_mouse}
use keyd_fork.Device.{Device}
use keyd_fork.Keyboard.State.{Keyboard}
use keyd_fork.Daemon.{Daemon, ConfigEnt, World, grab, ungrab}
use keyd_fork.Daemon.Configs.{
  find_config, lookup_config_ent, device_grab, device_ungrab, manage_device, device_flags,
  manage_devices,
}
use keyd_fork.Daemon.Invariant.{
  Quiet, Live, ConfigsLive, IsFreeVirtual, IsServed, Quiet-refl, Quiet-trans,
}

-- A keyboard that is stored stays one for every other address.
pub update-Live :
    (kbds : ℕ → Option Keyboard) (p : ℕ) (k : Keyboard) (a : ℕ)
    → Live kbds a
    → Live (update kbds p (some k)) a
update-Live kbds p k a h = if_intro (λ o. (x : Keyboard) × (o ≡ some x)) (p == a) (k, refl) h

pub update-ConfigsLive :
    (kbds : ℕ → Option Keyboard) (p : ℕ) (k : Keyboard) (es : List ConfigEnt)
    → ConfigsLive kbds es
    → ConfigsLive (update kbds p (some k)) es
update-ConfigsLive kbds p k [] h = tt
update-ConfigsLive kbds p k (e ∷ es) h =
    (update-Live kbds p k e.kbd h.0, update-ConfigsLive kbds p k es h.1)

pub update-IsServed :
    (kbds : ℕ → Option Keyboard) (p : ℕ) (k : Keyboard) (devs : List Device)
    → All (IsServed kbds) devs
    → All (IsServed (update kbds p (some k))) devs
update-IsServed kbds p k [] h = tt
update-IsServed kbds p k (dev ∷ devs) h =
    ((h.0.0, λ a e. update-Live kbds p k a (h.0.1 a e)), update-IsServed kbds p k devs h.1)

pub stored-Live :
    (kbds : ℕ → Option Keyboard) (p : ℕ) (k : Keyboard) → Live (update kbds p (some k)) p
stored-Live kbds p k = (k, ground (arith, ==_refl p))

pub some_injective {ℓ} : {A : Type ℓ} (x y : A) → some x ≡ some y → x ≡ y
some_injective x y h = cc

find_config-Live :
    (kbds : ℕ → Option Keyboard) (id : List ℕ) (flags rank : ℕ) (match : Option ConfigEnt)
    (es : List ConfigEnt) (e : ConfigEnt)
    → ConfigsLive kbds es
    → ((m : ConfigEnt) → match ≡ some m → Live kbds m.kbd)
    → (find_config id flags rank match es).1 ≡ some e
    → Live kbds e.kbd
unfolding find_config
find_config-Live kbds id flags rank match [] e h m found = m e found
find_config-Live kbds id flags rank match (x ∷ es) e h m found =
    find_config-Live kbds id flags
      (if ltb rank (config_check_match x.config id flags)
        then config_check_match x.config id flags
        else rank)
      (if ltb rank (config_check_match x.config id flags) then some x else match) es e h.1
      (if_intro (λ (o : Option ConfigEnt). (y : ConfigEnt) → o ≡ some y → Live kbds y.kbd)
        (ltb rank (config_check_match x.config id flags))
        (λ y same. subst (λ (z : ConfigEnt). Live kbds z.kbd) (some_injective x y same) h.0) m)
      found

lookup_config_ent-Live :
    (kbds : ℕ → Option Keyboard) (id : List ℕ) (flags : ℕ) (es : List ConfigEnt) (e : ConfigEnt)
    → ConfigsLive kbds es
    → lookup_config_ent es id flags ≡ some e
    → Live kbds e.kbd
unfolding lookup_config_ent
lookup_config_ent-Live kbds id flags es e h =
    if_intro (λ (o : Option ConfigEnt). o ≡ some e → Live kbds e.kbd)
      ((find_config id flags 0 none es).0 == 1 && flags == id_mouse) (λ found. cc)
      (find_config-Live kbds id flags 0 none es e h (λ m found. cc))

-- The device that manage_device leaves, with what was done.
abbrev Managed : Daemon → Device × Daemon → Type 0
Managed d r = IsServed d.kbds r.0 × Quiet d r.1

freed : (kbds : ℕ → Option Keyboard) (dev : Device) → dev.data' ≡ none → IsServed kbds dev
freed kbds dev h = ((λ v. h), λ a e. cc)

device_grab-Quiet : (w : World) (d : Daemon) (dev : Device) → Quiet d (device_grab w d dev).1
unfolding device_grab
device_grab-Quiet w d dev =
    if_intro (λ (r : Option Device × Daemon). Quiet d r.1) dev.grabbed (Quiet-refl d)
      (if_intro (λ (r : Option Device × Daemon). Quiet d r.1) (w.grabs d.trace dev.path)
        (emit-Quiet d (grab dev.path) (λ t c. refl)) (Quiet-refl d))

device_grab-virtual :
    (w : World) (d : Daemon) (dev dev' : Device)
    → (device_grab w d dev).0 ≡ some dev'
    → dev'.is_virtual ≡ dev.is_virtual
unfolding device_grab
device_grab-virtual w d dev dev' h = ground arith

device_ungrab-Quiet : (w : World) (d : Daemon) (dev : Device) → Quiet d (device_ungrab w d dev).1
unfolding device_ungrab
device_ungrab-Quiet w d dev =
    if_intro (λ (r : Device × Daemon). Quiet d r.1) (dev.grabbed && w.ungrabs d.trace dev.path)
      (emit-Quiet d (ungrab dev.path) (λ t c. refl)) (Quiet-refl d)

device_ungrab-data :
    (w : World) (d : Daemon) (dev : Device) → (device_ungrab w d dev).0.data' ≡ dev.data'
unfolding device_ungrab
device_ungrab-data w d dev = ground arith

pub manage_device-Managed :
    (w : World) (d : Daemon) (dev : Device)
    → IsFreeVirtual dev
    → ConfigsLive d.kbds d.configs
    → Managed d (manage_device w d dev)
unfolding manage_device
manage_device-Managed w d dev v h =
    if_split (Managed d) dev.is_virtual (λ e. (((v, λ a same. let gone = v e in cc), Quiet-refl d)))
      (λ e. found e (lookup_config_ent d.configs dev.id (device_flags dev.capabilities)) (λ x same.
        lookup_config_ent-Live d.kbds dev.id (device_flags dev.capabilities) d.configs x h same))
  where
    taken :
        (x : ConfigEnt)
        → Live d.kbds x.kbd
        → (o : Option Device) → ((y : Device) → o ≡ some y → y.is_virtual ≡ false)
        → Managed d (elim o [
          | none ↦ (record dev { data' = none }, (device_grab w d dev).1)
          | some dev' ↦ (record dev' { data' = some x.kbd }, (device_grab w d dev).1)
        ])
    taken x live none f =
        (freed d.kbds (record dev { data' = none }) refl, device_grab-Quiet w d dev)
    taken x live (some y) f = (
      (
        (λ t. let plain = f y refl in cc),
        λ a same. subst (Live d.kbds) (some_injective x.kbd a same) live,
      ),
      device_grab-Quiet w d dev,
    )

    found :
        dev.is_virtual ≡ false
        → (o : Option ConfigEnt) → ((x : ConfigEnt) → o ≡ some x → Live d.kbds x.kbd)
        → Managed d (elim o [
          | none ↦ device_ungrab w d (record dev { data' = none })
          | some x ↦ elim (device_grab w d dev).0 [
            | none ↦ (record dev { data' = none }, (device_grab w d dev).1)
            | some dev' ↦ (record dev' { data' = some x.kbd }, (device_grab w d dev).1)
          ]
        ])
    found e none f = (
      freed d.kbds (device_ungrab w d (record dev { data' = none })).0
          (device_ungrab-data w d (record dev { data' = none })),
      device_ungrab-Quiet w d (record dev { data' = none }),
    )
    found e (some x) f =
        taken x (f x refl) (device_grab w d dev).0
          (λ y same. device_grab-virtual w d dev y same ∙ e)

pub manage_devices-Managed :
    (w : World) (d : Daemon) (devs : List Device)
    → All IsFreeVirtual devs
    → ConfigsLive d.kbds d.configs
    → All (IsServed d.kbds) (manage_devices w d devs).0 × Quiet d (manage_devices w d devs).1
unfolding manage_devices
manage_devices-Managed w d [] v h = (tt, Quiet-refl d)
manage_devices-Managed w d (dev ∷ devs) v h =
    let (served, q) = manage_device-Managed w d dev v.0 h in
    let d' = (manage_device w d dev).1 in
    let (rest, q') =
      manage_devices-Managed w (manage_device w d dev).1 devs v.1
        (rw (q.kbds_same, q.configs_same) h) in
    (
      (
        served,
        subst (λ (k : ℕ → Option Keyboard). All (IsServed k) (manage_devices w d' devs).0)
            q.kbds_same rest,
      ),
      Quiet-trans q q',
    )

-- A result whose daemon came about quietly.
abbrev IsQuiet : Daemon → Device × Daemon → Type 0
IsQuiet d r = Quiet d r.1

manage_device-Quiet : (w : World) (d : Daemon) (dev : Device) → Quiet d (manage_device w d dev).1
unfolding manage_device
manage_device-Quiet w d dev =
    if_intro (IsQuiet d) dev.is_virtual (Quiet-refl d)
      (found (lookup_config_ent d.configs dev.id (device_flags dev.capabilities)))
  where
    taken :
        (x : ConfigEnt) (o : Option Device)
        → IsQuiet d (elim o [
          | none ↦ (record dev { data' = none }, (device_grab w d dev).1)
          | some dev' ↦ (record dev' { data' = some x.kbd }, (device_grab w d dev).1)
        ])
    taken x none = device_grab-Quiet w d dev
    taken x (some y) = device_grab-Quiet w d dev

    found :
        (o : Option ConfigEnt)
        → IsQuiet d (elim o [
          | none ↦ device_ungrab w d (record dev { data' = none })
          | some x ↦ elim (device_grab w d dev).0 [
            | none ↦ (record dev { data' = none }, (device_grab w d dev).1)
            | some dev' ↦ (record dev' { data' = some x.kbd }, (device_grab w d dev).1)
          ]
        ])
    found none = device_ungrab-Quiet w d (record dev { data' = none })
    found (some x) = taken x (device_grab w d dev).0

pub manage_devices-Quiet :
    (w : World) (d : Daemon) (devs : List Device) → Quiet d (manage_devices w d devs).1
unfolding manage_devices
manage_devices-Quiet w d [] = Quiet-refl d
manage_devices-Quiet w d (dev ∷ devs) =
    Quiet-trans (manage_device-Quiet w d dev)
      (manage_devices-Quiet w (manage_device w d dev).1 devs)
