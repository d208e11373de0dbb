-- ===== src/Daemon/Configs.antt =====
-- src/daemon.c: free_configs, load_configs, lookup_config_ent, manage_device and reload.
pub mod Best
pub mod Loaded
pub mod Released
pub mod Dangling
use keyd_fork.Common.{
  ℕ, suc, ◌+◌, ◌-◌, bit_and, Bool, true, false, ◌&&◌, Option, none, some, List, [], ◌∷◌, ◌++◌, ltb,
  leb, ◌==◌, if◌then◌else◌, length, take, drop, update, Result, ◌>>=◌, ok, aborted, exited,
}
use keyd_fork.Keyboard.State.{Keyboard}
use keyd_fork.Daemon.Vkbd.{clear_vkbd}
use keyd_fork.Keyboard.Create.{new_keyboard}
use keyd_fork.Parser.Index.{id_mouse, id_keyboard, config_check_match}
use keyd_fork.Text.CString.{codes, str_eq}
use keyd_fork.Config.{Config}
use keyd_fork.Device.{Device, cap_mouse, cap_mouse_abs, cap_keyboard}
use keyd_fork.Daemon.{Daemon, ConfigEnt, World, emit, grab, ungrab}

unfoldable pub free_kbds : (ℕ → Option Keyboard) → List ConfigEnt → ℕ → Option Keyboard
free_kbds kbds [] = kbds
free_kbds kbds (e ∷ es) = free_kbds (update kbds e.kbd none) es

unfoldable pub free_configs : Daemon → Daemon
unfolding free_kbds
free_configs d = record d { kbds = free_kbds d.kbds d.configs; configs = [] }

-- The path of an entry, in 1024 bytes, if it is one of a configuration.
unfoldable pub config_path : List ℕ → List ℕ → Option (List ℕ)
config_path dir name =
    let path = dir ++ (47 ∷ name) in
    if leb 5 (length path) && str_eq (drop (length path - 5) path) (codes ".conf")
    then some (take 1023 path)
    else none

-- A new keyboard for a configuration.
unfoldable pub add_config : Daemon → Config → Daemon
add_config d config =
    let kbd = new_keyboard config d.clock in
    record d {
      kbds = update d.kbds d.next_kbd (some kbd);
      next_kbd = suc d.next_kbd;
      clock = kbd.clock;
      configs = record { config = config; kbd = d.next_kbd } ∷ d.configs;
    }

unfoldable pub load_entry : World → Daemon → List ℕ × Bool → Result Daemon
unfolding config_path add_config
load_entry w d (name, is_dir) = if is_dir then ok d else (elim (config_path w.config_dir name) [
  | none ↦ ok d
  | some path ↦
      w.parse d.trace path
      >>= (λ r. elim r [ none ↦ ok d | some config ↦ ok (add_config d config) ])
])

unfoldable pub load_entries : World → Daemon → List (List ℕ × Bool) → Result Daemon
unfolding load_entry
load_entries w d [] = ok d
load_entries w d (e ∷ es) = load_entry w d e >>= (λ d'. load_entries w d' es)

unfoldable pub load_configs : World → Daemon → Result Daemon
unfolding load_entries
load_configs w d = elim (w.entries d.trace) [
  | none ↦ aborted exited
  | some es ↦ load_entries w (record d { configs = [] }) es
]

-- The loop over the configurations: the rank and the match so far.
unfoldable pub find_config :
    List ℕ → ℕ → ℕ → Option ConfigEnt → List ConfigEnt → ℕ × Option ConfigEnt
find_config id flags rank match [] = (rank, match)
find_config id flags rank match (e ∷ es) =
    let r = config_check_match e.config id flags in
    find_config id flags (if ltb rank r then r else rank) (if ltb rank r then some e else match) es

unfoldable pub lookup_config_ent : List ConfigEnt → List ℕ → ℕ → Option ConfigEnt
unfolding find_config
lookup_config_ent configs id flags =
    let (rank, match) = find_config id flags 0 none configs in
    if rank == 1 && flags == id_mouse then none else match

-- The flags do not overlap.
unfoldable pub device_flags : ℕ → ℕ
device_flags capabilities =
    (if bit_and capabilities cap_keyboard == 0 then 0 else id_keyboard)
    + (if bit_and capabilities (cap_mouse + cap_mouse_abs) == 0 then 0 else id_mouse)

-- `none` is a failure of the call.
unfoldable pub device_grab : World → Daemon → Device → Option Device × Daemon
device_grab w d dev =
    if dev.grabbed
    then (some dev, d)
    else if w.grabs d.trace dev.path
    then (some (record dev { grabbed = true }), emit d (grab dev.path))
    else (none, d)

unfoldable pub device_ungrab : World → Daemon → Device → Device × Daemon
device_ungrab w d dev =
    if dev.grabbed && w.ungrabs d.trace dev.path
    then (record dev { grabbed = false }, emit d (ungrab dev.path))
    else (dev, d)

-- The device, and what was done to it.
unfoldable pub manage_device : World → Daemon → Device → Device × Daemon
unfolding lookup_config_ent device_flags device_grab device_ungrab
manage_device w d dev =
    if dev.is_virtual
    then (dev, d)
    else (elim (lookup_config_ent d.configs dev.id (device_flags dev.capabilities)) [
      | none ↦ device_ungrab w d (record dev { data' = none })
      | some e ↦
          let (grabbed, d') = device_grab w d dev in
          elim grabbed [
            | none ↦ (record dev { data' = none }, d')
            | some dev' ↦ (record dev' { data' = some e.kbd }, d')
          ]
    ])

-- The loop over the table.
unfoldable pub manage_devices : World → Daemon → List Device → List Device × Daemon
unfolding manage_device
manage_devices w d [] = ([], d)
manage_devices w d (dev ∷ devs) =
    let (dev', d') = manage_device w d dev in
    let (devs', d'') = manage_devices w d' devs in (dev' ∷ devs', d'')

-- `active_kbd` stays as it is.
unfoldable pub reload : World → Daemon → Result Daemon
unfolding free_configs load_configs manage_devices
reload w d = do
  d' ← load_configs w (free_configs d)
  let (devs, d'') = manage_devices w d' d'.device_table
  ok (clear_vkbd (record d'' { device_table = devs }))
