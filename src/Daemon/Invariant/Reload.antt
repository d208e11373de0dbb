-- ===== src/Daemon/Invariant/Reload.antt =====
-- src/daemon.c: load_configs and reload keep the invariant.
use keyd_fork.Common.{
  ℕ, ◌≡◌, refl, sym, subst, Option, List, [], ◌∷◌, All, Ensures, Ensures-bind, done,
}
use keyd_fork.Daemon.Invariant.Devices.{update-ConfigsLive, stored-Live, manage_devices-Managed}
use keyd_fork.Daemon.Configs.Loaded.{load_configs-Ensures}
use keyd_fork.Config.{Config}
use keyd_fork.Keyboard.Create.{new_keyboard}
use keyd_fork.Daemon.Invariant.Steps.{clear_vkbd-Quiet}
use keyd_fork.Device.{Device}
use keyd_fork.Keyboard.State.{Keyboard}
use keyd_fork.Daemon.{Daemon, World}
use keyd_fork.Daemon.Configs.{free_configs, add_config, load_configs, manage_devices, reload}
use keyd_fork.Daemon.Invariant.{ConfigsLive, IsFreeVirtual, IsServed, Recorded, Inv, Quiet-Inv}

-- While the configurations are loaded: the devices are as before, and no virtual one has a keyboard.
pub record Loading (devs : List Device) (d : Daemon) : Type 0 where
  pub recorded : Recorded d
  pub configs_live : ConfigsLive d.kbds d.configs
  pub devices_same : d.device_table ≡ devs

add_config-Loading :
    (devs : List Device) (d : Daemon) (config : Config)
    → Loading devs d
    → Loading devs (add_config d config)
unfolding add_config
add_config-Loading devs d config v = record {
  recorded = v.recorded;
  configs_live = (
    stored-Live d.kbds d.next_kbd (new_keyboard config d.clock),
    update-ConfigsLive d.kbds d.next_kbd (new_keyboard config d.clock) d.configs v.configs_live,
  );
  devices_same = v.devices_same;
}

pub load_configs-Loading :
    (w : World) (d : Daemon) → Recorded d → Ensures (Loading d.device_table) (load_configs w d)
load_configs-Loading w d v =
    load_configs-Ensures (Loading d.device_table) w d
      (λ d' config l. add_config-Loading d.device_table d' config l)
      (record { recorded = v; configs_live = tt; devices_same = refl })

-- A virtual device is as free before.
All-IsFreeVirtual :
    (kbds : ℕ → Option Keyboard) (devs : List Device)
    → All (IsServed kbds) devs
    → All IsFreeVirtual devs
All-IsFreeVirtual kbds [] h = tt
All-IsFreeVirtual kbds (dev ∷ devs) h = (h.0.0, All-IsFreeVirtual kbds devs h.1)

-- The state that clear_vkbd gets.
pub managed-Inv :
    (w : World) (d d' : Daemon)
    → Inv d
    → Loading d.device_table d'
    → Inv (record (manage_devices w d' d'.device_table).1 {
      device_table = (manage_devices w d' d'.device_table).0;
    })
managed-Inv w d d' v l =
    let free =
      subst (All IsFreeVirtual) (sym l.devices_same)
        (All-IsFreeVirtual d.kbds d.device_table v.devices_served) in
    let (served, q) = manage_devices-Managed w d' d'.device_table free l.configs_live in
    record {
      recorded = q.records l.recorded;
      configs_live = rw (q.kbds_same, q.configs_same) l.configs_live;
      devices_served = rw q.kbds_same served;
    }

pub reload-Inv : (w : World) (d : Daemon) → Inv d → Ensures Inv (reload w d)
unfolding reload
reload-Inv w d v =
    Ensures-bind _ (load_configs-Loading w (free_configs d) v.recorded)
      (λ d' l. done (Quiet-Inv (clear_vkbd-Quiet _) (managed-Inv w d d' v l)))
