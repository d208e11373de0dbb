-- ===== src/Daemon/Invariant.antt =====
-- src/daemon.c: what every operation of the daemon keeps.
pub mod Steps
pub mod Devices
pub mod Reload
pub mod Typing
pub mod Clients
pub mod Events
use keyd_fork.Common.{
  ℕ, ◌≡◌, refl, ◌∙◌, Bool, true, false, Option, none, some, List, [], ◌∷◌, ◌==◌, if◌then◌else◌, All,
}
use keyd_fork.Device.{Device}
use keyd_fork.Keyboard.State.{Keyboard}
use keyd_fork.Daemon.{
  Daemon, ConfigEnt, Effect, vkbd_key, vkbd_scroll, vkbd_move, vkbd_move_abs, led, grab, ungrab,
  write, close, respond, usleep, execute,
}

-- Whether the virtual device holds the key: its last event decides.
abbrev pub is_held : List Effect → ℕ → Bool
is_held [] c = false
is_held (vkbd_key code state ∷ t) c = if code == c then state else is_held t c
is_held (vkbd_scroll _ _ ∷ t) c = is_held t c
is_held (vkbd_move _ _ ∷ t) c = is_held t c
is_held (vkbd_move_abs _ _ ∷ t) c = is_held t c
is_held (led _ _ _ ∷ t) c = is_held t c
is_held (grab _ ∷ t) c = is_held t c
is_held (ungrab _ ∷ t) c = is_held t c
is_held (write _ _ ∷ t) c = is_held t c
is_held (close _ ∷ t) c = is_held t c
is_held (respond _ _ ∷ t) c = is_held t c
is_held (usleep _ ∷ t) c = is_held t c
is_held (execute _ ∷ t) c = is_held t c

-- What the virtual device holds, `keystate` knows.
abbrev pub Recorded : Daemon → Type 0
Recorded d = (c : ℕ) → is_held d.trace c ≡ true → d.keystate c ≡ true

-- The address is of a keyboard that is not freed.
abbrev pub Live : (ℕ → Option Keyboard) → ℕ → Type 0
Live kbds a = (k : Keyboard) × (kbds a ≡ some k)

abbrev pub ConfigsLive : (ℕ → Option Keyboard) → List ConfigEnt → Type 0
ConfigsLive kbds [] = Unit {0}
ConfigsLive kbds (e ∷ es) = Live kbds e.kbd × ConfigsLive kbds es

-- A virtual device has no keyboard.
abbrev pub IsFreeVirtual : Device → Type 0
IsFreeVirtual dev = dev.is_virtual ≡ true → dev.data' ≡ none

abbrev pub IsServed : (ℕ → Option Keyboard) → Device → Type 0
IsServed kbds dev = IsFreeVirtual dev × ((a : ℕ) → dev.data' ≡ some a → Live kbds a)

pub record Inv (d : Daemon) : Type 0 where
  pub recorded : Recorded d
  pub configs_live : ConfigsLive d.kbds d.configs
  pub devices_served : All (IsServed d.kbds) d.device_table

-- A step that leaves the keyboards, the configurations and the devices as they are, and the same
-- keyboard active.
pub record Quiet (d d' : Daemon) : Type 0 where
  pub kbds_same : d'.kbds ≡ d.kbds
  pub configs_same : d'.configs ≡ d.configs
  pub devices_same : d'.device_table ≡ d.device_table
  pub next_same : d'.next_kbd ≡ d.next_kbd
  pub active_same : d'.active_kbd ≡ d.active_kbd
  pub records : Recorded d → Recorded d'

pub Quiet-refl : (d : Daemon) → Quiet d d
Quiet-refl d = record {
  kbds_same = refl;
  configs_same = refl;
  devices_same = refl;
  next_same = refl;
  active_same = refl;
  records = λ h. h;
}

pub Quiet-trans : {d e f : Daemon} → Quiet d e → Quiet e f → Quiet d f
Quiet-trans p q = record {
  kbds_same = q.kbds_same ∙ p.kbds_same;
  configs_same = q.configs_same ∙ p.configs_same;
  devices_same = q.devices_same ∙ p.devices_same;
  next_same = q.next_same ∙ p.next_same;
  active_same = q.active_same ∙ p.active_same;
  records = λ h. q.records (p.records h);
}

pub Quiet-Inv : {d d' : Daemon} → Quiet d d' → Inv d → Inv d'
Quiet-Inv {d} {d'} q v = record {
  recorded = q.records v.recorded;
  configs_live = rw (q.kbds_same, q.configs_same) v.configs_live;
  devices_served = rw (q.kbds_same, q.devices_same) v.devices_served;
}
