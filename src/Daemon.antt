-- ===== src/Daemon.antt =====
-- src/daemon.c: the state of the daemon. A pointer to a keyboard is an address in `kbds`, where none is
-- memory that is free.
pub mod Vkbd
pub mod Engine
pub mod Listeners
pub mod Configs
pub mod Input
pub mod Client
pub mod Events
pub mod Invariant
use keyd_fork.Common.{ℕ, Bool, Option, List, ◌∷◌, Result}
use keyd_fork.Macro.{Env}
use keyd_fork.Common.Int.{ℤ}
use keyd_fork.Config.{Config}
use keyd_fork.Device.{Device}
use keyd_fork.Keyboard.State.{Keyboard}

-- What the daemon makes happen outside: on the virtual device, on devices, on connections.
pub data Effect : Type 0 where
  vkbd_key : ℕ → Bool → Effect
  vkbd_scroll : ℤ → ℤ → Effect
  vkbd_move : ℕ → ℕ → Effect
  vkbd_move_abs : ℕ → ℕ → Effect
  led : List ℕ → ℕ → ℕ → Effect
  grab : List ℕ → Effect
  ungrab : List ℕ → Effect
  write : ℕ → List ℕ → Effect
  close : ℕ → Effect
  respond : ℕ → Bool → Effect
  usleep : ℕ → Effect
  execute : ℕ → Effect

-- The system's answers, each by what happened before: whether a device can be grabbed or let go, and
-- whether a connection takes all of what is written; the entries of the directory of configurations,
-- with whether they are directories; and what parsing a file gives.
pub record World : Type 0 where
  pub grabs : List Effect → List ℕ → Bool
  pub ungrabs : List Effect → List ℕ → Bool
  pub takes : List Effect → ℕ → Bool
  pub config_dir : List ℕ
  pub entries : List Effect → Option (List (List ℕ × Bool))
  pub parse : List Effect → List ℕ → Result (Option Config)
  pub env : Env

-- `struct config_ent`; `next` is the list.
pub record ConfigEnt : Type 0 where
  pub config : Config
  pub kbd : ℕ

-- The static variables, with `next_kbd` the next address that an allocation gives, `clock` the counter
-- of the engine's get_time, and `scroll` the fields x and y of a keyboard's scroll. `trace` is what
-- happened, newest first.
pub record Daemon : Type 0 where
  pub configs : List ConfigEnt
  pub kbds : ℕ → Option Keyboard
  pub next_kbd : ℕ
  pub clock : ℕ
  pub scroll : ℕ → ℤ × ℤ
  pub keystate : ℕ → Bool
  pub listeners : List ℕ
  pub active_kbd : Option ℕ
  pub device_table : List Device
  pub last_time : ℕ
  pub timeout : ℕ
  pub trace : List Effect

abbrev pub emit : Daemon → Effect → Daemon
emit d e = record d { trace = e ∷ d.trace }
