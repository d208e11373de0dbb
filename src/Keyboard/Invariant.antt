-- ===== src/Keyboard/Invariant.antt =====
-- src/keyboard.c: what every operation of the engine keeps.
pub mod Send
pub mod Layers
pub mod Actions
pub mod Swap
pub mod Descriptors
pub mod Events
use keyd_fork.Common.{ℕ, ◌*◌, ◌≡◌, Bool, true, false, List}
use keyd_fork.Config.{Config}
use keyd_fork.Macro.Released.{IsReleased}
use keyd_fork.Keyboard.Cache.Laws.{IsDistinct}
use keyd_fork.Keyboard.State.{Keyboard, CacheEntry}
use keyd_fork.Output.{Output, is_down}

-- A key that the virtual device holds is down in `keystate`, so it will be let go; the cache holds
-- no code twice; the configuration is `cfg`.
pub record Coherent (cfg : Config) (out : List Output) (keystate : ℕ → Bool) (config : Config)
    (cache : List CacheEntry) : Type 0 where
  pub recorded : (c : ℕ) → is_down out c ≡ true → keystate c ≡ true
  pub distinct : IsDistinct cache
  pub config_is : config ≡ cfg

-- A change of other fields keeps it: `record { coherent = v.coherent }`.
pub record Inv (cfg : Config) (kbd : Keyboard) : Type 0 where
  pub coherent : Coherent cfg kbd.out kbd.keystate kbd.config kbd.cache
  pub open coherent use *

-- Every macro of the configuration releases what it holds.
abbrev pub HasReleasedMacros : Config → Type 0
HasReleasedMacros cfg = (i : ℕ) → IsReleased false (cfg.macros i)
