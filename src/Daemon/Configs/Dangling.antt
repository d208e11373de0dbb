-- ===== src/Daemon/Configs/Dangling.antt =====
-- src/daemon.c: what reload does with the keyboard that was active.
use keyd_fork.Common.{
  ℕ, ◌<◌, ◌≡◌, refl, ◌≢◌, ◌⊎◌, inl, inr, Option, none, some, List, [], ◌∷◌, arith, length, update,
  ◌>>=◌, Ensures, Ensures-bind, Ensures-ok, ok, aborted, use_after_free, done,
}
use keyd_fork.Daemon.Invariant.Devices.{manage_devices-Quiet}
use keyd_fork.Daemon.Listeners.{greet, add_listener}
use keyd_fork.Daemon.Engine.{run_keyboard}
use keyd_fork.Keyboard.State.{Keyboard}
use keyd_fork.Daemon.Invariant.Steps.{clear_vkbd-Quiet}
use keyd_fork.Daemon.Events.{timed_out, dispatch, event_handler}
use keyd_fork.Daemon.Configs.Loaded.{load_configs-Ensures}
use keyd_fork.Config.{Config, Descriptor}
use keyd_fork.Daemon.{Daemon, World, ConfigEnt}
use keyd_fork.Daemon.Configs.{add_config, free_kbds, free_configs, manage_devices, reload}

-- The address is of memory that is free, and that no allocation gives again.
record Freed (a : ℕ) (d : Daemon) : Type 0 where
  gone : d.kbds a ≡ none
  old : a < d.next_kbd
  active : d.active_kbd ≡ some a

add_config-Freed :
    (a : ℕ) (d : Daemon) (config : Config) → Freed a d → Freed a (add_config d config)
unfolding add_config
add_config-Freed a d config h =
    let gone = h.gone in
    let old = h.old in record { gone = ground arith; old = omega arith; active = h.active }

free_kbds-gone :
    (kbds : ℕ → Option Keyboard) (es : List ConfigEnt) (a : ℕ)
    → kbds a ≡ none
    → free_kbds kbds es a ≡ none
unfolding free_kbds
free_kbds-gone kbds [] a h = h
free_kbds-gone kbds (e ∷ es) a h = free_kbds-gone (update kbds e.kbd none) es a (ground arith)

-- The address is of one of the configurations' keyboards.
abbrev pub IsUsed : ℕ → List ConfigEnt → Type 0
IsUsed a [] = ⊥
IsUsed a (e ∷ es) = (e.kbd ≡ a) ⊎ IsUsed a es

free_kbds-none :
    (kbds : ℕ → Option Keyboard) (es : List ConfigEnt) (a : ℕ)
    → IsUsed a es
    → free_kbds kbds es a ≡ none
unfolding free_kbds
free_kbds-none kbds [] a h = elim h [ ]
free_kbds-none kbds (e ∷ es) a (inl same) =
    free_kbds-gone (update kbds e.kbd none) es a (ground arith)
free_kbds-none kbds (e ∷ es) a (inr h) = free_kbds-none (update kbds e.kbd none) es a h

reload-Freed :
    (w : World) (d : Daemon) (a : ℕ)
    → d.active_kbd ≡ some a
    → IsUsed a d.configs
    → a < d.next_kbd
    → Ensures (Freed a) (reload w d)
unfolding reload
reload-Freed w d a active used old =
    Ensures-bind _
      (load_configs-Ensures (Freed a) w (free_configs d) (add_config-Freed a)
        (record { gone = free_kbds-none d.kbds d.configs a used; old = old; active = active }))
      (λ d' h.
        let q = manage_devices-Quiet w d' d'.device_table in
        let q' = clear_vkbd-Quiet (record (manage_devices w d' d'.device_table).1 {
          device_table = (manage_devices w d' d'.device_table).0;
        }) in
        done (record {
          gone = rw (q'.kbds_same, q.kbds_same) h.gone;
          old = rw (q'.next_same, q.next_same) h.old;
          active = rw (q'.active_same, q.active_same) h.active;
        }))

-- Once reload returns, the keyboard that was active is freed and still the active one: the next time
-- that is up calls the engine with it, which reads freed memory, and so does the next connection
-- that listens to layers, while there are fewer than 32.
pub reload-dangling :
    (w : World) (fuel : ℕ) (junk : Descriptor) (d d' : Daemon) (a time con : ℕ)
    → d.active_kbd ≡ some a
    → IsUsed a d.configs
    → a < d.next_kbd
    → reload w d ≡ ok d'
    → (event_handler w fuel junk d' timed_out time ≡ aborted use_after_free)
      × (length d'.listeners ≢ 32 → add_listener d' con ≡ aborted use_after_free)
unfolding event_handler dispatch run_keyboard add_listener greet ◌>>=◌
reload-dangling w fuel junk d d' a time con active used old run =
    let h = Ensures-ok (reload-Freed w d a active used old) run in
    let gone = h.gone in
    let still = h.active in
    (rw (dispatch, still, run_keyboard, gone) refl, λ room. rw (greet, still, gone) (ground arith))
