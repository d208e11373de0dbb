-- ===== src/Keyboard/Safety.antt =====
-- src/keyboard.c: no key stays down on the virtual device without the engine knowing of it.
use keyd_fork.Common.{
  ℕ, zero, suc, ◌<◌, ◌≡◌, refl, inl, inr, Bool, true, false, List, Bool-cases, replicate,
  Ensures-ok, ok,
}
use keyd_fork.Keyboard.Send.{reset_keystate}
use keyd_fork.Keyboard.Invariant.Send.{reset_keystate-Inv}
use keyd_fork.Keyboard.Cache.Laws.{IsDistinct}
use keyd_fork.Keyboard.Send.Keystate.{reset_keystate-keystate}
use keyd_fork.Macro.{Env}
use keyd_fork.Output.{is_down}
use keyd_fork.Keyboard.Events.{kbd_process_events, process_event}
use keyd_fork.Keyboard.Invariant.Events.{kbd_process_events-Inv, process_event-StepKeeps}
use keyd_fork.Keyboard.State.{KeyEvent, cache_size, Keyboard}
use keyd_fork.Config.{Config}
use keyd_fork.Keyboard.Create.{new_keyboard, empty_entry}
use keyd_fork.Keyboard.Invariant.{Inv, HasReleasedMacros}

free : (n : ℕ) → IsDistinct (replicate n empty_entry)
free zero = tt
free (suc n) = (inl refl, free n)

pub new_keyboard-Inv : (cfg : Config) (clock : ℕ) → Inv cfg (new_keyboard cfg clock)
unfolding new_keyboard
new_keyboard-Inv cfg clock = record {
  coherent = record { recorded = λ c h. cc; distinct = free cache_size; config_is = refl };
}

module _ (env : Env) (cfg : Config) (macros : HasReleasedMacros cfg) where
  pub started-Inv :
      (clock fuel : ℕ) (events : List KeyEvent) (t : ℕ) (kbd : Keyboard)
      → kbd_process_events env fuel (new_keyboard cfg clock) events ≡ ok (t, kbd)
      → Inv cfg kbd
  started-Inv clock fuel events t kbd run =
      Ensures-ok
        (kbd_process_events-Inv env macros fuel (new_keyboard cfg clock) events
          (new_keyboard-Inv cfg clock))
        run

  -- process_event, where it returns, keeps the invariant: the keys that are down on the virtual device
  -- are down in keystate, the cache holds no code twice, and the configuration stays as it was. The
  -- macros of the configuration release what they hold.
  pub process_event-Inv :
      (fuel : ℕ) (kbd : Keyboard) (code : ℕ) (pressed : Bool) (time t : ℕ) (k : Keyboard)
      → Inv cfg kbd
      → process_event env fuel kbd code pressed time ≡ ok (t, k)
      → Inv cfg k
  process_event-Inv fuel kbd code pressed time t k v run =
      Ensures-ok (process_event-StepKeeps env macros fuel kbd code pressed time v) run

  -- Where the macros of the configuration release what they hold, and kbd_process_events returns for
  -- the events that come to a new keyboard, every key that is down on the virtual device is down in
  -- keystate.
  pub kbd_process_events-recorded :
      (clock fuel : ℕ) (events : List KeyEvent) (t : ℕ) (kbd : Keyboard)
      → kbd_process_events env fuel (new_keyboard cfg clock) events ≡ ok (t, kbd)
      → (c : ℕ) → is_down kbd.out c ≡ true
      → kbd.keystate c ≡ true
  kbd_process_events-recorded clock fuel events t kbd run c h =
      (started-Inv clock fuel events t kbd run).recorded c h

  -- Where the macros of the configuration release what they hold, and kbd_process_events returns for
  -- the events that come to a new keyboard, reset_keystate then leaves no key below 256 down on the
  -- virtual device.
  pub kbd_process_events-reset :
      (clock fuel : ℕ) (events : List KeyEvent) (t : ℕ) (kbd : Keyboard)
      → kbd_process_events env fuel (new_keyboard cfg clock) events ≡ ok (t, kbd)
      → (c : ℕ) → c < 256
      → is_down (reset_keystate kbd).out c ≡ false
  kbd_process_events-reset clock fuel events t kbd run c h =
      elim (Bool-cases (is_down (reset_keystate kbd).out c)) [
        | inr up ↦ up
        | inl down ↦
            let v = reset_keystate-Inv (started-Inv clock fuel events t kbd run) in
            let held = v.recorded c down in let clear = reset_keystate-keystate kbd c h in cc
      ]
