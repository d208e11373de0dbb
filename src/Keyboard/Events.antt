-- ===== src/Keyboard/Events.antt =====
-- src/keyboard.c: the key event machine. process_event, kbd_process_events, handle_chord,
-- resolve_chord and handle_pending_key call one another; here those below process_event take it as
-- an argument, `step`, and process_event ties the knot on fuel.
pub mod Queue
pub mod Chord
pub mod Pending
use keyd_fork.Common.{
  ℕ, zero, suc, ◌+◌, Bool, true, false, not, ◌&&◌, none, some, List, leb, ◌==◌, if◌then◌else◌,
  Result, ◌>>=◌, ok, out_of_fuel,
}
use keyd_fork.Keyboard.Cache.{cache_get, cache_set}
use keyd_fork.Keyboard.Descriptors.{process_descriptor}
use keyd_fork.Keyboard.Events.Queue.{Step, process_events}
use keyd_fork.Keyboard.Events.Chord.{handle_chord}
use keyd_fork.Keyboard.Events.Pending.{handle_pending_key, try_cache_set}
use keyd_fork.Keyboard.Layers.{clear_oneshot}
use keyd_fork.Keyboard.Lookup.{lookup_descriptor}
use keyd_fork.Keyboard.Send.{update_mods, execute_macro}
use keyd_fork.Keyboard.State.{KeyEvent, Keyboard}
use keyd_fork.Keyboard.Timeouts.{schedule_timeout, calculate_main_loop_timeout}
use keyd_fork.Macro.{Env}

unfoldable pub expire_oneshot : Keyboard → ℕ → Result Keyboard
expire_oneshot kbd time =
    if not (kbd.oneshot_timeout == 0) && leb kbd.oneshot_timeout time
    then (do kbd ← clear_oneshot kbd; ok (update_mods kbd none 0))
    else ok kbd

unfoldable pub repeat_macro : Env → Keyboard → ℕ → ℕ → Result Keyboard
repeat_macro env kbd m time =
    if leb kbd.macro_timeout time
    then (do
      let kbd = execute_macro env kbd kbd.active_macro_layer (kbd.config.macros m)
      let next = time + kbd.macro_repeat_interval
      schedule_timeout (record kbd { macro_timeout = next }) next)
    else ok kbd

-- A key stops the active macro; a timeout repeats it once it is due.
unfoldable pub advance_macro : Env → Keyboard → ℕ → ℕ → Result Keyboard
advance_macro env kbd code time = elim kbd.active_macro [
  | none ↦ ok kbd
  | some m ↦
      if code == 0
      then repeat_macro env kbd m time
      else ok (update_mods (record kbd { active_macro = none }) none 0)
]

-- A key's descriptor is cached and takes place; a key that finds the cache full is dropped.
unfoldable pub press_key : Env → ℕ → Keyboard → ℕ → ℕ → Result Keyboard
press_key env fuel kbd code time =
    let (d, dl) = lookup_descriptor kbd code in
    elim (cache_set kbd code (some (record { code = 0; d = d; dl = dl; layer = 0 }))) [
      | none ↦ ok kbd
      | some kbd' ↦ process_descriptor env fuel kbd' code d dl true time
    ]

-- A key that is down already is dropped.
unfoldable pub key_down : Env → ℕ → Keyboard → ℕ → ℕ → Result Keyboard
key_down env fuel kbd code time = elim (cache_get kbd code) [
  | some _ ↦ ok kbd
  | none ↦ press_key env fuel kbd code time
]

-- A key goes up with the descriptor that it went down with; one that is not down is dropped.
unfoldable pub key_up : Env → ℕ → Keyboard → ℕ → ℕ → Result Keyboard
key_up env fuel kbd code time = elim (cache_get kbd code) [
  | none ↦ ok kbd
  | some ce ↦ process_descriptor env fuel (try_cache_set kbd code none) code ce.d ce.dl false time
]

-- What follows `handle_chord` and `handle_pending_key`, where neither takes the event.
unfoldable pub handle_key : Env → ℕ → Keyboard → ℕ → Bool → ℕ → Result Keyboard
handle_key env fuel kbd code pressed time = do
  kbd ← expire_oneshot kbd time
  kbd ← advance_macro env kbd code time
  if code == 0
      then ok kbd
      else if pressed
      then key_down env fuel kbd code time
      else key_up env fuel kbd code time

-- process_event up to the label `exit`.
unfoldable pub handle_event : Env → ℕ → Step → Keyboard → ℕ → Bool → ℕ → Result Keyboard
handle_event env fuel step kbd code pressed time = do
  (taken, kbd) ← handle_chord fuel step kbd code pressed time
  if taken then ok kbd else (do
    (taken, kbd) ← handle_pending_key env fuel step kbd code pressed time
    if taken then ok kbd else handle_key env fuel kbd code pressed time)

-- The result is the time until the next call, 0 for any. Fuel bounds the nesting of calls.
unfoldable pub process_event : Env → ℕ → Step
process_event env zero kbd code pressed time = out_of_fuel
process_event env (suc fuel) kbd code pressed time = do
  kbd ← handle_event env fuel (process_event env fuel) kbd code pressed time
  ok (calculate_main_loop_timeout kbd time)

-- `fuel` bounds the rounds of the loop too.
unfoldable pub kbd_process_events : Env → ℕ → Keyboard → List KeyEvent → Result (ℕ × Keyboard)
kbd_process_events env fuel kbd events = process_events fuel (process_event env fuel) kbd events 0 0
