-- ===== src/Keyboard/Invariant/Events.antt =====
-- src/keyboard.c: the invariant under kbd_process_events.
pub mod Chord
pub mod Pending
pub mod Queue
use keyd_fork.Common.{
  ℕ, zero, suc, ◌≢◌, inl, inr, Bool, true, false, Option, none, some, List, ◌==◌, if◌then◌else◌,
  ==_ne, Option-cases, if_intro, if_split, Ensures, Ensures-bind, ok, done, starves,
}
use keyd_fork.Keyboard.Lookup.{lookup_descriptor}
use keyd_fork.Keyboard.Invariant.Descriptors.{process_descriptor-Inv}
use keyd_fork.Config.{Config}
use keyd_fork.Keyboard.Cache.{cache_get, cache_set}
use keyd_fork.Keyboard.Events.{
  process_event, expire_oneshot, repeat_macro, advance_macro, key_down, key_up, handle_key,
  handle_event, kbd_process_events, press_key,
}
use keyd_fork.Keyboard.Events.Queue.{Step}
use keyd_fork.Keyboard.Invariant.{Inv, HasReleasedMacros}
use keyd_fork.Keyboard.Invariant.Events.Queue.{StepKeeps, process_events-Inv, ResultInv}
use keyd_fork.Keyboard.Invariant.Events.Chord.{handle_chord-Inv}
use keyd_fork.Keyboard.Invariant.Events.Pending.{
  handle_pending_key-Inv, try_cache_set-Inv, cache_set-Inv,
}
use keyd_fork.Keyboard.Invariant.Actions.{config_macro-Inv}
use keyd_fork.Keyboard.Invariant.Layers.{clear_oneshot-Inv, schedule_timeout-Inv}
use keyd_fork.Keyboard.Invariant.Send.{update_mods-Inv}
use keyd_fork.Keyboard.Send.{update_mods}
use keyd_fork.Keyboard.Timeouts.{calculate_main_loop_timeout}
use keyd_fork.Keyboard.State.{Keyboard, KeyEvent, CacheEntry}
use keyd_fork.Macro.{Env}

module _ {cfg : Config} where
  expire_oneshot-Inv :
      (kbd : Keyboard) (time : ℕ) → Inv cfg kbd → Ensures (Inv cfg) (expire_oneshot kbd time)
  unfolding expire_oneshot
  expire_oneshot-Inv kbd time v =
      if_intro (Ensures (Inv cfg)) _
        (Ensures-bind _ (clear_oneshot-Inv v) λ k w. done (update_mods-Inv none 0 w)) (done v)

  calculate_main_loop_timeout-Inv :
      (kbd : Keyboard) (time : ℕ) → Inv cfg kbd → Inv cfg (calculate_main_loop_timeout kbd time).1
  unfolding calculate_main_loop_timeout
  calculate_main_loop_timeout-Inv kbd time v = record { coherent = v.coherent }

module _ {cfg : Config} (env : Env) (macros : HasReleasedMacros cfg) where
  repeat_macro-Inv :
      (kbd : Keyboard) (m time : ℕ) → Inv cfg kbd → Ensures (Inv cfg) (repeat_macro env kbd m time)
  unfolding repeat_macro
  repeat_macro-Inv kbd m time v =
      let played = config_macro-Inv env macros kbd.active_macro_layer m v in
      if_intro (Ensures (Inv cfg)) _
        (schedule_timeout-Inv _ (record { coherent = played.coherent })) (done v)

  active_macro-Inv :
      (macro : Option ℕ) (kbd : Keyboard) (code time : ℕ)
      → Inv cfg kbd
      → Ensures (Inv cfg) (elim macro [
        | none ↦ ok kbd
        | some m ↦
            if code == 0
            then repeat_macro env kbd m time
            else ok (update_mods (record kbd { active_macro = none }) none 0)
      ])
  active_macro-Inv none kbd code time v = done v
  active_macro-Inv (some m) kbd code time v =
      if_intro (Ensures (Inv cfg)) _ (repeat_macro-Inv kbd m time v)
        (done (update_mods-Inv none 0 (record { coherent = v.coherent })))

  advance_macro-Inv :
      (kbd : Keyboard) (code time : ℕ)
      → Inv cfg kbd
      → Ensures (Inv cfg) (advance_macro env kbd code time)
  unfolding advance_macro
  advance_macro-Inv kbd code time v = active_macro-Inv kbd.active_macro kbd code time v

  press_key-Inv :
      (fuel : ℕ) (kbd : Keyboard) (code time : ℕ)
      → code ≢ 0
      → Inv cfg kbd
      → Ensures (Inv cfg) (press_key env fuel kbd code time)
  unfolding press_key
  press_key-Inv fuel kbd code time h v =
      let (d, dl) = lookup_descriptor kbd code in
      let entry : CacheEntry = record { code = 0; d = d; dl = dl; layer = 0 } in
      elim (Option-cases (cache_set kbd code (some entry))) [
        | inl full ↦ rw (full, press_key) (done v)
        | inr (k, stored) ↦
            rw (stored, press_key)
              (process_descriptor-Inv env macros fuel k code d dl true time
                (cache_set-Inv kbd code (some entry) h stored v))
      ]

  key_down-Inv :
      (fuel : ℕ) (kbd : Keyboard) (code time : ℕ)
      → code ≢ 0
      → Inv cfg kbd
      → Ensures (Inv cfg) (key_down env fuel kbd code time)
  unfolding key_down
  key_down-Inv fuel kbd code time h v = elim (Option-cases (cache_get kbd code)) [
    | inl fresh ↦ rw (fresh, key_down) (press_key-Inv fuel kbd code time h v)
    | inr (ce, down) ↦ rw (down, key_down) (done v)
  ]

  key_up-Inv :
      (fuel : ℕ) (kbd : Keyboard) (code time : ℕ)
      → code ≢ 0
      → Inv cfg kbd
      → Ensures (Inv cfg) (key_up env fuel kbd code time)
  unfolding key_up
  key_up-Inv fuel kbd code time h v = elim (Option-cases (cache_get kbd code)) [
    | inl unknown ↦ rw (unknown, key_up) (done v)
    | inr (ce, down) ↦
        rw (down, key_up)
          (process_descriptor-Inv env macros fuel _ code ce.d ce.dl false time
            (try_cache_set-Inv kbd code none h v))
  ]

  handle_key-Inv :
      (fuel : ℕ) (kbd : Keyboard) (code : ℕ) (pressed : Bool) (time : ℕ)
      → Inv cfg kbd
      → Ensures (Inv cfg) (handle_key env fuel kbd code pressed time)
  unfolding handle_key
  handle_key-Inv fuel kbd code pressed time v =
      Ensures-bind _ (expire_oneshot-Inv kbd time v) λ k w.
        Ensures-bind _ (advance_macro-Inv k code time w) λ l u.
          if_split (Ensures (Inv cfg)) (code == 0) (λ _. done u)
            λ some_key.
              if_intro (Ensures (Inv cfg)) pressed
                (key_down-Inv fuel l code time (==_ne code 0 some_key) u)
                (key_up-Inv fuel l code time (==_ne code 0 some_key) u)

  handle_event-Inv :
      (fuel : ℕ) (step : Step)
      → StepKeeps cfg step
      → (kbd : Keyboard) (code : ℕ) (pressed : Bool) (time : ℕ) → Inv cfg kbd
      → Ensures (Inv cfg) (handle_event env fuel step kbd code pressed time)
  unfolding handle_event
  handle_event-Inv fuel step h kbd code pressed time v =
      Ensures-bind _ (handle_chord-Inv fuel step h kbd code pressed time v) λ r w.
        if_intro (Ensures (Inv cfg)) r.0 (done w) (
          Ensures-bind _ (handle_pending_key-Inv env macros fuel step h r.1 code pressed time w)
            λ q u.
              if_intro (Ensures (Inv cfg)) q.0 (done u)
                (handle_key-Inv fuel q.1 code pressed time u))

  pub process_event-StepKeeps : (fuel : ℕ) → StepKeeps cfg (process_event env fuel)
  unfolding process_event
  process_event-StepKeeps zero kbd code pressed time v = starves
  process_event-StepKeeps (suc fuel) kbd code pressed time v =
      Ensures-bind _
        (handle_event-Inv fuel _ (process_event-StepKeeps fuel) kbd code pressed time v)
        λ k w. done (calculate_main_loop_timeout-Inv k time w)

  pub kbd_process_events-Inv :
      (fuel : ℕ) (kbd : Keyboard) (events : List KeyEvent)
      → Inv cfg kbd
      → Ensures (ResultInv cfg) (kbd_process_events env fuel kbd events)
  unfolding kbd_process_events
  kbd_process_events-Inv fuel kbd events v =
      process_events-Inv fuel _ (process_event-StepKeeps fuel) kbd events 0 0 v
