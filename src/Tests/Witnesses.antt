-- ===== src/Tests/Witnesses.antt =====
-- Instances of the theorems on the engine, at the small configuration.
use keyd_fork.Common.{
  ℕ, ◌≡◌, refl, ◌≢◌, true, false, none, some, [], ◌∷◌, arith, ◌==◌, if◌then◌else◌, range, elem, ok,
  out_of_fuel,
}
use keyd_fork.Macro.Spec.{macro_execute-play}
use keyd_fork.Tests.{chord_jk, event}
use keyd_fork.Tests.Engine.{
  laid_out, chosen_layout, with_layout, chosen_layout-ok, chosen_layout-elem, chosen_layout-layout,
}
use keyd_fork.Keyboard.Chords.{ChordMatch, chord_event_match}
use keyd_fork.Keyboard.Chords.Matching.{chord_event_match-presses}
use keyd_fork.Keyboard.Layers.{activate_layer, deactivate_layer}
use keyd_fork.Keyboard.Layers.Paired.{deactivate_layer-activate_layer}
use keyd_fork.Keyboard.Layers.Layout.{setlayout-active}
use keyd_fork.Keyboard.Timeouts.{calculate_main_loop_timeout}
use keyd_fork.Keyboard.State.{Keyboard}
use keyd_fork.Keyboard.Timeouts.Earliest.{IsNextTimeout, calculate_main_loop_timeout-IsNextTimeout}
use keyd_fork.Config.{MacroType, Macro}
use keyd_fork.Keyboard.Invariant.{HasReleasedMacros, Inv}
use keyd_fork.Macro.Released.{macro_execute-is_down}
use keyd_fork.Keyboard.Layers.Oneshot.{IsCounted, clear_oneshot-drained}
use keyd_fork.Macro.{macro_execute}
use keyd_fork.Output.{is_down}
use keyd_fork.Keyboard.Layers.{clear_oneshot}
use keyd_fork.Keyboard.Lookup.{lookup_layers}
use keyd_fork.Keyboard.Lookup.Resolution.{IsMeaning, lookup_layers-IsMeaning}
use keyd_fork.Keyboard.Cache.{cache_get}
use keyd_fork.Keyboard.Safety.{
  kbd_process_events-reset, process_event-Inv, new_keyboard-Inv, kbd_process_events-recorded,
  started-Inv,
}
use keyd_fork.Keyboard.Send.{set_mods, reset_keystate}
use keyd_fork.Keyboard.Cache.Laws.{IsDistinct, cache_get-cache_set, cache_set-IsDistinct}
use keyd_fork.Keyboard.Send.Keystate.{set_mods-keystate}
use keyd_fork.Keyboard.Create.{new_keyboard}
use keyd_fork.Tests.{config, env}
use keyd_fork.Common.{
  ℕ, ◌≡◌, refl, ◌≢◌, true, false, none, some, [], ◌∷◌, arith, ◌==◌, if◌then◌else◌, range, elem, ok,
  out_of_fuel,
}
use keyd_fork.Config.{Op, Descriptor}
use keyd_fork.Tests.Engine.{
  finished, timeout_of, nav_events, started, started-ok, repeated, repeated-ok, entry, with_30,
  with_30-stored, down_105,
}
use keyd_fork.Keyboard.Create.{off, new_keyboard}
use keyd_fork.Keyboard.Layers.Oneshot.{drained}
use keyd_fork.Macro.Spec.{play}
use keyd_fork.Output.{key, log}
use keyd_fork.Config.{MacroType}

released : HasReleasedMacros config
released i = refl

kbd_process_events-recorded_example : (finished started).keystate 105 ≡ true
kbd_process_events-recorded_example =
    kbd_process_events-recorded env config released 1 8 nav_events (timeout_of started)
      (finished started) started-ok 105 down_105

lookup_layers-IsMeaning_example :
    IsMeaning config
      (finished started).layer_state
      35
      (lookup_layers config (finished started).layer_state 35)
lookup_layers-IsMeaning_example = lookup_layers-IsMeaning config (finished started).layer_state 35

kbd_process_events-reset_example : is_down (reset_keystate (finished started)).out 105 ≡ false
kbd_process_events-reset_example =
    kbd_process_events-reset env config released 1 8 nav_events (timeout_of started)
      (finished started) started-ok 105 (omega arith)

nav-Inv : Inv config (finished started)
nav-Inv =
    started-Inv env config released 1 8 nav_events (timeout_of started) (finished started)
      started-ok

process_event-Inv_example : Inv config (finished repeated)
process_event-Inv_example =
    process_event-Inv env config released 8 (finished started) 35 true 30 (timeout_of repeated)
      (finished repeated) nav-Inv repeated-ok

-- Layer 2 is on once by its key and once as a one-shot.
abbrev latched : Keyboard
latched = record (new_keyboard config 1) {
  layer_state = λ i.
      if i == 2
      then record { activation_time = 4; active = 2; toggled = false; oneshot_depth = 1 }
      else off;
}

latched-IsCounted : IsCounted latched
latched-IsCounted i = ground arith

clear_oneshot-drained_example :
    (k : Keyboard) × (clear_oneshot latched ≡ ok k)
    × ((j : ℕ)
        → k.layer_state j ≡ (
            if elem j (range latched.config.nr_layers)
            then drained (latched.layer_state j)
            else latched.layer_state j))
    × (k.oneshot_latch ≡ false)
    × (k.oneshot_timeout ≡ 0)
clear_oneshot-drained_example = clear_oneshot-drained latched latched-IsCounted

abbrev waiting : Keyboard
waiting = record (new_keyboard config 1) { timeouts = 50 ∷ 20 ∷ 5 ∷ [] }

calculate_main_loop_timeout-IsNextTimeout_example :
    IsNextTimeout
      (50 ∷ 20 ∷ 5 ∷ [])
      10
      (calculate_main_loop_timeout waiting 10).0
      (calculate_main_loop_timeout waiting 10).1.timeouts
calculate_main_loop_timeout-IsNextTimeout_example =
    calculate_main_loop_timeout-IsNextTimeout waiting 10

abbrev held_a : Macro
held_a =
    record { type = MacroType.hold; data' = 30 }
    ∷ record { type = MacroType.keysequence; data' = 48 }
    ∷ record { type = MacroType.release; data' = 0 }
    ∷ []

macro_execute-play_example : macro_execute env held_a 10 ≡ play env 10 none held_a
macro_execute-play_example = macro_execute-play env held_a 10

held_57 : is_down (log (macro_execute env held_a 10) (key 57 true ∷ [])) 57 ≡ true
unfolding macro_execute log
held_57 = refl

macro_execute-is_down_example : is_down (key 57 true ∷ []) 57 ≡ true
macro_execute-is_down_example =
    macro_execute-is_down env held_a 10 (key 57 true ∷ []) 57 refl held_57

cache_get-cache_set_example : cache_get with_30 30 ≡ some (record entry { code = 30 })
cache_get-cache_set_example =
    cache_get-cache_set (new_keyboard config 1) 30 30 entry with_30-stored (omega arith)
      (omega arith)

with_30-IsDistinct : IsDistinct with_30.cache
with_30-IsDistinct =
    cache_set-IsDistinct (new_keyboard config 1) 30 (some entry)
      (new_keyboard-Inv config 1).distinct with_30-stored (omega arith)

set_mods-keystate_example : (set_mods (new_keyboard config 1) 8).keystate 29 ≡ true
set_mods-keystate_example = set_mods-keystate (new_keyboard config 1) 8 29

-- The descriptor of capslock: a layer, or on a tap the first auxiliary descriptor.
abbrev capslock : Descriptor
capslock = record { op = Op.overload; arg0 = 1; arg1 = 0; arg2 = 0 }

chord_event_match-presses_example :
    chord_event_match chord_jk (event 36 true 10 ∷ event 37 true 20 ∷ event 36 false 30 ∷ [])
    ≡ ChordMatch.full_match
chord_event_match-presses_example =
    chord_event_match-presses chord_jk
      (event 36 true 10 ∷ event 37 true 20 ∷ event 36 false 30 ∷ [])

deactivate_layer-activate_layer_example :
    (k : Keyboard) × (deactivate_layer (activate_layer latched 57 2) 2 ≡ ok k)
    × ((j : ℕ) → (k.layer_state j).active ≡ (latched.layer_state j).active)
deactivate_layer-activate_layer_example = deactivate_layer-activate_layer latched 57 2 (omega arith)

setlayout-active_example : ((laid_out chosen_layout).layer_state 2).active ≡ 1
setlayout-active_example =
    setlayout-active with_layout 2 (laid_out chosen_layout) 2 chosen_layout-ok chosen_layout-elem
      chosen_layout-layout
