-- ===== src/Tests/Engine.antt =====
-- Runs of the engine, opened for computation.
use keyd_fork.Common.{
  ℕ, ◌≡◌, refl, ◌∙◌, Bool, true, false, Option, none, some, List, [], ◌∷◌, ◌==◌, if◌then◌else◌,
  range, elem, Result, ◌>>=◌, ok, aborted, out_of_fuel,
}
use keyd_fork.Common.{
  ℕ, ◌≡◌, refl, ◌∙◌, Bool, true, false, Option, none, some, List, [], ◌∷◌, ◌==◌, if◌then◌else◌,
  range, elem, Result, ◌>>=◌, ok, aborted, out_of_fuel,
}
use keyd_fork.Config.{LayerType, is_layout, Config}
use keyd_fork.Tests.{layers}
use keyd_fork.Keyboard.State.{KeyEvent, Keyboard, CacheEntry}
use keyd_fork.Config.{unset_descriptor, Config}
use keyd_fork.Output.{is_down}
use keyd_fork.Tests.{config, env, event}
use keyd_fork.Keyboard.Actions.{
  key_sequence_down, process_keysequence, process_scroll, process_scroll_toggle,
  process_overload_idle, process_overload_timeout, process_timeout, update_mods_inhibited,
  process_layer, is_tap, latch_oneshot, process_oneshot, process_toggle, process_command,
  process_clearm, tap_action, process_overload, start_macro,
}
use keyd_fork.Keyboard.Cache.{cache_set, cache_get, update_entry}
use keyd_fork.Keyboard.Chords.{chord_event_match, enqueue_chord_event, check_chord_match}
use keyd_fork.Keyboard.Create.{new_keyboard}
use keyd_fork.Keyboard.Descriptors.{entry_macro, process_macro, process_op, process_descriptor}
use keyd_fork.Keyboard.Events.{
  expire_oneshot, repeat_macro, advance_macro, press_key, key_down, key_up, handle_key,
  handle_event, process_event, kbd_process_events,
}
use keyd_fork.Keyboard.Events.Chord.{
  set_chord_state, deref, pending_match, chord_size, is_key_of, free_slot, activate_chord,
  resolve_chord, abort_chord, zero_key, all_zero, holding_slot, release_chord_key, await_next_key,
  hold_match, follow_match, start_chord, interkey_expired, disambiguate_timeout, disambiguate_key,
  hold_key, in_state, handle_chord,
}
use keyd_fork.Keyboard.Events.Pending.{
  is_queued, is_earlier_release, enqueue, interrupted, decide_action, try_cache_set, carry_out,
  decide_pending, handle_pending_key,
}
use keyd_fork.Keyboard.Events.Queue.{process_events}
use keyd_fork.Keyboard.Layers.{
  deactivate_layer, activate_layer, drain_oneshot, drain_oneshots, clear_oneshot, clear_toggles,
  clear, leave_layouts, setlayout,
}
use keyd_fork.Keyboard.Lookup.{
  scan_layer, scan_layers, scan_composite, scan_composites, or_default, lookup_layers,
  lookup_descriptor,
}
use keyd_fork.Keyboard.Send.{
  reset_key, reset_keys, reset_keystate, send_key, is_guarded, clear_mod, set_mod, set_mods_loop,
  set_mods, is_excluded, collect_mods, update_mods, key_sequence, execute_macro,
}
use keyd_fork.Keyboard.Swap.{
  find_holder, swap_toggled, swap_oneshot, hold_instead, swap_held, swap_down, swap_up,
  process_swap,
}
use keyd_fork.Keyboard.Timeouts.{schedule_timeout, calculate_main_loop_timeout}
use keyd_fork.Macro.{macro_execute}

abbrev pub finished : Result (ℕ × Keyboard) → Keyboard
finished (ok (_, kbd)) = kbd
finished _ = new_keyboard config 1

abbrev pub nav_events : List KeyEvent
nav_events = event 57 true 10 ∷ event 35 true 15 ∷ []

unfoldable pub run_on : Config → Result (ℕ × Keyboard)
unfolding key_sequence_down process_keysequence process_scroll process_scroll_toggle
    process_overload_idle process_overload_timeout process_timeout update_mods_inhibited
    process_layer is_tap latch_oneshot process_oneshot process_toggle process_command process_clearm
    tap_action process_overload start_macro cache_set cache_get update_entry chord_event_match
    enqueue_chord_event check_chord_match new_keyboard entry_macro process_macro process_op
    process_descriptor expire_oneshot repeat_macro advance_macro press_key key_down key_up
    handle_key handle_event process_event kbd_process_events set_chord_state deref pending_match
    chord_size is_key_of free_slot activate_chord resolve_chord abort_chord zero_key all_zero
    holding_slot release_chord_key await_next_key hold_match follow_match start_chord
    interkey_expired disambiguate_timeout disambiguate_key hold_key in_state handle_chord is_queued
    is_earlier_release enqueue interrupted decide_action try_cache_set carry_out decide_pending
    handle_pending_key process_events deactivate_layer activate_layer drain_oneshot drain_oneshots
    clear_oneshot clear_toggles clear leave_layouts setlayout scan_layer scan_layers scan_composite
    scan_composites or_default lookup_layers lookup_descriptor reset_key reset_keys reset_keystate
    send_key is_guarded clear_mod set_mod set_mods_loop set_mods is_excluded collect_mods
    update_mods key_sequence execute_macro find_holder swap_toggled swap_oneshot hold_instead
    swap_held swap_down swap_up process_swap schedule_timeout calculate_main_loop_timeout
    macro_execute ◌>>=◌
run_on cfg = kbd_process_events env 8 (new_keyboard cfg 1) nav_events

pub started : Result (ℕ × Keyboard)
unfolding run_on
started = run_on config

abbrev pub is_ok : Result (ℕ × Keyboard) → Bool
is_ok (ok _) = true
is_ok _ = false

abbrev pub timeout_of : Result (ℕ × Keyboard) → ℕ
timeout_of (ok (t, _)) = t
timeout_of _ = 0

returned : (r : Result (ℕ × Keyboard)) → is_ok r ≡ true → r ≡ ok (timeout_of r, finished r)
returned (ok (t, k)) h = refl
returned (aborted _) h = cc
returned out_of_fuel h = cc

started-run : kbd_process_events env 8 (new_keyboard config 1) nav_events ≡ started
unfolding started
started-run = refl

pub started-ok :
    kbd_process_events env 8 (new_keyboard config 1) nav_events
    ≡ ok (timeout_of started, finished started)
unfolding started
started-ok = started-run ∙ returned started refl

pub down_105 : is_down (finished started).out 105 ≡ true
unfolding started
down_105 = refl

run_on-run : (cfg : Config) → kbd_process_events env 8 (new_keyboard cfg 1) nav_events ≡ run_on cfg
unfolding run_on
run_on-run cfg = refl

pub run_on-ok :
    (cfg : Config)
    → is_ok (run_on cfg) ≡ true
    → kbd_process_events env 8 (new_keyboard cfg 1) nav_events
      ≡ ok (timeout_of (run_on cfg), finished (run_on cfg))
run_on-ok cfg h = run_on-run cfg ∙ returned (run_on cfg) h

-- A key struck again while it is down.
pub repeated : Result (ℕ × Keyboard)
unfolding key_sequence_down process_keysequence process_scroll process_scroll_toggle
    process_overload_idle process_overload_timeout process_timeout update_mods_inhibited
    process_layer is_tap latch_oneshot process_oneshot process_toggle process_command process_clearm
    tap_action process_overload start_macro cache_set cache_get update_entry chord_event_match
    enqueue_chord_event check_chord_match new_keyboard entry_macro process_macro process_op
    process_descriptor expire_oneshot repeat_macro advance_macro press_key key_down key_up
    handle_key handle_event process_event kbd_process_events set_chord_state deref pending_match
    chord_size is_key_of free_slot activate_chord resolve_chord abort_chord zero_key all_zero
    holding_slot release_chord_key await_next_key hold_match follow_match start_chord
    interkey_expired disambiguate_timeout disambiguate_key hold_key in_state handle_chord is_queued
    is_earlier_release enqueue interrupted decide_action try_cache_set carry_out decide_pending
    handle_pending_key process_events deactivate_layer activate_layer drain_oneshot drain_oneshots
    clear_oneshot clear_toggles clear leave_layouts setlayout scan_layer scan_layers scan_composite
    scan_composites or_default lookup_layers lookup_descriptor reset_key reset_keys reset_keystate
    send_key is_guarded clear_mod set_mod set_mods_loop set_mods is_excluded collect_mods
    update_mods key_sequence execute_macro find_holder swap_toggled swap_oneshot hold_instead
    swap_held swap_down swap_up process_swap schedule_timeout calculate_main_loop_timeout
    macro_execute ◌>>=◌
repeated = process_event env 8 (finished started) 35 true 30

repeated-run : process_event env 8 (finished started) 35 true 30 ≡ repeated
unfolding repeated
repeated-run = refl

pub repeated-ok :
    process_event env 8 (finished started) 35 true 30 ≡ ok (timeout_of repeated, finished repeated)
unfolding repeated started
repeated-ok = repeated-run ∙ returned repeated refl

abbrev pub entry : CacheEntry
entry = record { code = 0; d = unset_descriptor; dl = 2; layer = 0 }

abbrev or_new : Option Keyboard → Keyboard
or_new (some k) = k
or_new none = new_keyboard config 1

abbrev is_some : Option Keyboard → Bool
is_some (some _) = true
is_some none = false

stored : (o : Option Keyboard) → is_some o ≡ true → o ≡ some (or_new o)
stored (some k) h = refl
stored none h = cc

abbrev pub with_30 : Keyboard
with_30 = or_new (cache_set (new_keyboard config 1) 30 (some entry))

pub with_30-stored : cache_set (new_keyboard config 1) 30 (some entry) ≡ some with_30
unfolding cache_set new_keyboard
with_30-stored = stored (cache_set (new_keyboard config 1) 30 (some entry)) refl

abbrev pub erased : Keyboard
erased = or_new (cache_set with_30 30 none)

pub erased-stored : cache_set with_30 30 none ≡ some erased
unfolding cache_set new_keyboard
erased-stored = stored (cache_set with_30 30 none) refl

-- Layer 2 is a layout.
abbrev pub with_layout : Keyboard
with_layout = record (new_keyboard config 1) {
  config = record config {
    layers = λ i. if i == 2 then record (layers 2) { type = LayerType.layout } else layers i;
  };
}

abbrev pub laid_out : Result Keyboard → Keyboard
laid_out (ok kbd) = kbd
laid_out _ = new_keyboard config 1

abbrev has_kept : Result Keyboard → Bool
has_kept (ok _) = true
has_kept _ = false

kept : (r : Result Keyboard) → has_kept r ≡ true → r ≡ ok (laid_out r)
kept (ok k) h = refl
kept (aborted _) h = cc
kept out_of_fuel h = cc

pub chosen_layout : Result Keyboard
unfolding key_sequence_down process_keysequence process_scroll process_scroll_toggle
    process_overload_idle process_overload_timeout process_timeout update_mods_inhibited
    process_layer is_tap latch_oneshot process_oneshot process_toggle process_command process_clearm
    tap_action process_overload start_macro cache_set cache_get update_entry chord_event_match
    enqueue_chord_event check_chord_match new_keyboard entry_macro process_macro process_op
    process_descriptor expire_oneshot repeat_macro advance_macro press_key key_down key_up
    handle_key handle_event process_event kbd_process_events set_chord_state deref pending_match
    chord_size is_key_of free_slot activate_chord resolve_chord abort_chord zero_key all_zero
    holding_slot release_chord_key await_next_key hold_match follow_match start_chord
    interkey_expired disambiguate_timeout disambiguate_key hold_key in_state handle_chord is_queued
    is_earlier_release enqueue interrupted decide_action try_cache_set carry_out decide_pending
    handle_pending_key process_events deactivate_layer activate_layer drain_oneshot drain_oneshots
    clear_oneshot clear_toggles clear leave_layouts setlayout scan_layer scan_layers scan_composite
    scan_composites or_default lookup_layers lookup_descriptor reset_key reset_keys reset_keystate
    send_key is_guarded clear_mod set_mod set_mods_loop set_mods is_excluded collect_mods
    update_mods key_sequence execute_macro find_holder swap_toggled swap_oneshot hold_instead
    swap_held swap_down swap_up process_swap schedule_timeout calculate_main_loop_timeout
    macro_execute ◌>>=◌
chosen_layout = setlayout with_layout 2

chosen_layout-run : setlayout with_layout 2 ≡ chosen_layout
unfolding chosen_layout
chosen_layout-run = refl

pub chosen_layout-ok : setlayout with_layout 2 ≡ ok (laid_out chosen_layout)
unfolding chosen_layout
chosen_layout-ok = chosen_layout-run ∙ kept chosen_layout refl

pub chosen_layout-elem : elem 2 (range (laid_out chosen_layout).config.nr_layers) ≡ true
unfolding chosen_layout
chosen_layout-elem = refl

pub chosen_layout-layout : is_layout ((laid_out chosen_layout).config.layers 2).type ≡ true
unfolding chosen_layout
chosen_layout-layout = refl
