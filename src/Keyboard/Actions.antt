-- ===== src/Keyboard/Actions.antt =====
-- src/keyboard.c, the cases of process_descriptor: what a descriptor does when its key goes down
-- or up.
use keyd_fork.Common.{
  ℕ, ◌+◌, ◌%◌, Bool, true, false, not, ◌&&◌, ◌||◌, none, some, ltb, leb, ◌==◌, if◌then◌else◌,
  Result, ◌>>=◌, ok,
}
use keyd_fork.Config.{Op, Descriptor}
use keyd_fork.Keys.{mod_shift}
use keyd_fork.Keyboard.Cache.{update_entry}
use keyd_fork.Keyboard.Layers.{activate_layer, deactivate_layer, clear_oneshot, clear}
use keyd_fork.Keyboard.Send.{send_key, update_mods, execute_macro}
use keyd_fork.Keyboard.State.{
  Behaviour, Keyboard, put, set_layer_state, set_toggled, set_oneshot_depth,
}
use keyd_fork.Keyboard.Timeouts.{schedule_timeout}
use keyd_fork.Macro.{Env}
use keyd_fork.Output.{command}

unfoldable pub key_sequence_down : Keyboard → ℕ → ℕ → ℕ → Result Keyboard
key_sequence_down kbd code mods dl =
    let kbd = if kbd.keystate code then send_key kbd code false else kbd in
    clear_oneshot (send_key (update_mods kbd (some dl) mods) code true)

unfoldable pub process_keysequence : Keyboard → Descriptor → ℕ → Bool → ℕ → Result Keyboard
unfolding key_sequence_down
process_keysequence kbd d dl pressed time = do
  kbd ←
      (if pressed
        then key_sequence_down kbd (d.arg0 % 256) (d.arg1 % 256) dl
        else ok (update_mods (send_key kbd (d.arg0 % 256) false) none 0))
  ok (
      if d.arg1 % 256 == 0 || d.arg1 % 256 == mod_shift
      then record kbd { last_simple_key_time = time }
      else kbd)

unfoldable pub process_scroll : Keyboard → Descriptor → Bool → Keyboard
process_scroll kbd d pressed = record kbd {
  scroll = record { sensitivity = d.arg0; active = pressed };
}

unfoldable pub process_scroll_toggle : Keyboard → Descriptor → Bool → Keyboard
process_scroll_toggle kbd d pressed = record kbd {
  scroll = record {
    sensitivity = d.arg0;
    active = if pressed then not kbd.scroll.active else kbd.scroll.active;
  };
}

-- `process_descriptor` itself, for the descriptors that a descriptor refers to: code, descriptor,
-- layer, pressed and time.
abbrev pub Process : Type 0
Process = Keyboard → ℕ → Descriptor → ℕ → Bool → ℕ → Result Keyboard

unfoldable pub process_overload_idle : Process → Process
process_overload_idle process kbd code d dl pressed time =
    let idle = leb (d.arg2 + kbd.last_simple_key_time) time in
    let action = kbd.config.descriptors (if idle then d.arg1 else d.arg0) in
    if pressed
    then (do
      kbd ← process kbd code action dl true time
      ok (record kbd { cache = update_entry kbd.cache code (λ e. record e { d = action }) }))
    else ok kbd

unfoldable pub process_overload_timeout : Behaviour → Process
process_overload_timeout behaviour kbd code d dl pressed time =
    let p = kbd.pending_key in
    let p' = record p {
      code = code;
      behaviour = behaviour;
      dl = dl % 256;
      action1 = kbd.config.descriptors d.arg1;
      action2 = record p.action2 { op = Op.layer; arg0 = d.arg0 % 256 };
      expire = time + d.arg2;
    } in
    if pressed then schedule_timeout (record kbd { pending_key = p' }) (time + d.arg2) else ok kbd

unfoldable pub process_timeout : Process
process_timeout kbd code d dl pressed time =
    let p' = record kbd.pending_key {
      action1 = kbd.config.descriptors d.arg0;
      action2 = kbd.config.descriptors d.arg2;
      code = code;
      dl = dl % 256;
      expire = time + d.arg1;
      behaviour = Behaviour.interrupt_action1;
    } in
    if pressed then schedule_timeout (record kbd { pending_key = p' }) (time + d.arg1) else ok kbd

unfoldable pub update_mods_inhibited : Keyboard → Keyboard
update_mods_inhibited kbd =
    let kbd' = update_mods (record kbd { inhibit_modifier_guard = true }) none 0 in
    record kbd' { inhibit_modifier_guard = false }

unfoldable pub process_layer : Keyboard → ℕ → ℕ → Bool → Result Keyboard
process_layer kbd code idx pressed = do
  kbd ← (if pressed then ok (activate_layer kbd code idx) else deactivate_layer kbd idx)
  ok (if kbd.last_pressed_code == code then update_mods_inhibited kbd else update_mods kbd none 0)

is_macro : Op → Bool
is_macro Op.macro = true
is_macro _ = false

-- Whether the key was tapped: no key went down since, and within `overload_tap_timeout` if set.
unfoldable pub is_tap : Keyboard → ℕ → ℕ → Bool
is_tap kbd code time =
    let limit = kbd.config.overload_tap_timeout in
    kbd.last_pressed_code == code && (limit == 0 || ltb time (limit + kbd.overload_start_time))

-- The key goes up while `oneshot_latch` is set.
unfoldable pub latch_oneshot : Keyboard → ℕ → ℕ → Result Keyboard
latch_oneshot kbd idx time =
    let s = kbd.layer_state idx in
    let depth = (s.oneshot_depth + 1) % 256 in
    let kbd' = set_layer_state kbd idx (set_oneshot_depth s depth) in
    let expire = time + kbd.config.oneshot_timeout in
    if kbd.config.oneshot_timeout == 0
    then ok kbd'
    else schedule_timeout (record kbd' { oneshot_timeout = expire }) expire

unfoldable pub process_oneshot : Keyboard → ℕ → ℕ → ℕ → Bool → ℕ → Result Keyboard
unfolding latch_oneshot
process_oneshot kbd code idx dl pressed time =
    let kbd' = update_mods (activate_layer kbd code idx) (some dl) 0 in
    if pressed
    then ok (record kbd' { oneshot_latch = true })
    else if kbd.oneshot_latch
    then latch_oneshot kbd idx time
    else (do kbd ← deactivate_layer kbd idx; ok (update_mods kbd none 0))

unfoldable pub process_toggle : Keyboard → ℕ → ℕ → Bool → Result Keyboard
process_toggle kbd code idx pressed =
    let s = kbd.layer_state idx in
    let kbd' = set_layer_state kbd idx (set_toggled s (not s.toggled)) in
    if pressed
    then (do
      kbd ← (if s.toggled then deactivate_layer kbd' idx else ok (activate_layer kbd' code idx))
      clear_oneshot (update_mods kbd none 0))
    else ok kbd

unfoldable pub process_command : Keyboard → ℕ → Bool → Result Keyboard
process_command kbd idx pressed =
    if pressed
    then (do kbd ← clear_oneshot (put kbd (command idx)); ok (update_mods kbd none 0))
    else ok kbd

module _ (env : Env) where
  unfoldable pub process_clearm : Keyboard → Descriptor → ℕ → Bool → Result Keyboard
  process_clearm kbd d dl pressed =
      if pressed
      then (do kbd ← clear kbd; ok (execute_macro env kbd dl (kbd.config.macros d.arg0)))
      else ok kbd

  unfoldable pub tap_action : Process → Keyboard → ℕ → Descriptor → ℕ → ℕ → Result Keyboard
  unfolding is_macro
  tap_action process kbd code action dl time =
      if is_macro action.op
      then ok (execute_macro env kbd dl (kbd.config.macros action.arg0))
      else (do kbd ← process kbd code action dl true time; process kbd code action dl false time)

  unfoldable pub process_overload : Process → Process
  unfolding tap_action
  process_overload process kbd code d dl pressed time =
      let action = kbd.config.descriptors d.arg1 in
      let kbd' = activate_layer (record kbd { overload_start_time = time }) code d.arg0 in
      if pressed then ok (update_mods kbd' none 0) else (do
        kbd ← deactivate_layer kbd d.arg0
        let kbd = update_mods kbd none 0
        if is_tap kbd code time then tap_action process kbd code action dl time else ok kbd)

  -- `idx` is the macro, `timeout` and `interval` are the times until its first and next repetition.
  unfoldable pub start_macro : Keyboard → ℕ → ℕ → ℕ → ℕ → ℕ → Result Keyboard
  start_macro kbd idx timeout interval dl time = do
    kbd ← clear_oneshot (record kbd { macro_repeat_interval = interval })
    let kbd = execute_macro env kbd dl (kbd.config.macros idx)
    let kbd = record kbd {
      active_macro = some idx;
      active_macro_layer = dl;
      macro_timeout = time + timeout;
    }
    schedule_timeout kbd (time + timeout)
