-- ===== src/Keyboard/Descriptors.antt =====
-- src/keyboard.c, process_descriptor. Its result, a timeout that no caller reads, is left out.
use keyd_fork.Common.{
  ℕ, zero, suc, ◌%◌, Bool, true, false, ◌&&◌, none, some, if◌then◌else◌, ◌>>=◌, ok, out_of_fuel,
}
use keyd_fork.Config.{Op, Descriptor}
use keyd_fork.Keyboard.Actions.{
  Process, process_keysequence, process_scroll, process_scroll_toggle, process_overload_idle,
  process_overload_timeout, process_timeout, process_layer, process_clearm, process_overload,
  process_oneshot, start_macro, process_toggle, process_command,
}
use keyd_fork.Keyboard.Layers.{clear, setlayout}
use keyd_fork.Keyboard.Send.{execute_macro}
use keyd_fork.Keyboard.State.{Behaviour, Keyboard}
use keyd_fork.Keyboard.Swap.{process_swap}
use keyd_fork.Macro.{Env}

-- The first `switch`: the operations that begin with a macro when their key goes down.
has_entry_macro : Op → Bool
has_entry_macro Op.layerm = true
has_entry_macro Op.oneshotm = true
has_entry_macro Op.togglem = true
has_entry_macro _ = false

unfoldable pub entry_macro : Env → Keyboard → Descriptor → ℕ → Bool → Keyboard
unfolding has_entry_macro
entry_macro env kbd d dl pressed =
    if pressed && has_entry_macro d.op
    then execute_macro env kbd dl (kbd.config.macros d.arg1)
    else kbd

unfoldable pub process_macro : Env → Op → Process
process_macro env op kbd code d dl false time = ok kbd
process_macro env Op.macro2 kbd code d dl true time =
    start_macro env kbd d.arg2 d.arg0 d.arg1 dl time
process_macro env _ kbd code d dl true time =
    start_macro env kbd d.arg0 kbd.config.macro_timeout kbd.config.macro_repeat_timeout dl time

-- The second `switch`, on the operation; `process` serves the calls of process_descriptor in it.
unfoldable pub process_op : Env → Process → Op → Process
process_op env process Op.unset kbd code d dl pressed time = ok kbd
process_op env process Op.keysequence kbd code d dl pressed time =
    process_keysequence kbd d dl pressed time
process_op env process Op.scroll kbd code d dl pressed time = ok (process_scroll kbd d pressed)
process_op env process Op.scroll_toggle kbd code d dl pressed time =
    ok (process_scroll_toggle kbd d pressed)
process_op env process Op.overload_idle_timeout kbd code d dl pressed time =
    process_overload_idle process kbd code d dl pressed time
process_op env process Op.overload_timeout_tap kbd code d dl pressed time =
    process_overload_timeout Behaviour.uninterruptible_tap_action2 kbd code d dl pressed time
process_op env process Op.overload_timeout kbd code d dl pressed time =
    process_overload_timeout Behaviour.uninterruptible kbd code d dl pressed time
process_op env process Op.layout kbd code d dl pressed time =
    if pressed then setlayout kbd (d.arg0 % 256) else ok kbd
process_op env process Op.layerm kbd code d dl pressed time = process_layer kbd code d.arg0 pressed
process_op env process Op.layer kbd code d dl pressed time = process_layer kbd code d.arg0 pressed
process_op env process Op.clearm kbd code d dl pressed time = process_clearm env kbd d dl pressed
process_op env process Op.clear kbd code d dl pressed time = if pressed then clear kbd else ok kbd
process_op env process Op.overload kbd code d dl pressed time =
    process_overload env process kbd code d dl pressed time
process_op env process Op.oneshotm kbd code d dl pressed time =
    process_oneshot kbd code d.arg0 dl pressed time
process_op env process Op.oneshot kbd code d dl pressed time =
    process_oneshot kbd code d.arg0 dl pressed time
process_op env process Op.macro2 kbd code d dl pressed time =
    process_macro env Op.macro2 kbd code d dl pressed time
process_op env process Op.macro kbd code d dl pressed time =
    process_macro env Op.macro kbd code d dl pressed time
process_op env process Op.togglem kbd code d dl pressed time =
    process_toggle kbd code d.arg0 pressed
process_op env process Op.toggle kbd code d dl pressed time = process_toggle kbd code d.arg0 pressed
process_op env process Op.timeout kbd code d dl pressed time =
    process_timeout kbd code d dl pressed time
process_op env process Op.command kbd code d dl pressed time = process_command kbd d.arg0 pressed
process_op env process Op.swap kbd code d dl pressed time =
    process_swap env kbd dl d.arg0 none pressed
process_op env process Op.swapm kbd code d dl pressed time =
    process_swap env kbd dl d.arg0 (some (kbd.config.macros d.arg1)) pressed

-- Fuel bounds how deep descriptors refer to descriptors.
unfoldable pub process_descriptor : Env → ℕ → Process
process_descriptor env zero kbd code d dl pressed time = out_of_fuel
process_descriptor env (suc fuel) kbd code d dl pressed time = do
  kbd ←
      process_op env (process_descriptor env fuel) d.op (entry_macro env kbd d dl pressed) code d dl
        pressed time
  ok (if pressed then record kbd { last_pressed_code = code } else kbd)
