-- ===== src/Keyboard/Send.antt =====
-- src/keyboard.c: keys sent to the virtual device, and the modifiers that follow the layers.
pub mod Keystate
use keyd_fork.Common.{
  ℕ, ◌/◌, ◌%◌, bit_and, bit_or, Bool, true, false, not, ◌&&◌, ◌||◌, Option, none, some, List, [],
  ◌∷◌, ◌==◌, if◌then◌else◌, update, range, elem,
}
use keyd_fork.Config.{Config, MacroType, Macro, is_composite}
use keyd_fork.Keys.{
  Modifier, modifiers, keyd_noop, keyd_external_mouse_button, keyd_leftctrl, keyd_leftmeta,
  keyd_leftalt, keyd_rightalt,
}
use keyd_fork.Keyboard.State.{Keyboard, put_all}
use keyd_fork.Macro.{Env, macro_execute}
use keyd_fork.Output.{key}

-- The body of the loop of `reset_keystate`.
unfoldable pub reset_key : Keyboard → ℕ → Keyboard
reset_key kbd i =
    if kbd.keystate i
    then record kbd { out = key i false ∷ kbd.out; keystate = update kbd.keystate i false }
    else kbd

unfoldable pub reset_keys : Keyboard → List ℕ → Keyboard
unfolding reset_key
reset_keys kbd [] = kbd
reset_keys kbd (i ∷ is) = reset_keys (reset_key kbd i) is

unfoldable pub reset_keystate : Keyboard → Keyboard
unfolding reset_keys
reset_keystate kbd = reset_keys kbd (range 256)

same : Bool → Bool → Bool
same true b = b
same false b = not b

unfoldable pub send_key : Keyboard → ℕ → Bool → Keyboard
unfolding same
send_key kbd code pressed =
    let last = if pressed then code else kbd.last_pressed_output_code in
    if code == keyd_noop || code == keyd_external_mouse_button
    then kbd
    else if same (kbd.keystate code) pressed
    then record kbd { last_pressed_output_code = last }
    else record kbd {
      last_pressed_output_code = last;
      keystate = update kbd.keystate code pressed;
      out = key code pressed ∷ kbd.out;
    }

-- The condition `guard` of `clear_mod`.
unfoldable pub is_guarded : Keyboard → ℕ → Bool
is_guarded kbd code =
    kbd.last_pressed_output_code == code
    && (code == keyd_leftmeta || code == keyd_leftalt || code == keyd_rightalt)
    && not kbd.inhibit_modifier_guard
    && not kbd.config.disable_modifier_guard

unfoldable pub clear_mod : Keyboard → ℕ → Keyboard
unfolding is_guarded
clear_mod kbd code =
    if is_guarded kbd code && not (kbd.keystate keyd_leftctrl)
    then send_key (send_key (send_key kbd keyd_leftctrl true) code false) keyd_leftctrl false
    else send_key kbd code false

abbrev pub has_mod : ℕ → ℕ → Bool
has_mod mask mods = not (bit_and mask mods == 0)

-- The body of the loop of `set_mods`.
unfoldable pub set_mod : Keyboard → ℕ → Modifier → Keyboard
set_mod kbd mods m =
    if has_mod m.mask mods
    then (if kbd.keystate m.key then kbd else send_key kbd m.key true)
    else if kbd.keystate m.key
    then clear_mod kbd m.key
    else kbd

unfoldable pub set_mods_loop : Keyboard → ℕ → List Modifier → Keyboard
unfolding set_mod
set_mods_loop kbd mods [] = kbd
set_mods_loop kbd mods (m ∷ ms) = set_mods_loop (set_mod kbd mods m) mods ms

unfoldable pub set_mods : Keyboard → ℕ → Keyboard
unfolding set_mods_loop
set_mods kbd mods = set_mods_loop kbd mods modifiers

-- Whether layer `i` is the excluded layer, or a constituent of it.
unfoldable pub is_excluded : Config → Option ℕ → ℕ → Bool
is_excluded config none i = false
is_excluded config (some x) i =
    i == x || (is_composite (config.layers x).type && elem i (config.layers x).constituents)

-- The loop of `update_mods`, over the layers of a list.
unfoldable pub collect_mods : Keyboard → Option ℕ → ℕ → List ℕ → ℕ
unfolding is_excluded
collect_mods kbd excluded mods [] = mods
collect_mods kbd excluded mods (i ∷ is) =
    collect_mods kbd excluded
      (if (kbd.layer_state i).active == 0 || is_excluded kbd.config excluded i
        then mods
        else bit_or mods (kbd.config.layers i).mods)
      is

-- `excluded` is `none` for the index -1.
unfoldable pub update_mods : Keyboard → Option ℕ → ℕ → Keyboard
unfolding collect_mods
update_mods kbd excluded mods =
    set_mods kbd (collect_mods kbd excluded mods (range kbd.config.nr_layers))

-- The data of a macro that is one key sequence.
unfoldable pub key_sequence : Macro → Option ℕ
key_sequence (e ∷ []) = elim e.type [ MacroType.keysequence ↦ some e.data' | _ ↦ none ]
key_sequence _ = none

unfoldable pub execute_macro : Env → Keyboard → ℕ → Macro → Keyboard
unfolding key_sequence
execute_macro env kbd dl macro = elim (key_sequence macro) [
  | some d ↦
      send_key (send_key (update_mods kbd (some dl) (d / 256)) (d % 256) true) (d % 256) false
  | none ↦
      put_all (update_mods kbd (some dl) 0)
        (macro_execute env macro kbd.config.macro_sequence_timeout)
]
