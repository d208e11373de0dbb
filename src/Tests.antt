-- ===== src/Tests.antt =====
-- A small configuration, and the tests of the model on it.
mod Engine
mod Witnesses
mod Daemon
mod Strings
mod Parser
use keyd_fork.Common.{ℕ, ◌-◌, Bool, false, some, List, [], ◌∷◌, ◌==◌, if◌then◌else◌}
use keyd_fork.Config.{Op, Descriptor, Chord, Layer, LayerType, Config, unset_descriptor}
use keyd_fork.Keyboard.State.{KeyEvent}
use keyd_fork.Macro.{Env}

abbrev env : Env
env = record {
  unicode_get_sequence = λ _. 1 ∷ 2 ∷ 3 ∷ 4 ∷ [];
  unicode_lookup_index = λ c. some (c - 100);
}

-- capslock = overload(control, esc), a second layer that binds h to left.
abbrev main_keymap : ℕ → Descriptor
main_keymap code =
    if code == 58
    then record { op = Op.overload; arg0 = 1; arg1 = 0; arg2 = 0 }
    else if code == 57
    then record { op = Op.layer; arg0 = 2; arg1 = 0; arg2 = 0 }
    else unset_descriptor

abbrev nav_keymap : ℕ → Descriptor
nav_keymap code =
    if code == 35
    then record { op = Op.keysequence; arg0 = 105; arg1 = 0; arg2 = 0 }
    else unset_descriptor

abbrev plain : (ℕ → Descriptor) → ℕ → List Chord → Layer
plain keymap mods chords = record {
  name = [];
  type = LayerType.normal;
  mods = mods;
  keymap = keymap;
  chords = chords;
  constituents = [];
}

abbrev chord_jk : Chord
chord_jk = record {
  keys = 36 ∷ 37 ∷ [];
  d = record { op = Op.keysequence; arg0 = 1; arg1 = 0; arg2 = 0 };
}

abbrev layers : ℕ → Layer
layers i =
    if i == 0
    then plain main_keymap 0 (chord_jk ∷ [])
    else if i == 1
    then plain (λ _. unset_descriptor) 8 []
    else plain nav_keymap 0 []

abbrev config : Config
config = record {
  layers = layers;
  descriptors = λ _. record { op = Op.keysequence; arg0 = 1; arg1 = 0; arg2 = 0 };
  macros = λ _. [];
  commands = λ _. [];
  aliases = λ _. [];
  wildcard = false;
  ids = [];
  nr_layers = 3;
  nr_macros = 0;
  nr_descriptors = 1;
  nr_commands = 0;
  macro_timeout = 600;
  macro_sequence_timeout = 0;
  macro_repeat_timeout = 50;
  oneshot_timeout = 0;
  overload_tap_timeout = 0;
  chord_interkey_timeout = 50;
  chord_hold_timeout = 0;
  layer_indicator = 0;
  disable_modifier_guard = false;
  default_layout = [];
}

abbrev event : ℕ → Bool → ℕ → KeyEvent
event code pressed time = record { code = code; pressed = pressed; timestamp = time }
