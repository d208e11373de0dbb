-- ===== src/Parser/Init.antt =====
-- src/config.c: config_init.
pub mod Returns
use keyd_fork.Text.CString.{codes}
use keyd_fork.Parser.Passes.{config_parse_string}
use keyd_fork.Macro.{Env}
use keyd_fork.Common.{ℕ, false, none, some, List, [], ◌∷◌, ◌++◌, Result, ◌>>=◌, ok}
use keyd_fork.Config.{Config, LayerType, Layer, unset_descriptor, Descriptor}

-- The text, line by line.
abbrev default_lines : List (List ℕ)
default_lines =
    codes "[aliases]"
    ∷ codes "leftshift = shift"
    ∷ codes "rightshift = shift"
    ∷ codes "leftalt = alt"
    ∷ codes "rightalt = altgr"
    ∷ codes "leftmeta = meta"
    ∷ codes "rightmeta = meta"
    ∷ codes "leftcontrol = control"
    ∷ codes "rightcontrol = control"
    ∷ codes "[main]"
    ∷ codes "shift = layer(shift)"
    ∷ codes "alt = layer(alt)"
    ∷ codes "altgr = layer(altgr)"
    ∷ codes "meta = layer(meta)"
    ∷ codes "control = layer(control)"
    ∷ codes "[control:C]"
    ∷ codes "[shift:S]"
    ∷ codes "[meta:M]"
    ∷ codes "[alt:A]"
    ∷ codes "[altgr:G]"
    ∷ []

abbrev pub join_lines : List (List ℕ) → List ℕ
join_lines [] = []
join_lines (l ∷ ls) = l ++ (10 ∷ join_lines ls)

abbrev pub default_config : List ℕ
default_config = join_lines default_lines

abbrev zero_layer : Layer
zero_layer = record {
  name = [];
  type = LayerType.normal;
  mods = 0;
  keymap = λ _. unset_descriptor;
  chords = [];
  constituents = [];
}

-- `memset` with 0.
abbrev pub zero_config : Config
zero_config = record {
  layers = λ _. zero_layer;
  descriptors = λ _. unset_descriptor;
  macros = λ _. [];
  commands = λ _. [];
  aliases = λ _. [];
  wildcard = false;
  ids = [];
  nr_layers = 0;
  nr_macros = 0;
  nr_descriptors = 0;
  nr_commands = 0;
  macro_timeout = 0;
  macro_sequence_timeout = 0;
  macro_repeat_timeout = 0;
  oneshot_timeout = 0;
  overload_tap_timeout = 0;
  chord_interkey_timeout = 0;
  chord_hold_timeout = 0;
  layer_indicator = 0;
  disable_modifier_guard = false;
  default_layout = [];
}

abbrev pub default_times : Config → Config
default_times config = record config {
  chord_interkey_timeout = 50;
  chord_hold_timeout = 0;
  oneshot_timeout = 0;
  macro_timeout = 600;
  macro_repeat_timeout = 50;
}

-- The result of the parser is not looked at.
unfoldable pub config_init : Env → Descriptor → Result Config
unfolding config_parse_string
config_init env junk = do
  r ← config_parse_string env junk zero_config default_config
  elim r [ none ↦ ok (default_times zero_config) | some config ↦ ok (default_times config) ]
