-- ===== src/Tests/Parser.antt =====
-- Witnesses of the theorems on src/keys.c, src/macro.c and src/config.c, on small texts.
use keyd_fork.Common.{
  ℕ, ◌≡◌, refl, ◌≢◌, Bool, true, false, Option, none, some, List, [], ◌∷◌, ◌++◌, arith,
  if◌then◌else◌, get_elem?, update, elem, All, Result, ◌>>=◌, ok, out_of_fuel,
}
use keyd_fork.Parser.File.Serves.{config_parse-lines}
use keyd_fork.Parser.File.Plain.{IsPlain, IsText}
use keyd_fork.Parser.File.{Files, config_parse}
use keyd_fork.Parser.Entry.Bound.{set_layer_entry-keymap, names_key}
use keyd_fork.Output.{is_down}
use keyd_fork.Keyboard.Send.{reset_keystate}
use keyd_fork.Tests.Engine.{run_on-ok, is_ok, timeout_of, run_on, nav_events, finished}
use keyd_fork.Parser.Sound.Engine.{parsed_engine-reset}
use keyd_fork.Parser.Index.Match.{config_check_match-first}
use keyd_fork.Parser.Init.{zero_config, config_init, join_lines}
use keyd_fork.Ini.{parse_kvp}
use keyd_fork.Parser.Sound.Passes.{zero_config-Sound}
use keyd_fork.Keys.Names.Bounds.{parse_key_sequence-IsCode, IsCode}
use keyd_fork.Parser.Layers.{config_add_layer, plain_layer, new_layer}
use keyd_fork.Parser.Sections.{parse_id, add_id, parse_id_section}
use keyd_fork.Parser.Index.{config_get_layer_index, find_layer, config_check_match}
use keyd_fork.Parser.Passes.{
  config_parse_sections, declare_section, config_parse_string, is_layer_section, bind_section,
  declare_sections, bind_entries, bind_sections,
}
use keyd_fork.Parser.Entry.{set_aliased, set_layer_entry, set_key}
use keyd_fork.Text.Utf8.{Utf8}
use keyd_fork.Keys.Table.{Keycode}
use keyd_fork.Ini.Parse.{
  parse_line, lines_from, trim_end, add_section, parse_entry, parse_lines, ini_parse_string,
}
use keyd_fork.Parser.Sound.{Sound}
use keyd_fork.Text.Timeval.{is_timeval}
use keyd_fork.Keys.Table.{keycodes_2, keycodes_3, keycodes_1, keycode_table, keycodes_4}
use keyd_fork.Macro.Parse.Sound.{macro_parse-IsPlayable, IsPlayable}
use keyd_fork.Macro.Parse.Fuel.{macro_parse-terminates}
use keyd_fork.Macro.Parse.{add_token, macro_parse, add_tokens, add_entry}
use keyd_fork.Keys.Names.Roundtrip.{parse_modset-modstring, parse_key_sequence-print}
use keyd_fork.Keys.Names.{
  modstring, parse_modset, find_key, find_sequence, parse_key_sequence, drop_last, mod_letters,
  lookup_keycode,
}
use keyd_fork.Config.{MacroType, Macro, LayerType, Layer, Config, Descriptor, Op, unset_descriptor}
use keyd_fork.Text.CString.{
  codes, tokens, str_eq, has_prefix, last_byte, is_space, skip_space, atoi_16,
}
use keyd_fork.Keys.Names.{find_keycode}
use keyd_fork.Tests.{env}

parse_modset-modstring_example : parse_modset (modstring 12) ≡ some 12
parse_modset-modstring_example = parse_modset-modstring 12 (omega arith)

-- A macro that the parser accepts: a pause.
abbrev pause_macro : Macro
pause_macro = record { type = MacroType.timeout; data' = 20 } ∷ []

pause_parsed : macro_parse env (codes "20ms") ≡ ok (some pause_macro)
unfolding macro_parse add_tokens add_token tokens ◌>>=◌ parse_key_sequence find_sequence find_key
    keycode_table keycodes_1 keycodes_2 keycodes_3 keycodes_4 is_timeval atoi_16 add_entry
pause_parsed = refl

macro_parse-IsPlayable_example : IsPlayable pause_macro
macro_parse-IsPlayable_example = macro_parse-IsPlayable env (codes "20ms") pause_macro pause_parsed

macro_parse-terminates_example : macro_parse env (codes "20ms") ≢ out_of_fuel
macro_parse-terminates_example = macro_parse-terminates env (codes "20ms")

-- "-" with control and shift.
abbrev minus_key : Keycode
minus_key = record {
  code = 12;
  name = (45 ∷ []);
  alt_name = some (codes "minus");
  shifted_name = some (codes "_");
}

minus_entry : get_elem? keycode_table 11 ≡ some minus_key
unfolding keycode_table
minus_entry = refl

parse_key_sequence-print_example : parse_key_sequence (mod_letters 5 ++ (45 ∷ [])) ≡ some (12, 5)
parse_key_sequence-print_example = parse_key_sequence-print 11 5 minus_key minus_entry (omega arith)

parse_key_sequence-IsCode_example : IsCode 12
parse_key_sequence-IsCode_example =
    parse_key_sequence-IsCode (mod_letters 5 ++ (45 ∷ [])) 12 5
      (parse_key_sequence-print 11 5 minus_key minus_entry (omega arith))

abbrev main_layer : Layer
main_layer = record {
  name = codes "main";
  type = LayerType.normal;
  mods = 0;
  keymap = λ _. unset_descriptor;
  chords = [];
  constituents = [];
}

abbrev with_main : Config
with_main = record zero_config { layers = update zero_config.layers 0 main_layer; nr_layers = 1 }

-- A binding that adds two descriptors.
abbrev binding : List ℕ
binding = codes "main.a = timeout(b, 20, C-c)"

abbrev after : Result (Bool × Config) → Config
after (ok (b, c)) = c
after _ = zero_config

abbrev text : List ℕ
text = codes "[ids]" ++ (10 ∷ (codes "k:1" ++ (10 ∷ (codes "[main]" ++ (10 ∷ codes "[nav:S]")))))

abbrev parsed_config : Result (Option Config) → Config
parsed_config (ok (some c)) = c
parsed_config _ = zero_config

text_parsed :
    config_parse_string env unset_descriptor zero_config text
    ≡ ok (some (parsed_config (config_parse_string env unset_descriptor zero_config text)))
unfolding config_parse_string ini_parse_string parse_lines parse_line lines_from trim_end skip_space
    is_space last_byte drop_last add_section parse_entry parse_kvp config_parse_sections
    declare_sections bind_sections bind_section bind_entries is_layer_section declare_section
    config_add_layer new_layer plain_layer parse_modset config_get_layer_index find_layer str_eq
    tokens parse_id_section parse_id add_id has_prefix ◌>>=◌
text_parsed = refl

abbrev parsed_text : Config
parsed_text = parsed_config (config_parse_string env unset_descriptor zero_config text)

-- A mouse that a prefix of its id excludes, before the wildcard.
abbrev excluding : Config
excluding = record zero_config {
  wildcard = true;
  ids = record { id = codes "046d:c5"; flags = 1 } ∷ record { id = codes "046d"; flags = 2 } ∷ [];
}

config_check_match-first_example : config_check_match excluding (codes "046d:c52b") 2 ≡ 0
unfolding has_prefix
config_check_match-first_example = config_check_match-first excluding (codes "046d:c52b") 2

text_runs : is_ok (run_on parsed_text) ≡ true
unfolding run_on config_parse_string ini_parse_string parse_lines parse_line lines_from trim_end
    skip_space is_space last_byte drop_last add_section parse_entry parse_kvp config_parse_sections
    declare_sections bind_sections bind_section bind_entries is_layer_section declare_section
    config_add_layer new_layer plain_layer parse_modset config_get_layer_index find_layer str_eq
    tokens parse_id_section parse_id add_id has_prefix ◌>>=◌
text_runs = refl

parsed_engine-reset_example :
    is_down (reset_keystate (finished (run_on parsed_text))).out 57 ≡ false
parsed_engine-reset_example =
    parsed_engine-reset env unset_descriptor zero_config parsed_text text 1 8 nav_events
      (timeout_of (run_on parsed_text)) (finished (run_on parsed_text)) zero_config-Sound
      text_parsed (run_on-ok parsed_text text_runs) 57 (omega arith)

abbrev escape_key : Descriptor
escape_key = record { op = Op.keysequence; arg0 = 1; arg1 = 0; arg2 = 0 }

abbrev layer_of : Option Layer → Layer
layer_of (some layer) = layer
layer_of none = main_layer

abbrev rebound : Layer
rebound = layer_of (set_layer_entry with_main main_layer (codes "a") escape_key)

a_rebound : set_layer_entry with_main main_layer (codes "a") escape_key ≡ some rebound
unfolding set_layer_entry set_key set_aliased str_eq lookup_keycode find_keycode keycode_table
    keycodes_1 keycodes_2 keycodes_3 keycodes_4
a_rebound = refl

set_layer_entry-keymap_example :
    rebound.keymap 30
    ≡ (if names_key with_main (codes "a") 30 then escape_key else main_layer.keymap 30)
set_layer_entry-keymap_example =
    set_layer_entry-keymap with_main main_layer rebound (codes "a") escape_key refl a_rebound 30

-- A directory with one file.
abbrev file_lines : List (List ℕ)
file_lines = codes "[main]" ∷ codes "a = b" ∷ []

abbrev files : Files
files = record {
  fopen =
      λ path. if str_eq path (codes "/etc/keyd/a.conf") then some (join_lines file_lines) else none;
  open_read = λ _. none;
  access = λ _. false;
  dirname = λ _. codes "/etc/keyd";
  data_dir = codes "/usr/share/keyd";
}

a_conf_opens : files.fopen (codes "/etc/keyd/a.conf") ≡ some (join_lines file_lines)
unfolding str_eq
a_conf_opens = refl

text_bytes : (s : List ℕ) → elem 0 s ≡ false → elem 10 s ≡ false → All IsText s
text_bytes [] h k = tt
text_bytes (c ∷ s) h k = ((ground arith, ground arith), text_bytes s (ground arith) (ground arith))

file_lines-IsPlain : All IsPlain file_lines
unfolding has_prefix
file_lines-IsPlain = (
  record { text = text_bytes (codes "[main]") refl refl; short = omega arith; no_include = refl },
  (
    record { text = text_bytes (codes "a = b") refl refl; short = omega arith; no_include = refl },
    tt,
  ),
)

config_parse-lines_example :
    (c : Config) × (config_init env unset_descriptor ≡ ok c)
    × (config_parse files env unset_descriptor (codes "/etc/keyd/a.conf")
        ≡ config_parse_string env unset_descriptor c (join_lines file_lines))
config_parse-lines_example =
    config_parse-lines files env unset_descriptor (codes "/etc/keyd/a.conf") file_lines
      file_lines-IsPlain (omega arith) a_conf_opens
