-- ===== src/Parser/Passes.antt =====
-- src/config.c: config_parse_string, behind ini_parse_string, and config_init.
use keyd_fork.Text.CString.{codes, tokens, str_eq}
use keyd_fork.Macro.{Env}
use keyd_fork.Parser.Layers.{config_add_layer}
use keyd_fork.Parser.Entry.{config_add_entry}
use keyd_fork.Parser.Sections.{parse_global_section, parse_id_section, parse_alias_section}
use keyd_fork.Common.{
  ℕ, Bool, true, false, not, ◌||◌, Option, none, some, List, [], ◌∷◌, ◌++◌, if◌then◌else◌, take,
  Result, ◌>>=◌, ok, aborted, null_pointer,
}
use keyd_fork.Config.{Config, Descriptor}
use keyd_fork.Ini.Parse.{Entry, Section, ini_parse_string}

-- The first pass: one section.
unfoldable pub declare_section : Config → Section → Result Config
declare_section config section =
    if str_eq section.name (codes "ids")
    then parse_id_section config section.entries
    else if str_eq section.name (codes "aliases")
    then parse_alias_section config section.entries
    else if str_eq section.name (codes "global")
    then parse_global_section config section.entries
    else (do (added, config') ← config_add_layer config section.name; ok config')

unfoldable pub declare_sections : Config → List Section → Result Config
unfolding declare_section
declare_sections config [] = ok config
declare_sections config (s ∷ ss) =
    declare_section config s >>= (λ config'. declare_sections config' ss)

-- `snprintf` into 512 bytes.
unfoldable pub entry_text : List ℕ → List ℕ → List ℕ → List ℕ
entry_text layername key val = take 511 (layername ++ (codes "." ++ (key ++ (codes " = " ++ val))))

unfoldable pub is_layer_section : Section → Bool
is_layer_section section = not (
    str_eq section.name (codes "ids")
    || (str_eq section.name (codes "aliases") || str_eq section.name (codes "global")))

module _ (env : Env) (junk : Descriptor) where
  -- The entries of a layer's section. One that is not added leaves what its descriptor added.
  unfoldable pub bind_entries : Config → List ℕ → List Entry → Result Config
  unfolding entry_text
  bind_entries config layername [] = ok config
  bind_entries config layername (e ∷ es) = elim e.val [
    | none ↦ bind_entries config layername es
    | some val ↦ (do
      (added, config') ← config_add_entry env junk config (entry_text layername e.key val)
      bind_entries config' layername es)
  ]

  -- The second pass. A section that is all colons has no name to print.
  unfoldable pub bind_section : Config → Section → Result Config
  unfolding bind_entries is_layer_section
  bind_section config section = elim (is_layer_section section) [
    | false ↦ ok config
    | true ↦ elim (tokens 58 section.name) [
      | [] ↦ aborted null_pointer
      | layername ∷ _ ↦ bind_entries config layername section.entries
    ]
  ]

  unfoldable pub bind_sections : Config → List Section → Result Config
  unfolding bind_section
  bind_sections config [] = ok config
  bind_sections config (s ∷ ss) = bind_section config s >>= (λ config'. bind_sections config' ss)

  unfoldable pub config_parse_sections : Config → List Section → Result Config
  unfolding declare_sections bind_sections
  config_parse_sections config sections =
      declare_sections config sections >>= (λ config'. bind_sections config' sections)

  -- The result 0 or -1.
  unfoldable pub config_parse_string : Config → List ℕ → Result (Option Config)
  unfolding config_parse_sections
  config_parse_string config content = do
    r ← ini_parse_string content none
    elim r [
      | none ↦ ok none
      | some sections ↦ (do config' ← config_parse_sections config sections; ok (some config'))
    ]
