-- ===== src/Parser/Sound/Passes.antt =====
-- src/config.c: a configuration that config_parse_string and config_init build serves the engine.
use keyd_fork.Common.{
  ℕ, ◌≡◌, refl, inl, inr, Bool, true, false, Option, none, some, List, [], ◌∷◌, arith, Option-cases,
  if_intro, Result, ◌>>=◌, Ensures, Ensures-bind, Ensures-ok, ok, aborted, out_of_fuel,
  null_pointer, done, aborts, starves,
}
use keyd_fork.Parser.Sound.Table.{quiet_Below}
use keyd_fork.Keyboard.Fuel.Descriptors.{IsNested}
use keyd_fork.Parser.Sound.Sections.{
  config_add_layer-Ensures, parse_id_section-Ensures, parse_alias_section-Ensures,
  parse_global_section-Ensures, same_arrays,
}
use keyd_fork.Parser.Init.{default_config, zero_config, default_times, config_init}
use keyd_fork.Parser.Sound.Binding.{config_add_entry-Ensures}
use keyd_fork.Keyboard.Invariant.{HasReleasedMacros}
use keyd_fork.Parser.Passes.{
  bind_section, bind_entries, declare_sections, config_parse_string, declare_section,
  config_parse_sections, entry_text, bind_sections, is_layer_section,
}
use keyd_fork.Config.{Config, Descriptor, unset_descriptor}
use keyd_fork.Macro.{Env}
use keyd_fork.Ini.Parse.{Entry, Section, ini_parse_string}
use keyd_fork.Text.CString.{tokens, codes, str_eq}
use keyd_fork.Parser.Sound.{Sound, OnSome, Sound-HasReleasedMacros, Sound-IsNested}

declare_section-Ensures : (c : Config) (s : Section) → Sound c → Ensures Sound (declare_section c s)
unfolding declare_section ◌>>=◌
declare_section-Ensures c s h =
    if_intro (Ensures Sound) (str_eq s.name (codes "ids")) (parse_id_section-Ensures c s.entries h)
      (if_intro (Ensures Sound) (str_eq s.name (codes "aliases"))
        (parse_alias_section-Ensures c s.entries h)
        (if_intro (Ensures Sound) (str_eq s.name (codes "global"))
          (parse_global_section-Ensures c s.entries h)
          (Ensures-bind _ (config_add_layer-Ensures c s.name h) (λ r x. done x))))

declare_sections-Ensures :
    (c : Config) (ss : List Section) → Sound c → Ensures Sound (declare_sections c ss)
unfolding declare_sections
declare_sections-Ensures c [] h = done h
declare_sections-Ensures c (s ∷ ss) h =
    Ensures-bind _ (declare_section-Ensures c s h) (λ c' h'. declare_sections-Ensures c' ss h')

module _ (env : Env) (junk : Descriptor) where
  bind_entries-Ensures :
      (c : Config) (layername : List ℕ) (es : List Entry)
      → Sound c
      → Ensures Sound (bind_entries env junk c layername es)
  unfolding bind_entries
  bind_entries-Ensures c layername [] h = done h
  bind_entries-Ensures c layername (e ∷ es) h = elim (Option-cases e.val) [
    | inl n ↦ rw (n, bind_entries) (bind_entries-Ensures c layername es h)
    | inr (val, n) ↦
        rw (n, bind_entries)
          (Ensures-bind _ (config_add_entry-Ensures env junk c (entry_text layername e.key val) h)
            (λ r x. bind_entries-Ensures r.1 layername es x))
  ]

  bind_section-Ensures :
      (c : Config) (s : Section) → Sound c → Ensures Sound (bind_section env junk c s)
  unfolding bind_section
  bind_section-Ensures c s h = of_layer (is_layer_section s)
    where
      named :
          (names : List (List ℕ))
          → Ensures Sound (elim names [
            | [] ↦ aborted null_pointer
            | layername ∷ _ ↦ bind_entries env junk c layername s.entries
          ])
      named [] = aborts
      named (n ∷ ns) = bind_entries-Ensures c n s.entries h

      of_layer :
          (b : Bool)
          → Ensures Sound (elim b [
            | false ↦ ok c
            | true ↦ elim (tokens 58 s.name) [
              | [] ↦ aborted null_pointer
              | layername ∷ _ ↦ bind_entries env junk c layername s.entries
            ]
          ])
      of_layer false = done h
      of_layer true = named (tokens 58 s.name)

  bind_sections-Ensures :
      (c : Config) (ss : List Section) → Sound c → Ensures Sound (bind_sections env junk c ss)
  unfolding bind_sections
  bind_sections-Ensures c [] h = done h
  bind_sections-Ensures c (s ∷ ss) h =
      Ensures-bind _ (bind_section-Ensures c s h) (λ c' h'. bind_sections-Ensures c' ss h')

  config_parse_string-Ensures :
      (c : Config) (content : List ℕ)
      → Sound c
      → Ensures (OnSome Sound) (config_parse_string env junk c content)
  unfolding config_parse_string config_parse_sections ◌>>=◌
  config_parse_string-Ensures c content h = read (ini_parse_string content none)
    where
      read :
          (r : Result (Option (List Section)))
          → Ensures (OnSome Sound) (
              r >>= (λ r. elim r [
                | none ↦ ok none
                | some sections ↦
                    (declare_sections c sections >>= (λ c'. bind_sections env junk c' sections))
                    >>= (λ c'. ok (some c'))
              ]))
      read (ok none) = done tt
      read (ok (some sections)) =
          Ensures-bind _
            (Ensures-bind _ (declare_sections-Ensures c sections h)
              (λ c' h'. bind_sections-Ensures c' sections h'))
            (λ c' h'. done h')
      read (aborted e) = aborts
      read out_of_fuel = starves

  pub config_parse_string-serves :
      (c : Config) (content : List ℕ) (c' : Config)
      → Sound c
      → config_parse_string env junk c content ≡ ok (some c')
      → HasReleasedMacros c'
        × ((layer code : ℕ) → IsNested c' c'.nr_descriptors ((c'.layers layer).keymap code))
  config_parse_string-serves c content c' h run =
      let s = Ensures-ok (config_parse_string-Ensures c content h) run in
      (
        Sound-HasReleasedMacros c' s,
        λ layer code.
            Sound-IsNested c' c'.nr_descriptors ((c'.layers layer).keymap code) s
              (s.keymaps layer code),
      )

pub zero_config-Sound : Sound zero_config
zero_config-Sound = record {
  playable = λ i. (refl, omega arith, tt);
  nested = λ i. quiet_Below i unset_descriptor refl;
  keymaps = λ l code. quiet_Below 0 unset_descriptor refl;
  chords = λ l. tt;
}

-- Where config_init returns, the configuration it built keeps every macro let go of what it holds, and
-- every descriptor referring to earlier ones only.
pub config_init-Sound :
    (env : Env) (junk : Descriptor) (c : Config) → config_init env junk ≡ ok c → Sound c
unfolding config_init
config_init-Sound env junk c run =
    Ensures-ok
      (Ensures-bind _
        (config_parse_string-Ensures env junk zero_config default_config zero_config-Sound) timed)
      run
  where
    timed :
        (r : Option Config)
        → OnSome Sound r
        → Ensures Sound (elim r [
          | none ↦ ok (default_times zero_config)
          | some config ↦ ok (default_times config)
        ])
    timed none x = done (same_arrays zero_config _ refl refl refl refl zero_config-Sound)
    timed (some c') x = done (same_arrays c' _ refl refl refl refl x)
