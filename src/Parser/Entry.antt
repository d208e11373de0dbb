-- ===== src/Parser/Entry.antt =====
-- src/config.c: layer_lookup_chord, set_layer_entry and config_add_entry; src/keyboard.c: kbd_eval.
pub mod Bound
use keyd_fork.Common.{
  ℕ, suc, Bool, true, false, not, ◌&&◌, Option, none, some, List, [], ◌∷◌, ◌++◌, ltb, leb, ◌==◌,
  if◌then◌else◌, length, modify, take, drop, update, range, elem, Result, ◌>>=◌, ok,
}
use keyd_fork.Macro.{Env}
use keyd_fork.Parser.Index.{config_get_layer_index}
use keyd_fork.Keys.Names.{lookup_keycode}
use keyd_fork.Parser.Descriptor.{parse_descriptor}
use keyd_fork.Ini.{parse_kvp}
use keyd_fork.Text.CString.{codes, tokens, str_eq}
use keyd_fork.Config.{Config, Descriptor, Chord, Layer}

-- How many of the keys a chord has.
unfoldable pub count_keys : List ℕ → List ℕ → ℕ
count_keys [] chord_keys = 0
count_keys (k ∷ ks) chord_keys =
    let rest = count_keys ks chord_keys in if elem k chord_keys then suc rest else rest

-- The first chord with all the keys, at its index from `i` on.
unfoldable pub find_chord : List ℕ → ℕ → List Chord → Option ℕ
unfolding count_keys
find_chord keys i [] = none
find_chord keys i (c ∷ cs) =
    let rest = find_chord keys (suc i) cs in
    if count_keys keys c.keys == length keys then some i else rest

unfoldable pub layer_lookup_chord : Layer → List ℕ → Option ℕ
unfolding find_chord
layer_lookup_chord layer keys = find_chord keys 0 layer.chords

-- The loop over the keys of a chord.
unfoldable pub chord_keys : List ℕ → List (List ℕ) → Option (List ℕ)
chord_keys keys [] = some keys
chord_keys keys (t ∷ ts) =
    let code = lookup_keycode t in
    elim (code == 0) [
      | true ↦ none
      | false ↦ elim (ltb (length keys) 8) [
        | false ↦ none
        | true ↦ chord_keys (keys ++ (code ∷ [])) ts
      ]
    ]

unfoldable pub set_chord : Layer → List ℕ → Descriptor → Option Layer
unfolding layer_lookup_chord
set_chord layer keys d = elim (layer_lookup_chord layer keys) [
  | some i ↦ some (record layer { chords = modify layer.chords i (λ c. record c { d = d }) })
  | none ↦
      if ltb (length layer.chords) 64
      then some (record layer { chords = layer.chords ++ (record { keys = keys; d = d } ∷ []) })
      else none
]

-- The loop over the aliases: the keymap, and `found`.
unfoldable pub set_aliased :
    (ℕ → List ℕ) → List ℕ → Descriptor → List ℕ → (ℕ → Descriptor) × Bool → (ℕ → Descriptor) × Bool
set_aliased aliases key d [] r = r
set_aliased aliases key d (i ∷ is) (keymap, found) =
    set_aliased aliases key d is
      (if str_eq (aliases i) key then (update keymap i d, true) else (keymap, found))

unfoldable pub set_key : Config → Layer → List ℕ → Descriptor → Option Layer
unfolding set_aliased
set_key config layer key d =
    let (keymap, found) = set_aliased config.aliases key d (range 256) (layer.keymap, false) in
    let code = lookup_keycode key in
    if found
    then some (record layer { keymap = keymap })
    else if code == 0
    then none
    else some (record layer { keymap = update layer.keymap code d })

unfoldable pub set_layer_entry : Config → Layer → List ℕ → Descriptor → Option Layer
unfolding chord_keys set_chord set_key
set_layer_entry config layer key d =
    if elem 43 key
    then (elim (chord_keys [] (tokens 43 key)) [ none ↦ none | some keys ↦ set_chord layer keys d ])
    else set_key config layer key d

-- `strchr`: the index of the first byte of the kind.
unfoldable pub find_byte : ℕ → ℕ → List ℕ → Option ℕ
find_byte b i [] = none
find_byte b i (c ∷ s) = let rest = find_byte b (suc i) s in if c == b then some i else rest

-- The layer's name is what is in front of a dot, unless the dot comes first or behind a parenthesis.
unfoldable pub is_layer_dot : ℕ → Option ℕ → Bool
is_layer_dot dot none = not (dot == 0)
is_layer_dot dot (some paren) = not (dot == 0) && ltb dot paren

unfoldable pub split_layer : List ℕ → List ℕ × List ℕ
unfolding find_byte is_layer_dot
split_layer s = elim (find_byte 46 0 s) [
  | none ↦ (codes "main", s)
  | some dot ↦
      if is_layer_dot dot (find_byte 40 0 s)
      then (take dot s, drop (suc dot) s)
      else (codes "main", s)
]

-- How deep expressions of fewer than 512 bytes can nest.
abbrev pub parse_fuel : ℕ
parse_fuel = 600

module _ (env : Env) (junk : Descriptor) where
  -- The binding `key = val` of the layer `idx`.
  unfoldable pub add_binding : Config → ℕ → List ℕ → Option (List ℕ) → Result (Bool × Config)
  add_binding config idx key val =
      parse_descriptor env parse_fuel junk val config >>= (λ (r, config'). elim r [
        | none ↦ ok (false, config')
        | some d ↦ elim (set_layer_entry config' (config'.layers idx) key d) [
          | none ↦ ok (false, config')
          | some layer ↦ ok (true, record config' { layers = update config'.layers idx layer })
        ]
      ])

  unfoldable pub config_add_entry : Config → List ℕ → Result (Bool × Config)
  unfolding add_binding split_layer
  config_add_entry config exp = elim (leb 512 (length exp)) [
    | true ↦ ok (false, config)
    | false ↦
        let (layername, s) = split_layer exp in
        let (key, val) = parse_kvp s in
        elim (config_get_layer_index config (some layername)) [
          | none ↦ ok (false, config)
          | some idx ↦ add_binding config idx key val
        ]
  ]

  -- The configuration of the keyboard, and the one it started with.
  unfoldable pub kbd_eval : Config → Config → List ℕ → Result (Bool × Config)
  unfolding config_add_entry
  kbd_eval original config exp =
      if str_eq exp (codes "reset") then ok (true, original) else config_add_entry config exp
