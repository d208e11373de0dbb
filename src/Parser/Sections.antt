-- ===== src/Parser/Sections.antt =====
-- src/config.c: parse_id_section, parse_alias_section, parse_global_section and
-- config_parse_string.
use keyd_fork.Text.CString.{codes, str_eq, has_prefix, signed_value, skip_space, atoi_16}
use keyd_fork.Keys.Names.{lookup_keycode}
use keyd_fork.Parser.Index.{id_mouse, id_keyboard, id_excluded}
use keyd_fork.Common.{
  ℕ, ◌+◌, ◌%◌, Bool, true, false, not, ◌&&◌, ◌||◌, none, some, List, [], ◌∷◌, ◌++◌, ltb, leb, ◌==◌,
  if◌then◌else◌, length, take, drop, update, Result, ◌>>=◌, ok, aborted, too_many_ids, null_pointer,
  negative_option,
}
use keyd_fork.Config.{Config, Op, Layer}
use keyd_fork.Ini.Parse.{Entry}

-- There is room for 64 ids of 63 bytes.
unfoldable pub add_id : Config → List ℕ → ℕ → Result Config
add_id config id flags =
    if ltb (length config.ids) 64
    then ok (record config { ids = config.ids ++ (record { id = take 63 id; flags = flags } ∷ []) })
    else aborted too_many_ids

unfoldable pub parse_id : Config → List ℕ → Result Config
unfolding add_id
parse_id config s =
    if str_eq s (42 ∷ [])
    then ok (record config { wildcard = true })
    else if has_prefix (codes "m:") s
    then add_id config (drop 2 s) id_mouse
    else if has_prefix (codes "k:") s
    then add_id config (drop 2 s) id_keyboard
    else if has_prefix (45 ∷ []) s
    then add_id config (drop 1 s) id_excluded
    else if ltb (length s) 63
    then add_id config s (id_keyboard + id_mouse)
    else ok config

unfoldable pub parse_id_section : Config → List Entry → Result Config
unfolding parse_id
parse_id_section config [] = ok config
parse_id_section config (e ∷ es) =
    parse_id config e.key >>= (λ config'. parse_id_section config' es)

-- The binding in the main layer of a key whose alias is a key's name.
unfoldable pub alias_key : Layer → ℕ → ℕ → Layer
alias_key layer code alias_code = if alias_code == 0 then layer else record layer {
  keymap =
      update layer.keymap code
        (record (layer.keymap code) { op = Op.keysequence; arg0 = alias_code; arg1 = 0 });
}

unfoldable pub set_alias : Config → ℕ → List ℕ → Config
unfolding alias_key
set_alias config code name = if leb 32 (length name) then config else record config {
  layers = update config.layers 0 (alias_key (config.layers 0) code (lookup_keycode name));
  aliases = update config.aliases code name;
}

-- An alias without a value is read at NULL.
unfoldable pub parse_alias : Config → Entry → Result Config
unfolding set_alias
parse_alias config e =
    let code = lookup_keycode e.key in
    if code == 0
    then ok config
    else (elim e.val [ none ↦ aborted null_pointer | some name ↦ ok (set_alias config code name) ])

unfoldable pub parse_alias_section : Config → List Entry → Result Config
unfolding parse_alias
parse_alias_section config [] = ok config
parse_alias_section config (e ∷ es) =
    parse_alias config e >>= (λ config'. parse_alias_section config' es)

-- `atoi` for a field that holds no negative number.
unfoldable pub atoi_positive : List ℕ → Result ℕ
atoi_positive s =
    let (negative, n) = signed_value (skip_space s) in
    if negative && not (n == 0) then aborted negative_option else ok n

unfoldable pub set_number : Config → List ℕ → ℕ → Config
set_number config key n =
    if str_eq key (codes "macro_timeout")
    then record config { macro_timeout = n }
    else if str_eq key (codes "macro_sequence_timeout")
    then record config { macro_sequence_timeout = n }
    else if str_eq key (codes "oneshot_timeout")
    then record config { oneshot_timeout = n }
    else if str_eq key (codes "chord_hold_timeout")
    then record config { chord_hold_timeout = n }
    else if str_eq key (codes "chord_timeout")
    then record config { chord_interkey_timeout = n }
    else if str_eq key (codes "macro_repeat_timeout")
    then record config { macro_repeat_timeout = n }
    else if str_eq key (codes "overload_tap_timeout")
    then record config { overload_tap_timeout = n }
    else config

-- The options that set_number knows.
abbrev pub number_options : List (List ℕ)
number_options =
    codes "macro_timeout"
    ∷ codes "macro_sequence_timeout"
    ∷ codes "oneshot_timeout"
    ∷ codes "chord_hold_timeout"
    ∷ codes "chord_timeout"
    ∷ codes "macro_repeat_timeout"
    ∷ codes "overload_tap_timeout"
    ∷ []

abbrev pub is_one_of : List ℕ → List (List ℕ) → Bool
is_one_of s [] = false
is_one_of s (t ∷ ts) = str_eq s t || is_one_of s ts

-- An option that is known and has a value.
unfoldable pub set_option : Config → List ℕ → List ℕ → Result Config
unfolding set_number atoi_positive
set_option config key val =
    if is_one_of key number_options
    then (do n ← atoi_positive val; ok (set_number config key n))
    else if str_eq key (codes "disable_modifier_guard")
    then ok (record config { disable_modifier_guard = not (atoi_16 val % 256 == 0) })
    else if str_eq key (codes "default_layout")
    then ok (record config { default_layout = take 63 val })
    else if str_eq key (codes "layer_indicator")
    then ok (record config { layer_indicator = atoi_16 val % 256 })
    else ok config

abbrev pub other_options : List (List ℕ)
other_options =
    codes "disable_modifier_guard" ∷ codes "default_layout" ∷ codes "layer_indicator" ∷ []

-- An option without a value is read at NULL, unless its name is unknown.
unfoldable pub parse_global : Config → Entry → Result Config
unfolding set_option
parse_global config e = elim e.val [
  | some val ↦ set_option config e.key val
  | none ↦
      if is_one_of e.key number_options || is_one_of e.key other_options
      then aborted null_pointer
      else ok config
]

unfoldable pub parse_global_section : Config → List Entry → Result Config
unfolding parse_global
parse_global_section config [] = ok config
parse_global_section config (e ∷ es) =
    parse_global config e >>= (λ config'. parse_global_section config' es)
