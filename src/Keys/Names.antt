-- ===== src/Keys/Names.antt =====
-- src/keys.c: modstring, parse_modset and parse_key_sequence; src/config.c: lookup_keycode.
pub mod Roundtrip
pub mod Bounds
use keyd_fork.Common.{
  ℕ, bit_and, bit_or, Bool, true, false, ◌||◌, Option, none, some, List, [], ◌∷◌, ◌++◌, ◌==◌,
  if◌then◌else◌,
}
use keyd_fork.Keys.{mod_ctrl, mod_super, mod_alt_gr, mod_shift, mod_alt}
use keyd_fork.Keys.Table.{Keycode, keycode_table}
use keyd_fork.Text.CString.{str_eq}

-- A letter and its dash, for a modifier that is set.
unfoldable pub mod_letter : ℕ → ℕ → ℕ → List ℕ
mod_letter mods mask letter = if bit_and mask mods == 0 then [] else letter ∷ 45 ∷ []

-- `s[i-1] = 0`.
unfoldable pub drop_last : List ℕ → List ℕ
drop_last [] = []
drop_last (c ∷ []) = []
drop_last (c ∷ d ∷ s) = c ∷ drop_last (d ∷ s)

-- The letters, each with its dash.
unfoldable pub mod_letters : ℕ → List ℕ
unfolding mod_letter
mod_letters mods =
    mod_letter mods mod_ctrl 67
    ++ (mod_letter mods mod_super 77
        ++ (mod_letter mods mod_alt_gr 71
            ++ (mod_letter mods mod_shift 83 ++ mod_letter mods mod_alt 65)))

unfoldable pub modstring : ℕ → List ℕ
unfolding mod_letters drop_last
modstring mods = drop_last (mod_letters mods)

-- The `switch` on a letter.
unfoldable pub mod_mask : ℕ → Option ℕ
mod_mask c =
    if c == 67
    then some mod_ctrl
    else if c == 77
    then some mod_super
    else if c == 65
    then some mod_alt
    else if c == 83
    then some mod_shift
    else if c == 71
    then some mod_alt_gr
    else none

-- `none` is the result -1.
unfoldable pub modset_from : ℕ → List ℕ → Option ℕ
unfolding mod_mask
modset_from mods [] = some mods
modset_from mods (c ∷ []) = elim (mod_mask c) [ none ↦ none | some m ↦ some (bit_or mods m) ]
modset_from mods (c ∷ d ∷ s) = elim (mod_mask c) [
  | none ↦ none
  | some m ↦ elim (d == 45) [ false ↦ none | true ↦ modset_from (bit_or mods m) s ]
]

unfoldable pub parse_modset : List ℕ → Option ℕ
unfolding modset_from
parse_modset s = modset_from 0 s

-- The loop over the letters that a dash follows: the modifiers, and the name that is left. The byte
-- behind the end of the string is taken not to be a dash.
unfoldable pub parse_prefix : ℕ → List ℕ → Option (ℕ × List ℕ)
unfolding mod_mask
parse_prefix mods [] = some (mods, [])
parse_prefix mods (c ∷ []) = some (mods, c ∷ [])
parse_prefix mods (c ∷ d ∷ s) = elim (d == 45) [
  | false ↦ some (mods, c ∷ d ∷ s)
  | true ↦ elim (mod_mask c) [ none ↦ none | some m ↦ parse_prefix (bit_or mods m) s ]
]

-- A name that may be NULL.
unfoldable pub is_named : Option (List ℕ) → List ℕ → Bool
unfolding str_eq
is_named none s = false
is_named (some name) s = str_eq name s

-- The loop over the table: the index, and whether the name is a shifted one.
unfoldable pub find_key : List ℕ → List Keycode → Option (ℕ × Bool)
unfolding is_named str_eq
find_key s [] = none
find_key s (k ∷ ks) =
    let rest = find_key s ks in
    if is_named k.shifted_name s
    then some (k.code, true)
    else if str_eq k.name s || is_named k.alt_name s
    then some (k.code, false)
    else rest

unfoldable pub find_sequence : ℕ → List ℕ → Option (ℕ × ℕ)
unfolding find_key
find_sequence mods name = elim (find_key name keycode_table) [
  | none ↦ none
  | some (code, shifted) ↦ some (code, if shifted then bit_or mods mod_shift else mods)
]

-- The code and the modifiers; `none` is the result -1.
unfoldable pub parse_key_sequence : List ℕ → Option (ℕ × ℕ)
unfolding parse_prefix
parse_key_sequence [] = none
parse_key_sequence (c ∷ s) = elim (parse_prefix 0 (c ∷ s)) [
  | none ↦ none
  | some (mods, name) ↦ find_sequence mods name
]

-- 0 where no key has the name.
unfoldable pub find_keycode : List ℕ → List Keycode → ℕ
unfolding is_named str_eq
find_keycode s [] = 0
find_keycode s (k ∷ ks) =
    let rest = find_keycode s ks in
    if str_eq k.name s || is_named k.alt_name s then k.code else rest

unfoldable pub lookup_keycode : List ℕ → ℕ
unfolding find_keycode
lookup_keycode s = find_keycode s keycode_table
