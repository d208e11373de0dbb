-- ===== src/Keys/Names/Bounds.antt =====
-- src/keys.c: the values that the parsers of key names can give.
use keyd_fork.Common.{
  ℕ, ◌<◌, ◌≡◌, refl, inl, inr, Bool, true, false, ◌&&◌, ◌||◌, Option, none, some, List, [], ◌∷◌,
  arith, ltb, Option-cases, if_intro,
}
use keyd_fork.Keys.Table.{Keycode, keycode_table}
use keyd_fork.Keys.Names.{
  find_key, is_named, find_keycode, lookup_keycode, parse_prefix, find_sequence, parse_key_sequence,
}
use keyd_fork.Text.CString.{str_eq}

-- A code of the table: not 0, which marks a free slot of the cache, and a byte.
abbrev pub IsCode : ℕ → Type 0
IsCode c = (0 < c) × (c < 256)

abbrev all_codes : List Keycode → Bool
all_codes [] = true
all_codes (k ∷ ks) = ltb 0 k.code && ltb k.code 256 && all_codes ks

codes_table : all_codes keycode_table ≡ true
unfolding keycode_table
codes_table = refl

abbrev CodeOf : Option (ℕ × Bool) → Type 0
CodeOf none = Unit {0}
CodeOf (some (c, b)) = IsCode c

find_key-IsCode : (s : List ℕ) (ks : List Keycode) → all_codes ks ≡ true → CodeOf (find_key s ks)
unfolding find_key
find_key-IsCode s [] h = tt
find_key-IsCode s (k ∷ ks) h =
    let here : IsCode k.code = ground arith in
    if_intro CodeOf (is_named k.shifted_name s) {x = some (k.code, true)} here (
      if_intro CodeOf (str_eq k.name s || is_named k.alt_name s) {x = some (k.code, false)} here
        (find_key-IsCode s ks (ground arith)))

find_keycode-lt : (s : List ℕ) (ks : List Keycode) → all_codes ks ≡ true → find_keycode s ks < 256
unfolding find_keycode
find_keycode-lt s [] h = omega arith
find_keycode-lt s (k ∷ ks) h =
    if_intro (λ c. c < 256) (str_eq k.name s || is_named k.alt_name s) {x = k.code} (ground arith)
      (find_keycode-lt s ks (ground arith))

pub lookup_keycode-lt : (s : List ℕ) → lookup_keycode s < 256
unfolding lookup_keycode
lookup_keycode-lt s = find_keycode-lt s keycode_table codes_table

find_sequence-IsCode :
    (mods : ℕ) (name : List ℕ) (c m : ℕ) → find_sequence mods name ≡ some (c, m) → IsCode c
unfolding find_sequence
find_sequence-IsCode mods name c m e =
    let found = find_key-IsCode name keycode_table codes_table in
    elim (Option-cases (find_key name keycode_table)) [
      | inl missing ↦ cc
      | inr ((d, shifted), at_d) ↦
          let code : IsCode d = rw at_d at found in
          let same : d ≡ c = ground (arith, e, at_d) in rw (← same) code
    ]

-- parse_key_sequence gives a code that is not 0 and fits a byte.
pub parse_key_sequence-IsCode :
    (s : List ℕ) (c m : ℕ) → parse_key_sequence s ≡ some (c, m) → IsCode c
unfolding parse_key_sequence
parse_key_sequence-IsCode [] c m e = cc
parse_key_sequence-IsCode (x ∷ s) c m e = elim (Option-cases (parse_prefix 0 (x ∷ s))) [
  | inl bad ↦ cc
  | inr ((mods, name), read) ↦
      find_sequence-IsCode mods name c m (rw (read, parse_key_sequence) at e)
]
