-- ===== src/Macro/Parse.antt =====
-- src/macro.c: macro_parse. `none` is the result -1.
pub mod Sound
pub mod Fuel
use keyd_fork.Common.{
  ℕ, zero, suc, ◌+◌, ◌*◌, ◌%◌, ◌&&◌, Option, none, some, List, [], ◌∷◌, ◌++◌, ltb, ◌==◌,
  if◌then◌else◌, length, drop, elem, Result, ◌>>=◌, ok, aborted, out_of_fuel, truncated_utf8,
}
use keyd_fork.Config.{MacroType, MacroEntry, Macro}
use keyd_fork.Keys.{mod_shift}
use keyd_fork.Keys.Names.{parse_key_sequence, is_named}
use keyd_fork.Keys.Table.{Keycode, keycode_table}
use keyd_fork.Macro.{Env}
use keyd_fork.Text.CString.{str_eq, tokens, atoi_16}
use keyd_fork.Text.Timeval.{is_timeval}
use keyd_fork.Text.Utf8.{end, char, truncated, utf8_read_char}

-- ADD_ENTRY: the 65th entry is an error.
unfoldable pub add_entry : Macro → MacroType → ℕ → Option Macro
add_entry m t d =
    let entry : MacroEntry = record { type = t; data' = d % 65536 } in
    if ltb (length m) 64 then some (m ++ (entry ∷ [])) else none

-- The loop over the keys of a token with `+`.
unfoldable pub add_keys : Macro → List (List ℕ) → Option Macro
add_keys m [] = some m
add_keys m (k ∷ ks) =
    let entry =
      if is_timeval k
      then add_entry m MacroType.timeout (atoi_16 k)
      else (elim (parse_key_sequence k) [
        | none ↦ none
        | some (code, mods) ↦ add_entry m MacroType.hold code
      ]) in
    elim entry [ none ↦ none | some m' ↦ add_keys m' ks ]

unfoldable pub add_group : Macro → List ℕ → Option Macro
unfolding add_keys
add_group m token = elim (add_keys m (tokens 43 token)) [
  | none ↦ none
  | some m' ↦ add_entry m' MacroType.release 0
]

-- The key, with shift in the high byte if need be, that a character stands for.
unfoldable pub find_char : ℕ → List Keycode → Option ℕ
unfolding is_named str_eq
find_char c [] = none
find_char c (k ∷ ks) =
    let rest = find_char c ks in
    if str_eq k.name (c ∷ [])
    then some k.code
    else if is_named k.shifted_name (c ∷ [])
    then some (mod_shift * 256 + k.code)
    else rest

-- One character: a key, an entry of the unicode table, or nothing.
unfoldable pub add_char : Env → Macro → ℕ → ℕ → ℕ → Option Macro
add_char env m byte size codepoint =
    if size == 1 && ltb codepoint 128
    then (elim (find_char byte keycode_table) [
      | none ↦ some m
      | some d ↦ add_entry m MacroType.keysequence d
    ])
    else (elim (env.unicode_lookup_index codepoint) [
      | none ↦ some m
      | some x ↦ if ltb 0 x then add_entry m MacroType.unicode x else some m
    ])

abbrev first_byte : List ℕ → ℕ
first_byte [] = 0
first_byte (c ∷ _) = c

-- The loop over the characters of a token; each round takes a byte at least.
unfoldable pub add_chars : Env → ℕ → Macro → List ℕ → Result (Option Macro)
add_chars env zero m s = out_of_fuel
add_chars env (suc fuel) m s = elim (utf8_read_char s) [
  | end ↦ ok (some m)
  | truncated ↦ aborted truncated_utf8
  | char size codepoint ↦ elim (add_char env m (first_byte s) size codepoint) [
    | none ↦ ok none
    | some m' ↦ add_chars env fuel m' (drop size s)
  ]
]

unfoldable pub add_token : Env → Macro → List ℕ → Result (Option Macro)
unfolding add_group
add_token env m token = elim (parse_key_sequence token) [
  | some (code, mods) ↦ ok (add_entry m MacroType.keysequence (mods * 256 + code))
  | none ↦
      if elem 43 token
      then ok (add_group m token)
      else if is_timeval token
      then ok (add_entry m MacroType.timeout (atoi_16 token))
      else add_chars env (suc (length token)) m token
]

unfoldable pub add_tokens : Env → Macro → List (List ℕ) → Result (Option Macro)
add_tokens env m [] = ok (some m)
add_tokens env m (t ∷ ts) = do
  r ← add_token env m t
  elim r [ none ↦ ok none | some m' ↦ add_tokens env m' ts ]

unfoldable pub macro_parse : Env → List ℕ → Result (Option Macro)
macro_parse env s = add_tokens env [] (tokens 32 s)
