-- ===== src/Daemon/Input.antt =====
-- src/daemon.c: input, which types a text.
use keyd_fork.Common.{
  ℕ, zero, suc, bit_and, Bool, true, false, Option, none, some, List, [], ◌∷◌, ◌++◌, ◌==◌,
  if◌then◌else◌, length, take, drop, Result, ok, aborted, out_of_fuel, truncated_utf8,
}
use keyd_fork.Keys.Names.{parse_key_sequence}
use keyd_fork.Keys.{keyd_enter, keyd_tab, mod_shift, keyd_leftshift, keyd_space}
use keyd_fork.Text.Utf8.{end, char, truncated, utf8_read_char}
use keyd_fork.Daemon.{Daemon, World, emit, vkbd_key, usleep}

-- The events of the virtual device, in order. They do not go through send_key.
unfoldable pub type_keys : Daemon → List (ℕ × Bool) → Daemon
type_keys d [] = d
type_keys d ((code, state) ∷ ks) = type_keys (emit d (vkbd_key code state)) ks

abbrev pub stroke : ℕ → List (ℕ × Bool)
stroke code = (code, true) ∷ (code, false) ∷ []

-- The keys for a character of one byte.
unfoldable pub ascii_keys : ℕ → Option (List (ℕ × Bool))
ascii_keys c = elim (parse_key_sequence (if c == 0 then [] else c ∷ [])) [
  | some (code, mods) ↦ some (
      if bit_and mods mod_shift == 0
      then stroke code
      else (keyd_leftshift, true) ∷ (stroke code ++ ((keyd_leftshift, false) ∷ [])))
  | none ↦
      if c == 32
      then some (stroke keyd_space)
      else if c == 10
      then some (stroke keyd_enter)
      else if c == 9
      then some (stroke keyd_tab)
      else none
]

unfoldable pub strokes : List ℕ → List (ℕ × Bool)
strokes [] = []
strokes (c ∷ cs) = stroke c ++ strokes cs

-- The four keys of an entry of the unicode table.
unfoldable pub unicode_keys : World → ℕ → Option (List (ℕ × Bool))
unfolding strokes
unicode_keys w codepoint = elim (w.env.unicode_lookup_index codepoint) [
  | none ↦ none
  | some idx ↦ some (strokes (take 4 (w.env.unicode_get_sequence idx)))
]

unfoldable pub char_keys : World → ℕ → ℕ → Option (List (ℕ × Bool))
unfolding ascii_keys unicode_keys
char_keys w size codepoint =
    if size == 1
    then (elim (ascii_keys codepoint) [ some ks ↦ some ks | none ↦ unicode_keys w codepoint ])
    else unicode_keys w codepoint

-- The loop over the text: whether every character was found, and the daemon.
unfoldable pub input_chars : World → ℕ → ℕ → Daemon → List ℕ → Result (Bool × Daemon)
unfolding type_keys char_keys
input_chars w zero timeout d s = out_of_fuel
input_chars w (suc fuel) timeout d s = elim (utf8_read_char s) [
  | end ↦ ok (true, d)
  | truncated ↦ aborted truncated_utf8
  | char size codepoint ↦ elim (char_keys w size codepoint) [
    | none ↦ ok (false, d)
    | some ks ↦
        let d' = type_keys d ks in
        input_chars w fuel timeout (if timeout == 0 then d' else emit d' (usleep timeout))
          (drop size s)
  ]
]

-- A round takes a byte at least.
unfoldable pub input : World → ℕ → Daemon → List ℕ → Result (Bool × Daemon)
unfolding input_chars
input w timeout d s = input_chars w (suc (length s)) timeout d s
