-- ===== src/Ini.antt =====
-- src/ini.c: parse_kvp. A line is a list of bytes; the key and the value are what the pointers show
-- once the line is cut.
pub mod Roundtrip
pub mod Parse
use keyd_fork.Common.{ℕ, Bool, ◌||◌, Option, none, some, List, [], ◌∷◌, ◌++◌, ◌==◌, if◌then◌else◌}

unfoldable pub is_blank : ℕ → Bool
is_blank c = c == 32 || c == 9

unfoldable pub skip_blanks : List ℕ → List ℕ
unfolding is_blank
skip_blanks [] = []
skip_blanks (c ∷ s) = let rest = skip_blanks s in if is_blank c then rest else c ∷ s

-- The loop. `key` is what was read up to `last_space`, and `blanks` what was read from there: empty
-- where `last_space` is NULL.
unfoldable pub parse_key : List ℕ → List ℕ → List ℕ → List ℕ × Option (List ℕ)
unfolding skip_blanks
parse_key key blanks [] = (key ++ blanks, none)
parse_key key blanks (c ∷ s) =
    let blank = parse_key key (blanks ++ c ∷ []) s in
    let other = parse_key (key ++ (blanks ++ c ∷ [])) [] s in
    if c == 61 then (key, some (skip_blanks s)) else if is_blank c then blank else other

-- The first character may be `=`.
unfoldable pub parse_kvp : List ℕ → List ℕ × Option (List ℕ)
unfolding parse_key
parse_kvp [] = ([], none)
parse_kvp (c ∷ s) = if c == 61 then parse_key (61 ∷ []) [] s else parse_key [] [] (c ∷ s)
