-- ===== src/Text/Escape.antt =====
-- src/strutil.c: str_escape.
pub mod Roundtrip
use keyd_fork.Common.{ℕ, List, [], ◌∷◌, ◌++◌, ◌==◌, if◌then◌else◌}

-- What `\` and a byte stand for.
unfoldable pub unescape : ℕ → List ℕ
unescape c =
    if c == 110
    then 10 ∷ []
    else if c == 116
    then 9 ∷ []
    else if c == 92
    then 92 ∷ []
    else if c == 41
    then 41 ∷ []
    else if c == 40
    then 40 ∷ []
    else 92 ∷ c ∷ []

-- A `\` at the end of the string is dropped.
unfoldable pub str_escape : List ℕ → List ℕ
str_escape [] = []
str_escape (a ∷ []) = if a == 92 then [] else a ∷ []
str_escape (a ∷ b ∷ s) =
    let escaped = str_escape s in
    let rest = str_escape (b ∷ s) in if a == 92 then unescape b ++ escaped else a ∷ rest
