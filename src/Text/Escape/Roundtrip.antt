-- ===== src/Text/Escape/Roundtrip.antt =====
-- src/strutil.c: str_escape undoes escaping, and never writes past what it has read.
use keyd_fork.Common.{
  ℕ, suc, ◌≤◌, ◌≡◌, refl, ap, ◌∙◌, false, List, [], ◌∷◌, ◌++◌, arith, ◌==◌, if◌then◌else◌, length,
}
use keyd_fork.Text.Escape.{unescape, str_escape}

-- A string with its special bytes escaped.
abbrev pub escape_byte : ℕ → List ℕ
escape_byte c =
    if c == 10
    then 92 ∷ 110 ∷ []
    else if c == 9
    then 92 ∷ 116 ∷ []
    else if c == 92
    then 92 ∷ 92 ∷ []
    else c ∷ []

abbrev pub escape : List ℕ → List ℕ
escape [] = []
escape (c ∷ s) = escape_byte c ++ escape s

str_escape-cons : (c : ℕ) (s : List ℕ) → (c == 92) ≡ false → str_escape (c ∷ s) ≡ c ∷ str_escape s
unfolding str_escape
str_escape-cons c [] h = rw h refl
str_escape-cons c (b ∷ s) h = rw h refl

str_escape-byte : (c : ℕ) (s : List ℕ) → str_escape (escape_byte c ++ s) ≡ c ∷ str_escape s
unfolding str_escape unescape
str_escape-byte c s = ground (arith, str_escape-cons c s)

-- str_escape takes a string back from its escaped form.
pub str_escape-escape : (s : List ℕ) → str_escape (escape s) ≡ s
unfolding str_escape
str_escape-escape [] = refl
str_escape-escape (c ∷ s) = str_escape-byte c (escape s) ∙ ap (λ t. c ∷ t) (str_escape-escape s)

length-unescape : (c : ℕ) (s : List ℕ) → length (unescape c ++ s) ≤ suc (suc (length s))
unfolding unescape
length-unescape c s = ground arith

-- The result of str_escape, written over its argument, is no longer than the argument.
pub length-str_escape : (s : List ℕ) → length (str_escape s) ≤ length s
unfolding str_escape
length-str_escape [] = omega arith
length-str_escape (a ∷ []) = ground arith
length-str_escape (a ∷ b ∷ s) =
    ground (arith, length-str_escape s, length-str_escape (b ∷ s), length-unescape b (str_escape s))
