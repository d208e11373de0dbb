-- ===== src/Text/CString.antt =====
-- The functions of string.h and stdlib.h that the program calls, on strings without their NUL.
use Prim.Native.Char.{code}
use Prim.Native.String.{String}
use keyd_fork.Common.{
  ℕ, ◌+◌, ◌-◌, ◌*◌, ◌%◌, Bool, true, false, not, ◌&&◌, ◌||◌, List, [], ◌∷◌, ◌++◌, leb, ◌==◌,
  if◌then◌else◌,
}

-- The bytes of an ASCII literal.
abbrev pub codes : String → List ℕ
codes String.[] = []
codes (String.◌∷◌ c s) = code c ∷ codes s

-- `strcmp` gives 0.
unfoldable pub str_eq : List ℕ → List ℕ → Bool
str_eq [] [] = true
str_eq (x ∷ xs) (y ∷ ys) = x == y && str_eq xs ys
str_eq _ _ = false

-- `strstr(s, prefix) == s`.
unfoldable pub has_prefix : List ℕ → List ℕ → Bool
has_prefix [] s = true
has_prefix (x ∷ xs) [] = false
has_prefix (x ∷ xs) (y ∷ ys) = x == y && has_prefix xs ys

-- The last byte, 0 of an empty string.
unfoldable pub last_byte : List ℕ → ℕ
last_byte [] = 0
last_byte (c ∷ []) = c
last_byte (c ∷ d ∷ s) = last_byte (d ∷ s)

-- The tokens that calls of `strtok` return one after the other: the runs of other bytes. `token` is
-- the run that is being read.
unfoldable pub tokens_from : ℕ → List ℕ → List ℕ → List (List ℕ)
tokens_from delim [] [] = []
tokens_from delim (t ∷ ts) [] = (t ∷ ts) ∷ []
tokens_from delim token (c ∷ s) =
    let more = tokens_from delim (token ++ (c ∷ [])) s in
    let next = tokens_from delim [] s in
    if not (c == delim) then more else (elim token [ [] ↦ next | t ∷ ts ↦ (t ∷ ts) ∷ next ])

unfoldable pub tokens : ℕ → List ℕ → List (List ℕ)
unfolding tokens_from
tokens delim s = tokens_from delim [] s

-- `atoi` up to its range: whether the number is negative, and its size.
unfoldable pub digits_value : ℕ → List ℕ → ℕ
digits_value n [] = n
digits_value n (c ∷ s) =
    let more = digits_value (n * 10 + (c - 48)) s in if leb 48 c && leb c 57 then more else n

unfoldable pub signed_value : List ℕ → Bool × ℕ
unfolding digits_value
signed_value [] = (false, 0)
signed_value (c ∷ s) =
    if c == 45
    then (true, digits_value 0 s)
    else (false, digits_value 0 (if c == 43 then s else c ∷ s))

-- `isspace` in the C locale.
unfoldable pub is_space : ℕ → Bool
is_space c = c == 32 || (leb 9 c && leb c 13)

unfoldable pub skip_space : List ℕ → List ℕ
unfolding is_space
skip_space [] = []
skip_space (c ∷ s) = let rest = skip_space s in if is_space c then rest else c ∷ s

-- `atoi` cast to a 16 bit word.
unfoldable pub atoi_16 : List ℕ → ℕ
unfolding skip_space signed_value
atoi_16 s =
    let (negative, n) = signed_value (skip_space s) in
    if negative then (65536 - n % 65536) % 65536 else n % 65536

-- A string ends at the first NUL.
unfoldable pub until_nul : List ℕ → List ℕ
until_nul [] = []
until_nul (c ∷ s) = let rest = until_nul s in if c == 0 then [] else c ∷ rest
