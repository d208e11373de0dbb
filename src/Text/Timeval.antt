-- ===== src/Text/Timeval.antt =====
-- src/strutil.c: is_timeval.
pub mod Format
use keyd_fork.Common.{ℕ, Bool, false, ◌&&◌, List, [], ◌∷◌, leb, ◌==◌, if◌then◌else◌}

unfoldable pub is_digit : ℕ → Bool
is_digit c = leb 48 c && leb c 57

-- The loop: what follows the digits.
unfoldable pub skip_digits : List ℕ → List ℕ
unfolding is_digit
skip_digits [] = []
skip_digits (c ∷ s) = let rest = skip_digits s in if is_digit c then rest else c ∷ s

-- `ms`, then the end of the string or of the line.
unfoldable pub is_suffix : List ℕ → Bool
is_suffix (a ∷ b ∷ []) = a == 109 && b == 115
is_suffix (a ∷ b ∷ c ∷ s) = a == 109 && b == 115 && c == 10
is_suffix _ = false

unfoldable pub is_timeval : List ℕ → Bool
unfolding is_digit skip_digits is_suffix
is_timeval [] = false
is_timeval (c ∷ s) = is_digit c && is_suffix (skip_digits (c ∷ s))
