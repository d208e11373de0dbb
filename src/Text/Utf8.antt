-- ===== src/Text/Utf8.antt =====
-- src/strutil.c: utf8_read_char and utf8_strlen.
pub mod Roundtrip
use keyd_fork.Common.{
  ℕ, zero, suc, ◌+◌, ◌*◌, ◌%◌, Option, none, some, List, [], ◌∷◌, leb, if◌then◌else◌, length, drop,
}

-- The result and the out parameter of `utf8_read_char`: 0 at the end of the string, the size and
-- the code of a character, or a failed assertion.
pub data Utf8 : Type 0 where
  end : Utf8
  char : ℕ → ℕ → Utf8
  truncated : Utf8

-- A mask keeps the low bits, and shifted fields that do not overlap are joined by `+`.
unfoldable pub read_two : ℕ → List ℕ → Utf8
read_two a (b ∷ s) = char 2 (a % 32 * 64 + b % 64)
read_two a [] = truncated

unfoldable pub read_three : ℕ → List ℕ → Utf8
read_three a (b ∷ c ∷ s) = char 3 (a % 16 * 4096 + b % 64 * 64 + c % 64)
read_three a _ = truncated

unfoldable pub read_four : ℕ → List ℕ → Utf8
read_four a (b ∷ c ∷ d ∷ s) = char 4 (a % 8 * 262144 + b % 64 * 4096 + c % 64 * 64 + d % 64)
read_four a _ = truncated

unfoldable pub utf8_read_char : List ℕ → Utf8
unfolding read_two read_three read_four
utf8_read_char [] = end
utf8_read_char (a ∷ s) =
    if leb 240 a
    then read_four a s
    else if leb 224 a
    then read_three a s
    else if leb 192 a
    then read_two a s
    else char 1 (a % 128)

-- The loop of `utf8_strlen`, with the characters counted so far.
unfoldable pub utf8_count : ℕ → ℕ → List ℕ → Option ℕ
utf8_count zero n s = none
utf8_count (suc fuel) n s = elim (utf8_read_char s) [
  | end ↦ some n
  | char size _ ↦ utf8_count fuel (suc n) (drop size s)
  | truncated ↦ none
]

-- A round takes a byte at least.
unfoldable pub utf8_strlen : List ℕ → Option ℕ
unfolding utf8_count
utf8_strlen s = utf8_count (suc (length s)) 0 s
