-- ===== src/Tests/Strings.antt =====
-- Instances of the theorems on strings and lines.
use keyd_fork.Common.{◌≡◌, ◌↔◌, true, [], ◌∷◌, arith}
use keyd_fork.Text.Escape.{str_escape}
use keyd_fork.Text.Escape.Roundtrip.{str_escape-escape}
use keyd_fork.Text.Timeval.{is_timeval}
use keyd_fork.Text.Timeval.Format.{IsTimeval, is_timeval-IsTimeval}
use keyd_fork.Text.Utf8.{utf8_read_char, char}
use keyd_fork.Text.Utf8.Roundtrip.{utf8_read_char-encode}

-- U+20AC
utf8_read_char-encode_example : utf8_read_char (226 ∷ 130 ∷ 172 ∷ 97 ∷ []) ≡ char 3 8364
utf8_read_char-encode_example = utf8_read_char-encode 8364 (97 ∷ []) (omega arith)

str_escape-escape_example : str_escape (97 ∷ 92 ∷ 110 ∷ 92 ∷ 92 ∷ []) ≡ 97 ∷ 10 ∷ 92 ∷ []
str_escape-escape_example = str_escape-escape (97 ∷ 10 ∷ 92 ∷ [])

is_timeval-IsTimeval_example :
    (is_timeval (49 ∷ 48 ∷ 109 ∷ 115 ∷ []) ≡ true) ↔ IsTimeval (49 ∷ 48 ∷ 109 ∷ 115 ∷ [])
is_timeval-IsTimeval_example = is_timeval-IsTimeval (49 ∷ 48 ∷ 109 ∷ 115 ∷ [])
