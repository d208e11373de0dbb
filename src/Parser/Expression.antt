-- ===== src/Parser/Expression.antt =====
-- src/config.c: parse_command and parse_macro_expression.
use keyd_fork.Common.{
  ℕ, ◌-◌, not, ◌&&◌, Option, none, some, List, ltb, leb, ◌==◌, if◌then◌else◌, length, take, drop,
  Result, ◌>>=◌, ok, aborted, truncated_utf8,
}
use keyd_fork.Text.Utf8.{utf8_strlen}
use keyd_fork.Text.Escape.{str_escape}
use keyd_fork.Macro.Parse.{macro_parse}
use keyd_fork.Text.CString.{codes, last_byte, has_prefix}
use keyd_fork.Macro.{Env}
use keyd_fork.Keys.Names.{parse_key_sequence}
use keyd_fork.Config.{Macro}

-- What is tried as an expression of one kind: it is none (-1), it is one and wrong (a positive
-- result), or it is one.
pub data Expression {ℓ} (A : Type ℓ) : Type ℓ where
  other : Expression A
  wrong : Expression A
  parsed : A → Expression A

unfoldable pub parse_command : List ℕ → Expression (List ℕ)
parse_command s =
    if not (has_prefix (codes "command(") s && last_byte s == 41)
    then other
    else if ltb 256 (length s)
    then wrong
    else parsed (str_escape (take (length s - 9) (drop 8 s)))

-- What is passed to macro_parse.
unfoldable pub macro_text : List ℕ → Result (Option (List ℕ))
macro_text s =
    if leb 1024 (length s)
    then ok none
    else if has_prefix (codes "macro(") s && last_byte s == 41
    then ok (some (str_escape (take (length s - 7) (drop 6 s))))
    else (elim (parse_key_sequence s) [
      | some _ ↦ ok (some s)
      | none ↦ elim (utf8_strlen s) [
        | none ↦ aborted truncated_utf8
        | some n ↦ ok (if n == 1 then some s else none)
      ]
    ])

unfoldable pub parse_macro_expression : Env → List ℕ → Result (Expression Macro)
unfolding macro_text
parse_macro_expression env s = macro_text s >>= (λ text. elim text [
  | none ↦ ok other
  | some t ↦ macro_parse env t >>= (λ r. elim r [ none ↦ ok wrong | some m ↦ ok (parsed m) ])
])
