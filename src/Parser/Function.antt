-- ===== src/Parser/Function.antt =====
-- src/config.c: parse_fn, a name and its arguments in parentheses.
use keyd_fork.Common.{
  ℕ, zero, suc, Bool, true, false, ◌&&◌, Option, none, some, List, [], ◌∷◌, ◌++◌, ltb, ◌==◌,
  if◌then◌else◌, length, Result, ◌>>=◌, ok, aborted, too_many_arguments,
}

-- The argument that ends, unless it is empty; there is room for five.
unfoldable pub push_arg : List (List ℕ) → List ℕ → Result (List (List ℕ))
push_arg args [] = ok args
push_arg args (c ∷ arg) =
    if ltb (length args) 5 then ok (args ++ ((c ∷ arg) ∷ [])) else aborted too_many_arguments

-- Where the loop stands: at the spaces in front of an argument, behind a backslash, or in between.
pub data FnScan : Type 0 where
  at_start at_escape at_text : FnScan

abbrev is_at_start : FnScan → Bool
is_at_start FnScan.at_start = true
is_at_start _ = false

abbrev is_at_escape : FnScan → Bool
is_at_escape FnScan.at_escape = true
is_at_escape _ = false

-- The loop over the bytes, with the open parentheses, the argument that is read and the ones before
-- it. The byte behind a backslash belongs to the argument whatever it is.
unfoldable pub fn_args :
    FnScan → ℕ → List ℕ → List (List ℕ) → List ℕ → Result (Option (List (List ℕ)))
unfolding push_arg
fn_args scan plvl arg args [] = ok none
fn_args scan plvl arg args (c ∷ s) = elim (is_at_start scan && c == 32) [
  | true ↦ fn_args FnScan.at_start plvl arg args s
  | false ↦ elim (is_at_escape scan) [
    | true ↦ fn_args FnScan.at_text plvl (arg ++ (c ∷ [])) args s
    | false ↦ elim (c == 92) [
      | true ↦ fn_args FnScan.at_escape plvl (arg ++ (c ∷ [])) args s
      | false ↦ elim (c == 40) [
        | true ↦ fn_args FnScan.at_text (suc plvl) (arg ++ (c ∷ [])) args s
        | false ↦ elim (c == 41) [
          | true ↦ elim plvl [
            | zero ↦ push_arg args arg >>= (λ all. ok (some all))
            | suc plvl' ↦ fn_args FnScan.at_text plvl' (arg ++ (c ∷ [])) args s
          ]
          | false ↦ elim (c == 44 && plvl == 0) [
            | true ↦ push_arg args arg >>= (λ all. fn_args FnScan.at_start 0 [] all s)
            | false ↦ fn_args FnScan.at_text plvl (arg ++ (c ∷ [])) args s
          ]
        ]
      ]
    ]
  ]
]

-- The name, up to the first parenthesis, and what is behind it.
unfoldable pub fn_name : List ℕ → List ℕ → Option (List ℕ × List ℕ)
fn_name name [] = none
fn_name name (c ∷ s) =
    let rest = fn_name (name ++ (c ∷ [])) s in if c == 40 then some (name, s) else rest

unfoldable pub parse_fn : List ℕ → Result (Option (List ℕ × List (List ℕ)))
unfolding fn_name fn_args
parse_fn s = elim (fn_name [] s) [
  | none ↦ ok none
  | some (name, rest) ↦
      fn_args FnScan.at_start 0 [] [] rest
      >>= (λ r. elim r [ none ↦ ok none | some args ↦ ok (some (name, args)) ])
]
