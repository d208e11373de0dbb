-- ===== src/Parser/File/Plain.antt =====
-- src/config.c: read_file on a file without includes.
use keyd_fork.Common.{
  ℕ, zero, suc, ◌+◌, ◌≤◌, ◌<◌, ◌≡◌, refl, ◌∙◌, ◌≢◌, true, false, none, some, List, [], ◌∷◌, ◌++◌,
  arith, length, length-append, All, bind-ok, ok,
}
use mathlib.Core.List.{append_assoc, append-nil}
use keyd_fork.Parser.File.{fgets, ends_line, Files, add_line, take_line, read_lines, read_file}
use keyd_fork.Parser.Init.{join_lines}
use keyd_fork.Text.CString.{codes, has_prefix, until_nul}

-- A byte of a line.
abbrev pub IsText : ℕ → Type 0
IsText c = (c ≢ 0) × (c ≢ 10)

-- A line of a file, without its newline, that includes nothing.
pub record IsPlain (line : List ℕ) : Type 0 where
  pub text : All IsText line
  pub short : length line < 256
  pub no_include : has_prefix (codes "include ") (line ++ (10 ∷ [])) ≡ false

fgets-line :
    (n : ℕ) (line rest : List ℕ)
    → All IsText line
    → length line < n
    → fgets n (line ++ (10 ∷ rest)) ≡ (line ++ (10 ∷ []), rest)
unfolding fgets
fgets-line zero line rest h k = ground arith
fgets-line (suc n) [] rest h k = refl
fgets-line (suc n) (c ∷ line) rest h k =
    let ih = fgets-line n line rest h.1 (omega arith) in let plain = h.0.1 in rw ih (ground arith)

until_nul-line :
    (line : List ℕ) → All IsText line → until_nul (line ++ (10 ∷ [])) ≡ line ++ (10 ∷ [])
unfolding until_nul
until_nul-line [] h = refl
until_nul-line (c ∷ line) h = let ih = until_nul-line line h.1 in let plain = h.0.0 in ground arith

ends_line-line : (line : List ℕ) → ends_line (line ++ (10 ∷ [])) ≡ true
unfolding ends_line
ends_line-line [] = refl
ends_line-line (c ∷ []) = refl
ends_line-line (c ∷ d ∷ line) = ends_line-line (d ∷ line)

module _ (fs : Files) (path : List ℕ) where
  add_line-plain :
      (buf line : List ℕ)
      → has_prefix (codes "include ") line ≡ false
      → length line + length buf < 65536
      → add_line fs path buf line ≡ ok (some (buf ++ line))
  unfolding add_line
  add_line-plain buf line h k = rw h (ground arith)

  take_line-plain :
      (buf line : List ℕ)
      → IsPlain line
      → length (line ++ (10 ∷ [])) + length buf < 65536
      → take_line fs path buf (line ++ (10 ∷ [])) ≡ ok (some (buf ++ (line ++ (10 ∷ []))))
  unfolding take_line
  take_line-plain buf line h k =
      let ends = ends_line-line line in
      let some_bytes : 0 < length (line ++ (10 ∷ [])) =
        omega (arith, length-append line (10 ∷ [])) in
      let added = add_line-plain buf (line ++ (10 ∷ [])) h.no_include k in
      rw (ends, added) (ground arith)

  read_lines-round :
      (fuel : ℕ) (buf buf' chunk rest : List ℕ) (c : ℕ) (s : List ℕ)
      → fgets 256 (c ∷ s) ≡ (chunk, rest)
      → take_line fs path buf (until_nul chunk) ≡ ok (some buf')
      → read_lines fs (suc fuel) path buf (c ∷ s) ≡ read_lines fs fuel path buf' rest
  unfolding read_lines
  read_lines-round fuel buf buf' chunk rest c s e t =
      bind-ok {a = some buf'}
        (λ r. elim r [ none ↦ ok none | some b ↦ read_lines fs fuel path b (fgets 256 (c ∷ s)).1 ])
        (rw e t) (rw e refl)

  read_lines-step :
      (fuel : ℕ) (buf line rest : List ℕ)
      → IsPlain line
      → length (line ++ (10 ∷ [])) + length buf < 65536
      → read_lines fs (suc fuel) path buf (line ++ (10 ∷ rest))
        ≡ read_lines fs fuel path (buf ++ (line ++ (10 ∷ []))) rest
  read_lines-step fuel buf [] rest h k =
      read_lines-round fuel buf _ _ rest 10 rest (fgets-line 256 [] rest h.text h.short)
        (rw (until_nul-line [] h.text) (take_line-plain buf [] h k))
  read_lines-step fuel buf (c ∷ line) rest h k =
      read_lines-round fuel buf _ _ rest c (line ++ (10 ∷ rest))
        (fgets-line 256 (c ∷ line) rest h.text h.short)
        (rw (until_nul-line (c ∷ line) h.text) (take_line-plain buf (c ∷ line) h k))

  read_lines-plain :
      (fuel : ℕ) (buf : List ℕ) (ls : List (List ℕ))
      → All IsPlain ls
      → length ls < fuel
      → length (join_lines ls) + length buf < 65536
      → read_lines fs fuel path buf (join_lines ls) ≡ ok (some (until_nul (buf ++ join_lines ls)))
  unfolding read_lines
  read_lines-plain zero buf ls h k room = ground arith
  read_lines-plain (suc fuel) buf [] h k room = rw (append-nil buf) (ground arith)
  read_lines-plain (suc fuel) buf (l ∷ ls) h k room =
      read_lines-step fuel buf l (join_lines ls) h.0
        (omega (arith, length-append l (10 ∷ join_lines ls), length-append l (10 ∷ [])))
      ∙ read_lines-plain fuel (buf ++ (l ++ (10 ∷ []))) ls h.1 (omega arith) (
          omega (
            arith,
            length-append l (10 ∷ join_lines ls),
            length-append l (10 ∷ []),
            length-append buf (l ++ (10 ∷ [])),
          ))
      ∙ rw
          (
            append_assoc buf (l ++ (10 ∷ [])) (join_lines ls),
            append_assoc l (10 ∷ []) (join_lines ls),
          )
          refl

until_nul-append :
    (line rest : List ℕ)
    → All IsText line
    → until_nul (line ++ (10 ∷ rest)) ≡ line ++ (10 ∷ until_nul rest)
unfolding until_nul
until_nul-append [] rest h = refl
until_nul-append (c ∷ line) rest h =
    let ih = until_nul-append line rest h.1 in let plain = h.0.0 in ground arith

until_nul-lines : (ls : List (List ℕ)) → All IsPlain ls → until_nul (join_lines ls) ≡ join_lines ls
unfolding until_nul
until_nul-lines [] h = refl
until_nul-lines (l ∷ ls) h =
    until_nul-append l (join_lines ls) h.0.text ∙ rw (until_nul-lines ls h.1) refl

length-lines : (ls : List (List ℕ)) → length ls ≤ length (join_lines ls)
length-lines [] = omega arith
length-lines (l ∷ ls) = omega (arith, length-lines ls, length-append l (10 ∷ join_lines ls))

-- read_file gives the text of a file of less than 65536 bytes whose lines each end in a newline, hold
-- fewer than 256 bytes and no NUL, and do not start with include and a space.
pub read_file-lines :
    (fs : Files) (path : List ℕ) (ls : List (List ℕ))
    → All IsPlain ls
    → length (join_lines ls) < 65536
    → fs.fopen path ≡ some (join_lines ls)
    → read_file fs path ≡ ok (some (join_lines ls))
unfolding read_file
read_file-lines fs path ls h room file =
    rw (read_file, file)
      (read_lines-plain fs path (suc (length (join_lines ls))) [] ls h
          (omega (arith, length-lines ls)) (omega arith)
        ∙ rw (until_nul-lines ls h) refl)
