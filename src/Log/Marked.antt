-- ===== src/Log/Marked.antt =====
-- src/log.c: colorize on a text with marks.
use keyd_fork.Common.{
  ℕ, suc, ◌+◌, ◌≤◌, ◌<◌, ◌≡◌, refl, ◌≢◌, Bool, true, false, ◌&&◌, List, [], ◌∷◌, ◌++◌, arith, leb,
  ◌==◌, if◌then◌else◌, length, length-append, elem, ok,
}
use keyd_fork.Log.{escape_num, put_code, colorize_byte, colorize_from, starts_brace, colorize}
use keyd_fork.Log.Long.{state, colorize_byte-text}

-- A text is a list of pieces: some without a mark, some in the colour of a letter.
pub data Piece : Type 0 where
  bare : List ℕ → Piece
  coloured : ℕ → List ℕ → Piece

abbrev IsBraceless : List ℕ → Type 0
IsBraceless s = (elem 123 s ≡ false) × (elem 125 s ≡ false)

-- No braces within, and a letter that names a colour.
abbrev pub IsPiece : Piece → Type 0
IsPiece (bare s) = IsBraceless s
IsPiece (coloured letter s) = IsBraceless s × (escape_num letter ≢ 0)

abbrev pub ArePieces : List Piece → Type 0
ArePieces [] = Unit {0}
ArePieces (p ∷ ps) = IsPiece p × ArePieces ps

-- How a message is written in the source: each colour as its letter and a pair of braces.
abbrev pub marked : List Piece → List ℕ
marked [] = []
marked (bare s ∷ ps) = s ++ marked ps
marked (coloured letter s ∷ ps) = letter ∷ 123 ∷ (s ++ (125 ∷ marked ps))

-- What a terminal gets: each colour as ESC [ 3 and its number, ended by ESC [ 0 m; none where colours are
-- suppressed.
abbrev code : Bool → List ℕ → List ℕ
code suppress s = if suppress then [] else s

abbrev pub shown : Bool → List Piece → List ℕ
shown suppress [] = []
shown suppress (bare s ∷ ps) = s ++ shown suppress ps
shown suppress (coloured letter s ∷ ps) =
    code suppress (27 ∷ 91 ∷ 51 ∷ (48 + escape_num letter) ∷ 109 ∷ [])
    ++ (s ++ (code suppress (27 ∷ 91 ∷ 48 ∷ 109 ∷ []) ++ shown suppress ps))

starts_brace-append :
    (s rest : List ℕ)
    → elem 123 s ≡ false
    → starts_brace rest ≡ false
    → starts_brace (s ++ rest) ≡ false
starts_brace-append [] rest h k = k
starts_brace-append (c ∷ s) rest h k = ground arith

colorize_from-text :
    (suppress : Bool) (n : ℕ) (inside : Bool) (s rest : List ℕ)
    → IsBraceless s
    → starts_brace rest ≡ false
    → n + length s ≤ 1024
    → colorize_from suppress (state n inside false) (s ++ rest)
      ≡ s ++ colorize_from suppress (state (n + length s) inside false) rest
unfolding colorize_from
colorize_from-text suppress n inside [] rest h k room =
    let same : n + 0 ≡ n = omega arith in rw same refl
colorize_from-text suppress n inside (c ∷ s) rest (h, h') k room =
    let plain : elem 123 s ≡ false = ground arith in
    let plain' : elem 125 s ≡ false = ground arith in
    let close : (c == 125 && inside) ≡ false = ground arith in
    let step =
      colorize_byte-text suppress n inside c (s ++ rest) (omega arith)
        (starts_brace-append s rest plain k) close in
    let ih = colorize_from-text suppress (n + 1) inside s rest (plain, plain') k (omega arith) in
    let same : n + 1 + length s ≡ n + suc (length s) = omega arith in rw (step, ih, same) refl

put_code-code :
    (suppress : Bool) (n : ℕ) (s : List ℕ)
    → n + length (code suppress s) < 1024
    → put_code suppress n s ≡ code suppress s
unfolding put_code
put_code-code true n s room = refl
put_code-code false n s room = ground arith

abbrev opening : Bool → ℕ → List ℕ
opening suppress letter = code suppress (27 ∷ 91 ∷ 51 ∷ (48 + escape_num letter) ∷ 109 ∷ [])

abbrev closing : Bool → List ℕ
closing suppress = code suppress (27 ∷ 91 ∷ 48 ∷ 109 ∷ [])

colorize_byte-letter :
    (suppress : Bool) (n letter : ℕ) (rest : List ℕ)
    → escape_num letter ≢ 0
    → n + length (opening suppress letter) < 1024
    → colorize_byte suppress (state n false false) letter (123 ∷ rest)
      ≡ (opening suppress letter, state (n + length (opening suppress letter)) true true)
unfolding colorize_byte
colorize_byte-letter suppress n letter rest h less =
    let room : leb 1024 n ≡ false = ground arith in
    let names : (escape_num letter == 0) ≡ false = ground arith in
    let put = put_code-code suppress n (27 ∷ 91 ∷ 51 ∷ (48 + escape_num letter) ∷ 109 ∷ []) less in
    rw (colorize_byte, room, names, put) refl

colorize_byte-skip :
    (suppress : Bool) (n c : ℕ) (s : List ℕ)
    → n < 1024
    → colorize_byte suppress (state n true true) c s ≡ ([], state n true false)
unfolding colorize_byte
colorize_byte-skip suppress n c s less =
    let room : leb 1024 n ≡ false = ground arith in rw (colorize_byte, room) refl

colorize_byte-close :
    (suppress : Bool) (n : ℕ) (rest : List ℕ)
    → n + length (closing suppress) < 1024
    → starts_brace rest ≡ false
    → colorize_byte suppress (state n true false) 125 rest
      ≡ (closing suppress, state (n + length (closing suppress)) false false)
unfolding colorize_byte
colorize_byte-close suppress n rest less plain =
    let room : leb 1024 n ≡ false = ground arith in
    let put = put_code-code suppress n (27 ∷ 91 ∷ 48 ∷ 109 ∷ []) less in
    rw (colorize_byte, room, plain, put) refl

-- The opening mark.
colorize_from-open :
    (suppress : Bool) (n letter : ℕ) (rest : List ℕ)
    → escape_num letter ≢ 0
    → n + length (opening suppress letter) < 1024
    → colorize_from suppress (state n false false) (letter ∷ 123 ∷ rest)
      ≡ opening suppress letter
        ++ colorize_from suppress (state (n + length (opening suppress letter)) true false) rest
unfolding colorize_from
colorize_from-open suppress n letter rest h less =
    rw
      (
        colorize_byte-letter suppress n letter rest h less,
        colorize_byte-skip suppress (n + length (opening suppress letter)) 123 rest less,
      )
      refl

-- The closing one.
colorize_from-close :
    (suppress : Bool) (n : ℕ) (rest : List ℕ)
    → n + length (closing suppress) < 1024
    → starts_brace rest ≡ false
    → colorize_from suppress (state n true false) (125 ∷ rest)
      ≡ closing suppress
        ++ colorize_from suppress (state (n + length (closing suppress)) false false) rest
unfolding colorize_from
colorize_from-close suppress n rest less plain =
    rw (colorize_byte-close suppress n rest less plain) refl

-- A letter is no brace.
escape_num-brace : (c : ℕ) → escape_num c ≢ 0 → (c == 123) ≡ false
unfolding escape_num
escape_num-brace c h = grind arith

starts_brace-marked : (ps : List Piece) → ArePieces ps → starts_brace (marked ps) ≡ false
starts_brace-marked [] h = refl
starts_brace-marked (bare s ∷ ps) ((h, _), hs) =
    starts_brace-append s (marked ps) h (starts_brace-marked ps hs)
starts_brace-marked (coloured letter s ∷ ps) ((_, h), hs) = escape_num-brace letter h

colorize_from-marked :
    (suppress : Bool) (n : ℕ) (ps : List Piece)
    → ArePieces ps
    → n + length (shown suppress ps) < 1024
    → colorize_from suppress (state n false false) (marked ps) ≡ shown suppress ps
unfolding colorize_from
colorize_from-marked suppress n [] h less = refl
colorize_from-marked suppress n (bare s ∷ ps) (h, hs) less =
    let len = length-append s (shown suppress ps) in
    rw
      (
        colorize_from-text suppress n false s (marked ps) h (starts_brace-marked ps hs)
            (omega (arith, len)),
        colorize_from-marked suppress (n + length s) ps hs (omega (arith, len)),
      )
      refl
colorize_from-marked suppress n (coloured letter s ∷ ps) ((h, names), hs) less =
    let o = opening suppress letter in
    let m = n + length o in
    let end = closing suppress ++ shown suppress ps in
    let l1 = length-append o (s ++ end) in
    let l2 = length-append s end in
    let l3 = length-append (closing suppress) (shown suppress ps) in
    rw
      (
        colorize_from-open suppress n letter (s ++ (125 ∷ marked ps)) names
            (omega (arith, l1, l2, l3)),
        colorize_from-text suppress m true s (125 ∷ marked ps) h refl (omega (arith, l1, l2, l3)),
        colorize_from-close suppress (m + length s) (marked ps) (omega (arith, l1, l2, l3))
            (starts_brace-marked ps hs),
        colorize_from-marked suppress (m + length s + length (closing suppress)) ps hs
            (omega (arith, l1, l2, l3)),
      )
      refl

-- A message of pieces, some without a mark and some in the colour of a letter, none with a brace in it,
-- comes out of colorize with each colour as the terminal's codes around its piece, or without them where
-- they are suppressed, if what comes out has fewer than 1024 bytes.
pub colorize-marked :
    (suppress : Bool) (ps : List Piece)
    → ArePieces ps
    → length (shown suppress ps) < 1024
    → colorize suppress (marked ps) ≡ ok (shown suppress ps)
unfolding colorize
colorize-marked suppress ps h less =
    let room : (length (shown suppress ps) == 1024) ≡ false = ground arith in
    rw (colorize, colorize_from-marked suppress 0 ps h (omega arith), room) refl
