-- ===== src/Log/Long.antt =====
-- src/log.c: colorize on a text without marks, however long.
use keyd_fork.Common.{
  ℕ, zero, suc, ◌+◌, ◌≤◌, ◌<◌, ◌≡◌, refl, Bool, true, false, ◌&&◌, List, [], ◌∷◌, arith, ltb, leb,
  ◌==◌, if◌then◌else◌, length, take, elem, Result, ok, aborted, out_of_bounds,
}
use keyd_fork.Log.{Colour, colorize_byte, colorize_from, starts_brace, colorize}

abbrev pub state : ℕ → Bool → Bool → Colour
state n inside skip = record { n = n; inside_escape = inside; skip = skip }

-- A byte of the text.
pub colorize_byte-text :
    (suppress : Bool) (n : ℕ) (inside : Bool) (c : ℕ) (s : List ℕ)
    → n < 1024
    → starts_brace s ≡ false
    → (c == 125 && inside) ≡ false
    → colorize_byte suppress (state n inside false) c s ≡ (c ∷ [], state (n + 1) inside false)
unfolding colorize_byte
colorize_byte-text suppress n inside c s less plain close =
    let room : leb 1024 n ≡ false = ground arith in rw (colorize_byte, room, plain, close) refl

starts_brace-elem : (s : List ℕ) → elem 123 s ≡ false → starts_brace s ≡ false
starts_brace-elem [] h = refl
starts_brace-elem (c ∷ s) h = ground arith

colorize_from-full :
    (suppress : Bool) (st : Colour) (s : List ℕ) → 1024 ≤ st.n → colorize_from suppress st s ≡ []
unfolding colorize_from colorize_byte
colorize_from-full suppress st [] h = refl
colorize_from-full suppress st (c ∷ s) h =
    let ih = colorize_from-full suppress st s h in
    let full : leb 1024 st.n ≡ true = ground arith in rw (colorize_byte, full) ih

take-nil : (n : ℕ) → take {A = ℕ} n [] ≡ []
take-nil zero = refl
take-nil (suc n) = refl

colorize_from-take :
    (suppress : Bool) (room n : ℕ) (s : List ℕ)
    → room + n ≡ 1024
    → elem 123 s ≡ false
    → colorize_from suppress (state n false false) s ≡ take room s
unfolding colorize_from
colorize_from-take suppress zero n s e h =
    colorize_from-full suppress (state n false false) s (omega arith)
colorize_from-take suppress (suc room) n [] e h = refl
colorize_from-take suppress (suc room) n (c ∷ s) e h =
    let plain : elem 123 s ≡ false = ground arith in
    let close : (c == 125 && false) ≡ false = ground arith in
    let step =
      colorize_byte-text suppress n false c s (omega arith) (starts_brace-elem s plain) close in
    rw (step, colorize_from-take suppress room (n + 1) s (omega arith) plain) refl

length-take-min : (n : ℕ) (s : List ℕ) → n ≤ length s → length (take n s) ≡ n
length-take-min zero s h = omega arith
length-take-min (suc n) [] h = omega arith
length-take-min (suc n) (c ∷ s) h = omega (arith, length-take-min n s (omega arith))

take-whole : (n : ℕ) (s : List ℕ) → length s ≤ n → take n s ≡ s
take-whole n [] h = take-nil n
take-whole zero (c ∷ s) h = ground arith
take-whole (suc n) (c ∷ s) h = rw (take-whole n s (omega arith)) refl

-- A text without { is left as it is by colorize, where it has fewer than 1024 bytes; any longer one fills
-- buf, and the NUL is written behind it.
pub colorize-long :
    (suppress : Bool) (s : List ℕ)
    → elem 123 s ≡ false
    → colorize suppress s ≡ (if ltb (length s) 1024 then ok s else aborted out_of_bounds)
unfolding colorize
colorize-long suppress s h =
    rw (colorize, colorize_from-take suppress 1024 0 s (omega arith) h)
      (cases (ltb (length s) 1024) refl)
  where
    cases :
        (b : Bool)
        → ltb (length s) 1024 ≡ b
        → Path
            (Result (List ℕ))
            (if length (take 1024 s) == 1024 then aborted out_of_bounds else ok (take 1024 s))
            (if b then ok s else aborted out_of_bounds)
    cases true e =
        let short : length s < 1024 = ground arith in
        rw (take-whole 1024 s (omega arith)) (ground arith)
    cases false e =
        let whole : 1024 ≤ length s = ground arith in rw (length-take-min 1024 s whole) refl
