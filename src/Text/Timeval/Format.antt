-- ===== src/Text/Timeval/Format.antt =====
-- src/strutil.c: the strings that is_timeval accepts.
use keyd_fork.Common.{
  ℕ, ◌≡◌, refl, sym, ap, subst, ◌∙◌, ◌↔◌, ◌⊎◌, inl, inr, Bool, true, false, ◌&&◌, List, [], ◌∷◌,
  ◌++◌, arith, Bool-cases,
}
use keyd_fork.Text.Timeval.{is_digit, skip_digits, is_suffix, is_timeval}

pub data AllDigits : List ℕ → Type 0 where
  none_left : AllDigits []
  digit : (c : ℕ) {s : List ℕ} → is_digit c ≡ true → AllDigits s → AllDigits (c ∷ s)

-- Digits, one at least, then `ms`, then nothing or a new line.
pub data IsTimeval : List ℕ → Type 0 where
  at_end : (c : ℕ) (ds : List ℕ) → AllDigits (c ∷ ds) → IsTimeval ((c ∷ ds) ++ 109 ∷ 115 ∷ [])
  at_line :
      (c : ℕ) (ds s : List ℕ) → AllDigits (c ∷ ds) → IsTimeval ((c ∷ ds) ++ 109 ∷ 115 ∷ 10 ∷ s)

skip_digits-append : (ds s : List ℕ) → AllDigits ds → skip_digits (ds ++ s) ≡ skip_digits s
unfolding skip_digits
skip_digits-append [] s h = refl
skip_digits-append (c ∷ ds) s (digit d h hs) = rw h (skip_digits-append ds s hs)

skip_digits-suffix : (s : List ℕ) → skip_digits (109 ∷ s) ≡ 109 ∷ s
unfolding skip_digits is_digit
skip_digits-suffix s = refl

first_digit : {c : ℕ} {s : List ℕ} → AllDigits (c ∷ s) → is_digit c ≡ true
first_digit (digit c h hs) = h

is_timeval-cons :
    (c : ℕ) (s : List ℕ) → is_timeval (c ∷ s) ≡ (is_digit c && is_suffix (skip_digits (c ∷ s)))
unfolding is_timeval
is_timeval-cons c s = refl

is_timeval-digits :
    (c : ℕ) (ds s : List ℕ)
    → AllDigits (c ∷ ds)
    → is_timeval (c ∷ (ds ++ s)) ≡ is_suffix (skip_digits s)
is_timeval-digits c ds s h =
    is_timeval-cons c (ds ++ s)
    ∙ ap (λ b. b && is_suffix (skip_digits (c ∷ (ds ++ s)))) (first_digit h)
    ∙ ap is_suffix (skip_digits-append (c ∷ ds) s h)

suffix-end : is_suffix (skip_digits (109 ∷ 115 ∷ [])) ≡ true
unfolding is_suffix skip_digits is_digit
suffix-end = refl

suffix-line : (s : List ℕ) → is_suffix (skip_digits (109 ∷ 115 ∷ 10 ∷ s)) ≡ true
unfolding is_suffix skip_digits is_digit
suffix-line s = refl

-- Where the suffix is accepted, it is one of the two.
suffix-cases :
    (s : List ℕ)
    → is_suffix s ≡ true
    → (s ≡ 109 ∷ 115 ∷ []) ⊎ ((r : List ℕ) × (s ≡ 109 ∷ 115 ∷ 10 ∷ r))
unfolding is_suffix
suffix-cases [] h = cc
suffix-cases (a ∷ []) h = cc
suffix-cases (a ∷ b ∷ []) h = inl (ground arith)
suffix-cases (a ∷ b ∷ c ∷ s) h = inr (s, ground arith)

accepted : (s : List ℕ) → IsTimeval s → is_timeval s ≡ true
accepted _ (at_end c ds h) = is_timeval-digits c ds (109 ∷ 115 ∷ []) h ∙ suffix-end
accepted _ (at_line c ds s h) = is_timeval-digits c ds (109 ∷ 115 ∷ 10 ∷ s) h ∙ suffix-line s

-- A string is the digits at its start and what follows them.
skip_digits-split : (s : List ℕ) → (ds : List ℕ) × AllDigits ds × (s ≡ ds ++ skip_digits s)
unfolding skip_digits
skip_digits-split [] = ([], none_left, refl)
skip_digits-split (c ∷ s) = elim (Bool-cases (is_digit c)) [
  | inl d ↦ let (ds, h, e) = skip_digits-split s in (c ∷ ds, digit c d h, rw d (ap (λ t. c ∷ t) e))
  | inr n ↦ ([], none_left, rw n refl)
]

IsTimeval-of :
    (c : ℕ) (ds t : List ℕ) → AllDigits (c ∷ ds) → is_suffix t ≡ true → IsTimeval (c ∷ (ds ++ t))
IsTimeval-of c ds t h e = elim (suffix-cases t e) [
  | inl end ↦ subst (λ t. IsTimeval (c ∷ (ds ++ t))) (sym end) (at_end c ds h)
  | inr (r, line) ↦ subst (λ t. IsTimeval (c ∷ (ds ++ t))) (sym line) (at_line c ds r h)
]

and_cases : (a : Bool) {b : Bool} → (a && b) ≡ true → (a ≡ true) × (b ≡ true)
and_cases true h = (refl, h)
and_cases false h = cc

skip_digits-first : (c : ℕ) (s : List ℕ) → is_digit c ≡ true → skip_digits (c ∷ s) ≡ skip_digits s
unfolding skip_digits
skip_digits-first c s h = rw h refl

recognised : (s : List ℕ) → is_timeval s ≡ true → IsTimeval s
unfolding is_timeval
recognised [] h = cc
recognised (c ∷ s) h =
    let (d, suffix) = and_cases (is_digit c) (sym (is_timeval-cons c s) ∙ h) in
    let (ds, all, e) = skip_digits-split s in
    let same = skip_digits-first c s d in
    subst (λ t. IsTimeval (c ∷ t)) (sym e)
      (IsTimeval-of c ds (skip_digits s) (digit c d all) (ap is_suffix (sym same) ∙ suffix))

-- is_timeval accepts exactly the strings of one digit or more, then `ms`, then the end of the string
-- or of a line.
pub is_timeval-IsTimeval : (s : List ℕ) → (is_timeval s ≡ true) ↔ IsTimeval s
is_timeval-IsTimeval s = (recognised s, accepted s)
