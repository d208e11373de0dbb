-- ===== src/Ini/Roundtrip.antt =====
-- src/ini.c: parse_kvp reads back a line that is written from a key and a value.
use keyd_fork.Common.{
  ℕ, ◌≡◌, refl, sym, ap, subst, ◌∙◌, ◌⊎◌, inl, inr, Bool, true, false, none, List, [], ◌∷◌, ◌++◌,
  arith, ◌==◌, if◌then◌else◌, ==_eq, Bool-cases, elem,
}
use keyd_fork.Ini.{is_blank, parse_key, parse_kvp}

abbrev pub all_blank : List ℕ → Bool
all_blank [] = true
all_blank (c ∷ s) = if is_blank c then all_blank s else false

append_assoc : (xs ys zs : List ℕ) → (xs ++ ys) ++ zs ≡ xs ++ (ys ++ zs)
append_assoc [] ys zs = refl
append_assoc (x ∷ xs) ys zs = ap (λ t. x ∷ t) (append_assoc xs ys zs)

append_nil : (xs : List ℕ) → xs ++ [] ≡ xs
append_nil [] = refl
append_nil (x ∷ xs) = ap (λ t. x ∷ t) (append_nil xs)

head_no_equals : (x : ℕ) (k : List ℕ) → elem 61 (x ∷ k) ≡ false → (x == 61) ≡ false
head_no_equals x k h = ground arith

tail_no_equals : (x : ℕ) (k : List ℕ) → elem 61 (x ∷ k) ≡ false → elem 61 k ≡ false
tail_no_equals x k h = ground arith

parse_key-other :
    (key blanks : List ℕ) (c : ℕ) (s : List ℕ)
    → (c == 61) ≡ false
    → is_blank c ≡ false
    → parse_key key blanks (c ∷ s) ≡ parse_key (key ++ (blanks ++ c ∷ [])) [] s
unfolding parse_key
parse_key-other key blanks c s e b = rw (e, b) refl

parse_key-blank :
    (key blanks : List ℕ) (c : ℕ) (s : List ℕ)
    → (c == 61) ≡ false
    → is_blank c ≡ true
    → parse_key key blanks (c ∷ s) ≡ parse_key key (blanks ++ c ∷ []) s
unfolding parse_key
parse_key-blank key blanks c s e b = rw (e, b) refl

parse_kvp-cons :
    (c : ℕ) (s : List ℕ)
    → parse_kvp (c ∷ s) ≡ (if c == 61 then parse_key (61 ∷ []) [] s else parse_key [] [] (c ∷ s))
unfolding parse_kvp
parse_kvp-cons c s = refl

parse_kvp-first :
    (first : ℕ) (s : List ℕ)
    → (first ≡ 61) ⊎ (is_blank first ≡ false)
    → parse_kvp (first ∷ s) ≡ parse_key (first ∷ []) [] s
parse_kvp-first first s (inl e) =
    subst (λ f. parse_kvp (f ∷ s) ≡ parse_key (f ∷ []) [] s) (sym e) (parse_kvp-cons 61 s)
parse_kvp-first first s (inr b) = elim (Bool-cases (first == 61)) [
  | inl e ↦
      subst (λ f. parse_kvp (f ∷ s) ≡ parse_key (f ∷ []) [] s) (sym (==_eq first 61 e))
        (parse_kvp-cons 61 s)
  | inr n ↦ parse_kvp-cons first s ∙ rw n (parse_key-other [] [] first s n b)
]

parse_key-end : (key blanks : List ℕ) → parse_key key blanks [] ≡ (key ++ blanks, none)
unfolding parse_key
parse_key-end key blanks = refl

parse_key-none :
    (key blanks s : List ℕ)
    → elem 61 s ≡ false
    → parse_key key blanks s ≡ (key ++ (blanks ++ s), none)
parse_key-none key blanks [] h =
    parse_key-end key blanks ∙ ap (λ t. (key ++ t, none)) (sym (append_nil blanks))
parse_key-none key blanks (x ∷ s) h = elim (Bool-cases (is_blank x)) [
  | inl blank ↦
      parse_key-blank key blanks x s (head_no_equals x s h) blank
      ∙ parse_key-none key (blanks ++ x ∷ []) s (tail_no_equals x s h)
      ∙ ap (λ t. (key ++ t, none)) (append_assoc blanks (x ∷ []) s)
  | inr other ↦
      parse_key-other key blanks x s (head_no_equals x s h) other
      ∙ parse_key-none (key ++ (blanks ++ x ∷ [])) [] s (tail_no_equals x s h)
      ∙ ap (λ t. (t, none))
          (append_assoc key (blanks ++ x ∷ []) s
            ∙ ap (λ t. key ++ t) (append_assoc blanks (x ∷ []) s))
]

-- A line that holds no `=` but as its first byte, and starts with no blank, is a key without a
-- value.
pub parse_kvp-none :
    (first : ℕ) (s : List ℕ)
    → (first ≡ 61) ⊎ (is_blank first ≡ false)
    → elem 61 s ≡ false
    → parse_kvp (first ∷ s) ≡ (first ∷ s, none)
parse_kvp-none first s f h = parse_kvp-first first s f ∙ parse_key-none (first ∷ []) [] s h
