-- ===== src/Macro/Parse/Fuel.antt =====
-- src/macro.c: the loops of macro_parse end.
use keyd_fork.Common.{
  ℕ, zero, suc, ◌≤◌, ◌<◌, ◌≡◌, refl, ◌≢◌, ◌⊎◌, inl, inr, Option, none, some, List, [], ◌∷◌, arith,
  Option-cases, if_split, length, drop, elem, Result, IsFueled, IsFueled-bind, IsFueled-ne, ok,
  out_of_fuel, returned, failed,
}
use keyd_fork.Keys.Names.{parse_key_sequence}
use keyd_fork.Text.Timeval.{is_timeval}
use keyd_fork.Config.{Macro}
use keyd_fork.Macro.{Env}
use keyd_fork.Macro.Parse.{add_chars, add_token, add_tokens, macro_parse, add_char, first_byte}
use keyd_fork.Text.Utf8.{utf8_read_char, end, char, truncated, read_two, read_three, read_four}

read_cases :
    (s : List ℕ)
    → (utf8_read_char s ≡ end)
      ⊎ (utf8_read_char s ≡ truncated)
      ⊎ ((size : ℕ) × (c : ℕ) × (utf8_read_char s ≡ char size c) × (0 < size) × (0 < length s))
unfolding utf8_read_char read_two read_three read_four
read_cases [] = inl refl
read_cases (a ∷ []) = ground arith
read_cases (a ∷ b ∷ []) = ground arith
read_cases (a ∷ b ∷ c ∷ []) = ground arith
read_cases (a ∷ b ∷ c ∷ d ∷ s) = ground arith

length-drop_le : (n : ℕ) (s : List ℕ) → length (drop n s) ≤ length s
length-drop_le zero s = omega arith
length-drop_le (suc n) [] = omega arith
length-drop_le (suc n) (x ∷ s) = omega (arith, length-drop_le n s)

length-drop : (n : ℕ) (s : List ℕ) → 0 < n → 0 < length s → length (drop n s) < length s
length-drop zero s h k = omega arith
length-drop (suc n) [] h k = omega arith
length-drop (suc n) (x ∷ s) h k = omega (arith, length-drop_le n s)

no_room : (n : ℕ) → n < 0 → ⊥
no_room n h = omega arith

-- What is done with an accepted macro.
some-IsFueled :
    (o : Option Macro) (f : Macro → Result (Option Macro))
    → ((m : Macro) → IsFueled (f m))
    → IsFueled (elim o [ none ↦ ok none | some m ↦ f m ])
some-IsFueled none f h = returned _
some-IsFueled (some m) f h = h m

add_chars-IsFueled :
    (env : Env) (fuel : ℕ) (m : Macro) (s : List ℕ)
    → length s < fuel
    → IsFueled (add_chars env fuel m s)
unfolding add_chars
add_chars-IsFueled env zero m s h = elim (no_room (length s) h) [ ]
add_chars-IsFueled env (suc fuel) m s h = elim (read_cases s) [
  | inl e ↦ rw (e, add_chars) (returned _)
  | inr (inl e) ↦ rw (e, add_chars) (failed _)
  | inr (inr (size, c, e, p, q)) ↦
      rw (e, add_chars)
        (some-IsFueled (add_char env m (first_byte s) size c) _ (λ m'.
          add_chars-IsFueled env fuel m' (drop size s) (omega (arith, length-drop size s p q))))
]

add_token-IsFueled : (env : Env) (m : Macro) (token : List ℕ) → IsFueled (add_token env m token)
unfolding add_token
add_token-IsFueled env m token = elim (Option-cases (parse_key_sequence token)) [
  | inr ((code, mods), e) ↦ rw (e, add_token) (returned _)
  | inl e ↦
      rw (e, add_token)
        (if_split IsFueled (elem 43 token) (λ _. returned _)
          (λ _.
            if_split IsFueled (is_timeval token) (λ _. returned _)
              (λ _. add_chars-IsFueled env _ m token (omega arith))))
]

add_tokens-IsFueled : (env : Env) (m : Macro) (ts : List (List ℕ)) → IsFueled (add_tokens env m ts)
unfolding add_tokens
add_tokens-IsFueled env m [] = returned _
add_tokens-IsFueled env m (t ∷ ts) =
    IsFueled-bind _ (add_token-IsFueled env m t)
      (λ r. some-IsFueled r _ (λ m'. add_tokens-IsFueled env m' ts))

-- Parsing a macro ends, whatever the text.
pub macro_parse-terminates : (env : Env) (s : List ℕ) → macro_parse env s ≢ out_of_fuel
unfolding macro_parse
macro_parse-terminates env s = IsFueled-ne (add_tokens-IsFueled env [] _)
