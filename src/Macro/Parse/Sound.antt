-- ===== src/Macro/Parse/Sound.antt =====
-- src/macro.c: what every macro that macro_parse accepts is like.
use keyd_fork.Common.{
  ℕ, zero, suc, ◌%◌, ◌≤◌, ◌<◌, ◌≡◌, refl, ◌⊎◌, inl, inr, Bool, true, false, ◌&&◌, Option, none,
  some, List, [], ◌∷◌, ◌++◌, arith, ltb, ◌==◌, Option-cases, if_split, length, drop, length-append,
  elem, Result, Ensures, Ensures-bind, Ensures-ok, ok, done, aborts, starves,
}
use keyd_fork.Keys.Names.{parse_key_sequence}
use keyd_fork.Text.Utf8.{Utf8, utf8_read_char}
use keyd_fork.Text.Timeval.{is_timeval}
use keyd_fork.Macro.{Env}
use keyd_fork.Text.CString.{atoi_16}
use keyd_fork.Keys.Table.{keycode_table}
use keyd_fork.Config.{MacroType, MacroEntry, Macro}
use keyd_fork.Macro.Released.{IsReleased}
use keyd_fork.Text.CString.{tokens, atoi_16}
use keyd_fork.Text.Utf8.{Utf8, end, char, truncated, utf8_read_char}
use keyd_fork.Macro.Parse.{
  add_entry, add_keys, add_group, find_char, add_char, first_byte, add_chars, add_token, add_tokens,
  macro_parse,
}

-- 64 entries at most, of 16 bits each.
abbrev AllFit : Macro → Type 0
AllFit [] = Unit {0}
AllFit (e ∷ es) = (e.data' < 65536) × AllFit es

abbrev Fits : Macro → Type 0
Fits m = (length m ≤ 64) × AllFit m

-- And what it holds it releases.
abbrev pub IsPlayable : Macro → Type 0
IsPlayable m = IsReleased false m × (length m ≤ 64) × AllFit m

abbrev pub Accepts : (Macro → Type 0) → Option Macro → Type 0
Accepts P none = Unit {0}
Accepts P (some m) = P m

AllFit-append : (m : Macro) (e : MacroEntry) → AllFit m → e.data' < 65536 → AllFit (m ++ (e ∷ []))
AllFit-append [] e h k = (k, tt)
AllFit-append (x ∷ m) e h k = (h.0, AllFit-append m e h.1 k)

Released-release :
    (b : Bool) (m : Macro) (d : ℕ)
    → IsReleased b (m ++ (record { type = MacroType.release; data' = d } ∷ []))
Released-release b [] d = refl
Released-release b (x ∷ m) d = Released-release _ m d

-- What an entry that is no hold leaves as it is.
abbrev keeps_open : MacroType → Bool
keeps_open MacroType.hold = false
keeps_open _ = true

Released-append :
    (b : Bool) (m : Macro) (t : MacroType) (d : ℕ)
    → IsReleased b m
    → keeps_open t ≡ true
    → IsReleased b (m ++ (record { type = t; data' = d } ∷ []))
Released-append b [] MacroType.keysequence d h k = h
Released-append b [] MacroType.hold d h k = cc
Released-append b [] MacroType.release d h k = refl
Released-append b [] MacroType.unicode d h k = h
Released-append b [] MacroType.timeout d h k = h
Released-append b (x ∷ m) t d h k = Released-append _ m t d h k

ltb-lt : (a b : ℕ) → ltb a b ≡ true → a < b
ltb-lt a b h = ground arith

add_entry-Fits : (m : Macro) (t : MacroType) (d : ℕ) → Fits m → Accepts Fits (add_entry m t d)
unfolding add_entry
add_entry-Fits m t d h =
    if_split (Accepts Fits) (ltb (length m) 64)
      (λ room. (
        omega
            (arith, length-append m (record { type = t; data' = d % 65536 } ∷ []), ltb-lt _ _ room),
        AllFit-append m _ h.1 (omega arith),
      ))
      (λ _. tt)

add_entry-IsPlayable :
    (m : Macro) (t : MacroType) (d : ℕ)
    → keeps_open t ≡ true
    → IsPlayable m
    → Accepts IsPlayable (add_entry m t d)
unfolding add_entry
add_entry-IsPlayable m t d k h =
    if_split (Accepts IsPlayable) (ltb (length m) 64)
      (λ room. (
        Released-append false m t _ h.0 k,
        omega
            (arith, length-append m (record { type = t; data' = d % 65536 } ∷ []), ltb-lt _ _ room),
        AllFit-append m _ h.2 (omega arith),
      ))
      (λ _. tt)

-- A continuation of an accepted macro.
Accepts-then :
    (P Q : Macro → Type 0) (o : Option Macro) (f : Macro → Option Macro)
    → Accepts P o
    → ((m : Macro) → P m → Accepts Q (f m))
    → Accepts Q (elim o [ none ↦ none | some m ↦ f m ])
Accepts-then P Q none f h k = tt
Accepts-then P Q (some m) f h k = k m h

add_key-Fits :
    (m : Macro) (k : List ℕ) (o : Option (ℕ × ℕ))
    → Fits m
    → Accepts Fits (elim o [ none ↦ none | some (code, mods) ↦ add_entry m MacroType.hold code ])
add_key-Fits m k none h = tt
add_key-Fits m k (some (code, mods)) h = add_entry-Fits m MacroType.hold code h

add_keys-Fits : (m : Macro) (ks : List (List ℕ)) → Fits m → Accepts Fits (add_keys m ks)
unfolding add_keys
add_keys-Fits m [] h = h
add_keys-Fits m (k ∷ ks) h =
    Accepts-then Fits Fits _ (λ m'. add_keys m' ks)
      (if_split (Accepts Fits) (is_timeval k)
        (λ _. add_entry-Fits m MacroType.timeout (atoi_16 k) h)
        (λ _. add_key-Fits m k (parse_key_sequence k) h))
      (λ m' h'. add_keys-Fits m' ks h')

release-IsPlayable : (m : Macro) → Fits m → Accepts IsPlayable (add_entry m MacroType.release 0)
unfolding add_entry
release-IsPlayable m h =
    if_split (Accepts IsPlayable) (ltb (length m) 64)
      (λ room. (
        Released-release false m _,
        omega (
          arith,
          length-append m (record { type = MacroType.release; data' = 0 } ∷ []),
          ltb-lt _ _ room,
        ),
        AllFit-append m _ h.1 (omega arith),
      ))
      (λ _. tt)

add_group-IsPlayable :
    (m : Macro) (token : List ℕ) → IsPlayable m → Accepts IsPlayable (add_group m token)
unfolding add_group
add_group-IsPlayable m token h =
    Accepts-then Fits IsPlayable _ (λ m'. add_entry m' MacroType.release 0)
      (add_keys-Fits m (tokens 43 token) (h.1, h.2)) (λ m' f. release-IsPlayable m' f)

add_char-IsPlayable :
    (env : Env) (m : Macro) (byte size c : ℕ)
    → IsPlayable m
    → Accepts IsPlayable (add_char env m byte size c)
unfolding add_char
add_char-IsPlayable env m byte size c h =
    if_split (Accepts IsPlayable) (size == 1 && ltb c 128)
      (λ _. elim (Option-cases (find_char byte keycode_table)) [
        | inl e ↦ rw e h
        | inr (d, e) ↦ rw e (add_entry-IsPlayable m MacroType.keysequence d refl h)
      ])
      (λ _. elim (Option-cases (env.unicode_lookup_index c)) [
        | inl e ↦ rw e h
        | inr (x, e) ↦ rw e (
            if_split (Accepts IsPlayable) (ltb 0 x)
              (λ _. add_entry-IsPlayable m MacroType.unicode x refl h) (λ _. h))
      ])

Ensures-then :
    (P Q : Macro → Type 0) (o : Option Macro) (f : Macro → Result (Option Macro))
    → Accepts P o
    → ((m : Macro) → P m → Ensures (Accepts Q) (f m))
    → Ensures (Accepts Q) (elim o [ none ↦ ok none | some m ↦ f m ])
Ensures-then P Q none f h k = done tt
Ensures-then P Q (some m) f h k = k m h

Utf8-cases : (u : Utf8) → (u ≡ end) ⊎ (u ≡ truncated) ⊎ ((n : ℕ) × (c : ℕ) × (u ≡ char n c))
Utf8-cases end = inl refl
Utf8-cases truncated = inr (inl refl)
Utf8-cases (char n c) = inr (inr (n, c, refl))

add_chars-IsPlayable :
    (env : Env) (fuel : ℕ) (m : Macro) (s : List ℕ)
    → IsPlayable m
    → Ensures (Accepts IsPlayable) (add_chars env fuel m s)
unfolding add_chars
add_chars-IsPlayable env zero m s h = starves
add_chars-IsPlayable env (suc fuel) m s h = elim (Utf8-cases (utf8_read_char s)) [
  | inl e ↦ rw (e, add_chars) (done h)
  | inr (inl e) ↦ rw (e, add_chars) aborts
  | inr (inr (size, c, e)) ↦
      rw (e, add_chars)
        (Ensures-then IsPlayable IsPlayable (add_char env m (first_byte s) size c)
          (λ m'. add_chars env fuel m' (drop size s))
          (add_char-IsPlayable env m (first_byte s) size c h)
          (λ m' h'. add_chars-IsPlayable env fuel m' (drop size s) h'))
]

add_token-IsPlayable :
    (env : Env) (m : Macro) (token : List ℕ)
    → IsPlayable m
    → Ensures (Accepts IsPlayable) (add_token env m token)
unfolding add_token
add_token-IsPlayable env m token h = elim (Option-cases (parse_key_sequence token)) [
  | inr ((code, mods), e) ↦
      rw (e, add_token) (done (add_entry-IsPlayable m MacroType.keysequence _ refl h))
  | inl e ↦
      rw (e, add_token)
        (if_split (Ensures (Accepts IsPlayable)) (elem 43 token)
          (λ _. done (add_group-IsPlayable m token h))
          (λ _.
            if_split (Ensures (Accepts IsPlayable)) (is_timeval token)
              (λ _. done (add_entry-IsPlayable m MacroType.timeout _ refl h))
              (λ _. add_chars-IsPlayable env _ m token h)))
]

add_tokens-IsPlayable :
    (env : Env) (m : Macro) (ts : List (List ℕ))
    → IsPlayable m
    → Ensures (Accepts IsPlayable) (add_tokens env m ts)
unfolding add_tokens
add_tokens-IsPlayable env m [] h = done h
add_tokens-IsPlayable env m (t ∷ ts) h = Ensures-bind _ (add_token-IsPlayable env m t h) (λ r a.
    Ensures-then IsPlayable IsPlayable r (λ m'. add_tokens env m' ts) a
      (λ m' h'. add_tokens-IsPlayable env m' ts h'))

pub macro_parse-Ensures :
    (env : Env) (s : List ℕ) → Ensures (Accepts IsPlayable) (macro_parse env s)
unfolding macro_parse
macro_parse-Ensures env s = add_tokens-IsPlayable env [] (tokens 32 s) (refl, omega arith, tt)

-- Every macro that macro_parse accepts lets go of all keys it holds and has at most 64 entries, each
-- with 16 bits of data.
pub macro_parse-IsPlayable :
    (env : Env) (s : List ℕ) (m : Macro) → macro_parse env s ≡ ok (some m) → IsPlayable m
macro_parse-IsPlayable env s m h = Ensures-ok (macro_parse-Ensures env s) h
