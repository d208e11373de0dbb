-- ===== src/Util/Ends.antt =====
-- src/util.c: when xread and xwrite end.
use keyd_fork.Common.{
  ℕ, zero, suc, ◌+◌, ◌-◌, ◌≤◌, ◌<◌, ◌≡◌, refl, ap, ◌∙◌, ◌≢◌, true, false, Option, none, some, List,
  [], ◌∷◌, ◌++◌, arith, ◌==◌, if◌then◌else◌, if_intro, if_split, length, take, drop, length-append,
  Result, Ensures, IsFueled, Ensures-map, ok, aborted, out_of_fuel, exited, done, aborts, starves,
  returned, failed,
}
use mathlib.Core.List.{append-nil, append_assoc}
use keyd_fork.Util.{xread, xwrite}

take-nil : (n : ℕ) → take {A = ℕ} n [] ≡ []
take-nil zero = refl
take-nil (suc n) = refl

-- At the end of the file, while bytes are missing, xread never returns: no number of calls of read is
-- enough.
pub xread-end :
    (fuel : ℕ) (reads : ℕ → Option (List ℕ)) (sz : ℕ) (got : List ℕ)
    → ((k : ℕ) → reads k ≡ some [])
    → length got < sz
    → xread fuel reads sz got ≡ out_of_fuel
unfolding xread
xread-end zero reads sz got h less = refl
xread-end (suc fuel) reads sz got h less =
    let ih =
      xread-end fuel (λ k. reads (suc k)) sz (got ++ []) (λ k. h (suc k))
        (rw (append-nil got) less) in
    rw (xread, h 0, take-nil (sz - length got)) (ground arith)

length-take : (n : ℕ) (xs : List ℕ) → 0 < n → xs ≢ [] → 0 < length (take n xs)
length-take zero xs h k = omega arith
length-take (suc n) [] h k = elim (k refl) [ ]
length-take (suc n) (x ∷ xs) h k = omega arith

length-take_le : (n : ℕ) (xs : List ℕ) → length (take n xs) ≤ n
length-take_le zero xs = omega arith
length-take_le (suc n) [] = omega arith
length-take_le (suc n) (x ∷ xs) = omega (arith, length-take_le n xs)

left : {a b : ℕ} → (a == b) ≡ false → a ≤ b → 0 < b - a
left {a} {b} e h = let less : a < b = ground arith in omega arith

-- Where no call of read gives nothing, a call for each byte that is missing and one more are enough.
xread-IsFueled :
    (fuel : ℕ) (reads : ℕ → Option (List ℕ)) (sz : ℕ) (got : List ℕ)
    → ((k : ℕ) → reads k ≢ some [])
    → length got ≤ sz
    → sz < fuel + length got
    → IsFueled (xread fuel reads sz got)
unfolding xread
xread-IsFueled zero reads sz got h room less = elim (absurd room less) [ ]
  where
    absurd : length got ≤ sz → sz < 0 + length got → ⊥
    absurd a b = omega arith
xread-IsFueled (suc fuel) reads sz got h room less = call (reads 0) (h 0) (λ bytes more.
    xread-IsFueled fuel (λ k. reads (suc k)) sz (got ++ take (sz - length got) bytes)
      (λ k. h (suc k)))
  where
    next : List ℕ → Result (List ℕ)
    next bytes = xread fuel (λ k. reads (suc k)) sz (got ++ take (sz - length got) bytes)

    call :
        (o : Option (List ℕ))
        → o ≢ some []
        → ((bytes : List ℕ)
            → bytes ≢ []
            → length (got ++ take (sz - length got) bytes) ≤ sz
            → sz < fuel + length (got ++ take (sz - length got) bytes)
            → IsFueled (next bytes))
        → IsFueled (elim o [
          | none ↦ if length got == sz then ok got else aborted exited
          | some bytes ↦ let rest = next bytes in if length got == sz then ok got else rest
        ])
    call none k ih = if_intro IsFueled (length got == sz) (returned got) (failed exited)
    call (some bytes) k ih =
        if_split IsFueled (length got == sz) (λ e. returned got)
          (λ e.
            ih bytes (λ same. k (ap some same))
              (omega (
                arith,
                length-append got (take (sz - length got) bytes),
                length-take_le (sz - length got) bytes,
              ))
              (omega (
                arith,
                length-append got (take (sz - length got) bytes),
                length-take (sz - length got) bytes (left e room) (λ same. k (ap some same)),
              )))

take-drop : (n : ℕ) (xs : List ℕ) → take n xs ++ drop n xs ≡ xs
take-drop zero xs = refl
take-drop (suc n) [] = refl
take-drop (suc n) (x ∷ xs) = rw (take-drop n xs) refl

length-none : (xs : List ℕ) → (length xs == 0) ≡ true → xs ≡ []
length-none [] e = refl
length-none (x ∷ xs) e = ground arith

-- What xwrite has written when it returns is the whole buffer.
pub xwrite-whole :
    (fuel : ℕ) (writes : ℕ → Option ℕ) (buf out : List ℕ)
    → Ensures (λ r. r ≡ out ++ buf) (xwrite fuel writes buf out)
unfolding xwrite
xwrite-whole zero writes buf out = starves
xwrite-whole (suc fuel) writes buf out =
    call (writes 0) (λ n. xwrite-whole fuel (λ k. writes (suc k)) (drop n buf) (out ++ take n buf))
  where
    all_out : (length buf == 0) ≡ true → Ensures (λ r. r ≡ out ++ buf) (ok out)
    all_out e = done (rw (length-none buf e, append-nil out) refl)

    call :
        (o : Option ℕ)
        → ((n : ℕ)
            → Ensures
                (λ r. r ≡ (out ++ take n buf) ++ drop n buf)
                (xwrite fuel (λ k. writes (suc k)) (drop n buf) (out ++ take n buf)))
        → Ensures
            (λ r. r ≡ out ++ buf)
            (elim o [
              | none ↦ if length buf == 0 then ok out else aborted exited
              | some n ↦
                  let rest = xwrite fuel (λ k. writes (suc k)) (drop n buf) (out ++ take n buf) in
                  if length buf == 0 then ok out else rest
            ])
    call none ih = if_split (Ensures (λ r. r ≡ out ++ buf)) (length buf == 0) all_out (λ e. aborts)
    call (some n) ih = if_split (Ensures (λ r. r ≡ out ++ buf)) (length buf == 0) all_out (λ e.
        Ensures-map _ (ih n)
          (λ r same. same ∙ append_assoc out (take n buf) (drop n buf) ∙ rw (take-drop n buf) refl))
