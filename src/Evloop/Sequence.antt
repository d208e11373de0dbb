-- ===== src/Evloop/Sequence.antt =====
-- src/evloop.c: when panic_check ends the process.
use keyd_fork.Common.{
  ℕ, zero, suc, ◌≡◌, refl, ◌≢◌, ◌↔◌, not, ◌&&◌, List, [], ◌∷◌, arith, ◌==◌, if◌then◌else◌, if_intro,
  Result, ◌>>=◌, Ensures, Ensures-bind, Ensures-ok, ok, aborted, exited, done, aborts,
}
use keyd_fork.Keys.{keyd_esc, keyd_enter, keyd_backspace}
use keyd_fork.Evloop.{Panic, track_key, panic_check}

abbrev pub calm : Panic
calm = record { enter = 0; backspace = 0; escape = 0 }

-- The checks of events, newest first, from the start.
abbrev pub checks : List (ℕ × ℕ) → Result Panic
checks [] = ok calm
checks ((code, pressed) ∷ h) = checks h >>= (λ p. panic_check p code pressed)

-- How the newest event of a key has it: 0 is up, and so is a key without events.
abbrev pub value : List (ℕ × ℕ) → ℕ → ℕ
value [] c = 0
value ((code, pressed) ∷ h) c = if code == c then pressed else value h c

-- The variables are the newest values.
abbrev Tracks : List (ℕ × ℕ) → Panic → Type 0
Tracks h p =
    (p.enter ≡ value h keyd_enter)
    × (p.backspace ≡ value h keyd_backspace)
    × (p.escape ≡ value h keyd_esc)

track_key-Tracks :
    (h : List (ℕ × ℕ)) (p : Panic) (code pressed : ℕ)
    → Tracks h p
    → Tracks ((code, pressed) ∷ h) (track_key p code pressed)
unfolding track_key
track_key-Tracks h p code pressed t =
    let (a, b, c) = t in (ground arith, ground arith, ground arith)

checked-Tracks :
    (h : List (ℕ × ℕ)) (p : Panic) (code pressed : ℕ)
    → Tracks h p
    → Ensures (Tracks ((code, pressed) ∷ h)) (panic_check p code pressed)
unfolding panic_check
checked-Tracks h p code pressed t =
    let p' = track_key p code pressed in
    if_intro (Ensures (Tracks ((code, pressed) ∷ h)))
      (not (p'.backspace == 0) && not (p'.enter == 0) && not (p'.escape == 0)) aborts
      (done (track_key-Tracks h p code pressed t))

checks-Tracks : (h : List (ℕ × ℕ)) → Ensures (Tracks h) (checks h)
checks-Tracks [] = done (refl, refl, refl)
checks-Tracks ((code, pressed) ∷ h) =
    Ensures-bind _ (checks-Tracks h) (λ p t. checked-Tracks h p code pressed t)

-- The test of the three values.
dies :
    (a b c : ℕ) (p : Panic)
    → ((if not (b == 0) && not (a == 0) && not (c == 0) then aborted exited else ok p)
        ≡ aborted exited)
      ↔ ((a ≢ 0) × (b ≢ 0) × (c ≢ 0))
dies zero zero c p = (λ e. ground arith, λ h. elim (h.0 refl) [ ])
dies zero (suc b) c p = (λ e. ground arith, λ h. elim (h.0 refl) [ ])
dies (suc a) zero c p = (λ e. ground arith, λ h. elim (h.1 refl) [ ])
dies (suc a) (suc b) zero p = (λ e. ground arith, λ h. elim (h.2 refl) [ ])
dies (suc a) (suc b) (suc c) p =
    (λ e. (λ z. omega arith, λ z. omega arith, λ z. omega arith), λ h. ground arith)

-- While the loop has run on, the next event ends the process exactly where the newest events of enter,
-- of backspace and of escape, itself included, all have the key pressed.
pub panic_check-sequence :
    (h : List (ℕ × ℕ)) (p : Panic) (code pressed : ℕ)
    → checks h ≡ ok p
    → (panic_check p code pressed ≡ aborted exited) ↔ (
        (value ((code, pressed) ∷ h) keyd_enter ≢ 0)
        × (value ((code, pressed) ∷ h) keyd_backspace ≢ 0)
        × (value ((code, pressed) ∷ h) keyd_esc ≢ 0))
unfolding panic_check
panic_check-sequence h p code pressed run =
    let (a, b, c) = track_key-Tracks h p code pressed (Ensures-ok (checks-Tracks h) run) in
    rw (← a, ← b, ← c)
      (dies (track_key p code pressed).enter (track_key p code pressed).backspace
        (track_key p code pressed).escape (track_key p code pressed))
