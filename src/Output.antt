-- ===== src/Output.antt =====
-- What leaves the engine, and the state of the keys that it leaves behind.
use keyd_fork.Common.{ℕ, ◌≡◌, refl, Bool, true, false, List, [], ◌∷◌, ◌++◌, ◌==◌, if◌then◌else◌}

-- What the engine makes happen outside: key events for the virtual device, layer notifications,
-- pauses in microseconds and shell commands.
pub data Output : Type 0 where
  key : ℕ → Bool → Output
  layer_change : ℕ → Bool → Output
  sleep : ℕ → Output
  command : ℕ → Output

-- Outputs in order, put before those that went out earlier: newest first.
unfoldable pub log : List Output → List Output → List Output
log [] out = out
log (e ∷ es) out = log es (e ∷ out)

pub log-append : (xs ys out : List Output) → log (xs ++ ys) out ≡ log ys (log xs out)
unfolding log
log-append [] ys out = refl
log-append (x ∷ xs) ys out = log-append xs ys (x ∷ out)

-- Whether the outputs, newest first, leave the key down: the last event of the key decides.
abbrev pub is_down : List Output → ℕ → Bool
is_down [] c = false
is_down (key code pressed ∷ out) c = if code == c then pressed else is_down out c
is_down (layer_change _ _ ∷ out) c = is_down out c
is_down (sleep _ ∷ out) c = is_down out c
is_down (command _ ∷ out) c = is_down out c

-- Whichever outputs went before, these leave no key down that was not down before.
abbrev pub Releases : List Output → Type 0
Releases xs = (out : List Output) (c : ℕ) → is_down (log xs out) c ≡ true → is_down out c ≡ true

pub Releases-append : (xs ys : List Output) → Releases xs → Releases ys → Releases (xs ++ ys)
Releases-append xs ys h k out c d = h out c (k (log xs out) c (rw log-append at d))
