-- ===== src/Macro/Released.antt =====
-- src/macro.c: a macro whose holds are all released leaves no key down.
use keyd_fork.Common.{
  ℕ, ◌%◌, ◌≡◌, refl, subst, Bool, true, false, ◌||◌, Option, none, some, List, [], ◌∷◌, ◌++◌, arith,
  ◌==◌, if◌then◌else◌, take,
}
use keyd_fork.Config.{MacroType, MacroEntry, Macro}
use keyd_fork.Macro.{Env, release_all, macro_execute, pause}
use keyd_fork.Macro.Spec.{play, held_after, entry_output, macro_execute-play}
use keyd_fork.Macro.Trace.{execute_keysequence-Releases, pause-is_down, tap_each-Releases}
use keyd_fork.Output.{Output, key, log, is_down, Releases, log-append}

-- A release follows the last hold; `holding` says whether a hold is open.
abbrev pub IsReleased : Bool → Macro → Type 0
IsReleased holding [] = holding ≡ false
IsReleased holding (e ∷ es) =
    IsReleased (elim e.type [ MacroType.hold ↦ true | MacroType.release ↦ false | _ ↦ holding ]) es

abbrev is_open : Option (List MacroEntry) → Bool
is_open none = false
is_open (some h) = true

abbrev holds : List MacroEntry → ℕ → Bool
holds [] c = false
holds (e ∷ es) c = e.data' % 256 == c || holds es c

abbrev is_held : Option (List MacroEntry) → ℕ → Bool
is_held none c = false
is_held (some h) c = holds h c

release_all-is_down :
    (h : List MacroEntry) (out : List Output) (c : ℕ)
    → is_down (log (release_all h) out) c ≡ (if holds h c then false else is_down out c)
unfolding release_all log
release_all-is_down [] out c = refl
release_all-is_down (e ∷ es) out c =
    ground (arith, release_all-is_down es (key (e.data' % 256) false ∷ out) c)

holds-append :
    (h : List MacroEntry) (e : MacroEntry) (c : ℕ) → holds h c ≡ true → holds (h ++ e ∷ []) c ≡ true
holds-append [] e c d = cc
holds-append (x ∷ h) e c d = ground (arith, holds-append h e c)

holds-last :
    (h : List MacroEntry) (e : MacroEntry) (c : ℕ)
    → e.data' % 256 ≡ c
    → holds (h ++ e ∷ []) c ≡ true
holds-last [] e c d = ground arith
holds-last (x ∷ h) e c d = ground (arith, holds-last h e c)

-- One entry: a key that it leaves down, and that it does not hold, was down before and not held.
entry_output-Releases :
    (env : Env) (timeout : ℕ) (e : MacroEntry) (type : MacroType) (held : Option (List MacroEntry))
    (out : List Output) (c : ℕ)
    → is_down (log (entry_output env timeout type e.data' held) out) c ≡ true
    → is_held (held_after e type held) c ≡ false
    → (is_down out c ≡ true) × (is_held held c ≡ false)
unfolding entry_output
entry_output-Releases env timeout e MacroType.hold none out c d n = unfold log in ground arith
entry_output-Releases env timeout e MacroType.hold (some h) out c d n =
    unfold log in ground (arith, holds-append h e c, holds-last h e c)
entry_output-Releases env timeout e MacroType.release none out c d n = (unfold log in d, refl)
entry_output-Releases env timeout e MacroType.release (some h) out c d n =
    ground (arith, release_all-is_down h out c)
entry_output-Releases env timeout e MacroType.unicode none out c d n =
    (tap_each-Releases (take 4 (env.unicode_get_sequence e.data')) out c d, refl)
entry_output-Releases env timeout e MacroType.unicode (some h) out c d n = (
  tap_each-Releases (take 4 (env.unicode_get_sequence e.data')) out c d,
  ground (arith, holds-append h e c),
)
entry_output-Releases env timeout e MacroType.keysequence none out c d n =
    (execute_keysequence-Releases timeout e.data' out c d, refl)
entry_output-Releases env timeout e MacroType.keysequence (some h) out c d n =
    (execute_keysequence-Releases timeout e.data' out c d, ground (arith, holds-append h e c))
entry_output-Releases env timeout e MacroType.timeout none out c d n = (unfold log in d, refl)
entry_output-Releases env timeout e MacroType.timeout (some h) out c d n =
    (unfold log in d, ground (arith, holds-append h e c))

is_open-held_after :
    (e : MacroEntry) (type : MacroType) (held : Option (List MacroEntry))
    → (elim type [ MacroType.hold ↦ true | MacroType.release ↦ false | _ ↦ is_open held ])
      ≡ is_open (held_after e type held)
is_open-held_after e MacroType.hold none = refl
is_open-held_after e MacroType.hold (some h) = refl
is_open-held_after e MacroType.release held = refl
is_open-held_after e _ none = refl
is_open-held_after e _ (some h) = refl

play-Releases :
    (env : Env) (timeout : ℕ) (es : Macro) (held : Option (List MacroEntry)) (out : List Output)
    (c : ℕ)
    → IsReleased (is_open held) es
    → is_down (log (play env timeout held es) out) c ≡ true
    → (is_down out c ≡ true) × (is_held held c ≡ false)
unfolding play
play-Releases env timeout [] none out c h d = (unfold log in d, refl)
play-Releases env timeout [] (some x) out c h d = cc
play-Releases env timeout (e ∷ es) held out c h d =
    let first = entry_output env timeout e.type e.data' held in
    let mid = log first out in
    let rest = play env timeout (held_after e e.type held) es in
    let (down, free) =
      play-Releases env timeout es (held_after e e.type held) (log (pause timeout) mid) c
        (subst (λ b. IsReleased b es) (is_open-held_after e e.type held) h)
        (rw (log-append first (pause timeout ++ rest) out, log-append (pause timeout) rest mid) at
          d) in
    entry_output-Releases env timeout e e.type held out c (rw pause-is_down at down) free

pub macro_execute-Releases :
    (env : Env) (entries : Macro) (timeout : ℕ)
    → IsReleased false entries
    → Releases (macro_execute env entries timeout)
macro_execute-Releases env entries timeout h out c d =
    (play-Releases env timeout entries none out c h
      (rw (macro_execute-play env entries timeout) at d)).0

-- Whatever went out before, and whichever way the unicode sequences are spelled, a macro that
-- releases what it holds leaves no key down that was not down before.
pub macro_execute-is_down :
    (env : Env) (entries : Macro) (timeout : ℕ) (out : List Output) (c : ℕ)
    → IsReleased false entries
    → is_down (log (macro_execute env entries timeout) out) c ≡ true
    → is_down out c ≡ true
macro_execute-is_down env entries timeout out c h d =
    macro_execute-Releases env entries timeout h out c d
