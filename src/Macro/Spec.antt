-- ===== src/Macro/Spec.antt =====
-- src/macro.c: macro_execute against a description with no index: the entries since the first hold
-- are kept in a list.
use keyd_fork.Common.{
  ℕ, zero, suc, ◌+◌, ◌-◌, ◌*◌, ◌%◌, ◌≤◌, ◌≡◌, refl, sym, ap, ◌∙◌, true, Option, none, some, List,
  [], ◌∷◌, ◌++◌, arith, length, take, drop, length-append,
}
use mathlib.Core.List.{append_assoc}
use keyd_fork.Config.{MacroType, MacroEntry, Macro}
use keyd_fork.Macro.{
  Env, release_all, tap_each, pause, execute_keysequence, execute_entry, execute_from,
  macro_execute,
}
use keyd_fork.Output.{Output, key, sleep}

-- The entries held back once an entry is done: a hold starts them and a release ends them.
abbrev pub held_after : MacroEntry → MacroType → Option (List MacroEntry) → Option (List MacroEntry)
held_after e MacroType.release held = none
held_after e MacroType.hold none = some (e ∷ [])
held_after e MacroType.hold (some h) = some (h ++ e ∷ [])
held_after e _ none = none
held_after e _ (some h) = some (h ++ e ∷ [])

abbrev pub held_output : Option (List MacroEntry) → List Output
unfolding release_all
held_output none = []
held_output (some h) = release_all h

unfoldable pub entry_output : Env → ℕ → MacroType → ℕ → Option (List MacroEntry) → List Output
unfolding execute_keysequence tap_each
entry_output env timeout MacroType.hold d held = key (d % 256) true ∷ []
entry_output env timeout MacroType.release d held = elim held [ none ↦ [] | some h ↦ release_all h ]
entry_output env timeout MacroType.unicode d held = tap_each (take 4 (env.unicode_get_sequence d))
entry_output env timeout MacroType.keysequence d held = execute_keysequence timeout d
entry_output env timeout MacroType.timeout d held = sleep (d * 1000) ∷ []

unfoldable pub play : Env → ℕ → Option (List MacroEntry) → List MacroEntry → List Output
unfolding entry_output pause
play env timeout held [] = []
play env timeout held (e ∷ es) =
    entry_output env timeout e.type e.data' held
    ++ (pause timeout ++ play env timeout (held_after e e.type held) es)

-- The entries from `hold_start` up to the index `i`.
abbrev held_from : Macro → ℕ → Option ℕ → Option (List MacroEntry)
held_from entries i none = none
held_from entries i (some j) = some (take (i - j) (drop j entries))

abbrev Started : Option ℕ → ℕ → Type 0
Started none i = Unit {0}
Started (some j) i = j ≤ i

take-append_one :
    (pre : Macro) (e : MacroEntry) (es : Macro)
    → take (suc (length pre)) (pre ++ e ∷ es) ≡ take (length pre) (pre ++ e ∷ es) ++ e ∷ []
take-append_one [] e es = refl
take-append_one (x ∷ pre) e es = ap (◌∷◌ x) (take-append_one pre e es)

take-drop_one :
    (pre : Macro) (e : MacroEntry) (es : Macro) (j k : ℕ)
    → k + j ≡ length pre
    → take (suc k) (drop j (pre ++ e ∷ es)) ≡ take k (drop j (pre ++ e ∷ es)) ++ e ∷ []
take-drop_one pre e es zero k h =
    let n : k ≡ length pre = omega arith in rw n (take-append_one pre e es)
take-drop_one [] e es (suc j) k h = absurd (omega arith)
take-drop_one (x ∷ pre) e es (suc j) k h = take-drop_one pre e es j k (omega arith)

-- One entry further, a span that starts at `j` is longer by that entry.
held_from_suc :
    (pre : Macro) (e : MacroEntry) (es : Macro) (i j : ℕ)
    → i ≡ length pre
    → j ≤ i
    → take (suc i - j) (drop j (pre ++ e ∷ es)) ≡ take (i - j) (drop j (pre ++ e ∷ es)) ++ e ∷ []
held_from_suc pre e es i j hi hj =
    let n : suc i - j ≡ suc (i - j) = omega arith in
    rw n (take-drop_one pre e es j (i - j) (omega arith))

execute_entry-play :
    (env : Env) (pre : Macro) (e : MacroEntry) (es : Macro) (timeout i : ℕ) (start : Option ℕ)
    (type : MacroType)
    → i ≡ length pre
    → Started start i
    → let r = execute_entry env (pre ++ e ∷ es) timeout i start type e.data' in
      (r.0 ≡ entry_output env timeout type e.data' (held_from (pre ++ e ∷ es) i start))
      × (held_from (pre ++ e ∷ es) (suc i) r.1
          ≡ held_after e type (held_from (pre ++ e ∷ es) i start))
      × Started r.1 (suc i)
unfolding execute_entry entry_output
execute_entry-play env pre e es timeout i none MacroType.hold hi hs =
    let first : i - i ≡ 0 = omega arith in
    let span = held_from_suc pre e es i i hi (omega arith) in
    (refl, ap some (span ∙ rw first), omega arith)
execute_entry-play env pre e es timeout i (some j) MacroType.hold hi hs =
    (refl, ap some (held_from_suc pre e es i j hi hs), omega arith)
execute_entry-play env pre e es timeout i none MacroType.release hi hs = (refl, refl, tt)
execute_entry-play env pre e es timeout i (some j) MacroType.release hi hs = (refl, refl, tt)
execute_entry-play env pre e es timeout i none MacroType.unicode hi hs = (refl, refl, tt)
execute_entry-play env pre e es timeout i (some j) MacroType.unicode hi hs =
    (refl, ap some (held_from_suc pre e es i j hi hs), omega arith)
execute_entry-play env pre e es timeout i none MacroType.keysequence hi hs = (refl, refl, tt)
execute_entry-play env pre e es timeout i (some j) MacroType.keysequence hi hs =
    (refl, ap some (held_from_suc pre e es i j hi hs), omega arith)
execute_entry-play env pre e es timeout i none MacroType.timeout hi hs = (refl, refl, tt)
execute_entry-play env pre e es timeout i (some j) MacroType.timeout hi hs =
    (refl, ap some (held_from_suc pre e es i j hi hs), omega arith)

execute_from-play :
    (env : Env) (pre es : Macro) (entries : Macro) (timeout i : ℕ) (start : Option ℕ)
    → entries ≡ pre ++ es
    → i ≡ length pre
    → Started start i
    → execute_from env entries timeout i start es ≡ play env timeout (held_from entries i start) es
unfolding execute_from play
execute_from-play env pre [] entries timeout i start he hi hs = refl
execute_from-play env pre (e ∷ es) entries timeout i start he hi hs =
    let s = rw (← he) at (execute_entry-play env pre e es timeout i start e.type hi hs) in
    let rest =
      execute_from-play env (pre ++ e ∷ []) es entries timeout (suc i)
        (execute_entry env entries timeout i start e.type e.data').1
        (he ∙ sym (append_assoc pre (e ∷ []) es)) (omega (arith, length-append {0} pre (e ∷ [])))
        s.2 in
    rw (rest, s.0, s.1)

-- macro_execute puts out what the description puts out: the indices that its release loop runs over
-- span the entries since the first hold.
pub macro_execute-play :
    (env : Env) (entries : Macro) (timeout : ℕ)
    → macro_execute env entries timeout ≡ play env timeout none entries
unfolding macro_execute
macro_execute-play env entries timeout =
    execute_from-play env [] entries entries timeout 0 none refl refl tt
