-- ===== src/Keyboard/Invariant/Events/Queue.antt =====
-- src/keyboard.c: the invariant under the loop of kbd_process_events.
use keyd_fork.Common.{
  ℕ, zero, suc, ◌+◌, inl, inr, Bool, false, ◌&&◌, List, [], ◌∷◌, ltb, leb, Bool-cases, Ensures,
  Ensures-bind, done, starves,
}
use keyd_fork.Config.{Config}
use keyd_fork.Keyboard.Events.Queue.{Step, process_events}
use keyd_fork.Keyboard.Invariant.{Inv}
use keyd_fork.Keyboard.State.{Keyboard, KeyEvent}

-- The keyboard of a result that has it behind another value.
abbrev pub ResultInv {ℓ} : Config → {A : Type ℓ} → A × Keyboard → Type 0
ResultInv cfg r = Inv cfg r.1

abbrev pub StepKeeps : Config → Step → Type 0
StepKeeps cfg step =
    (kbd : Keyboard) (code : ℕ) (pressed : Bool) (time : ℕ)
    → Inv cfg kbd
    → Ensures (ResultInv cfg) (step kbd code pressed time)

module _ {cfg : Config} where
  pub process_events-Inv :
      (fuel : ℕ) (step : Step)
      → StepKeeps cfg step
      → (kbd : Keyboard) (evs : List KeyEvent) (timeout timeout_ts : ℕ) → Inv cfg kbd
      → Ensures (ResultInv cfg) (process_events fuel step kbd evs timeout timeout_ts)
  unfolding process_events
  process_events-Inv zero step h kbd [] timeout ts v = done v
  process_events-Inv (suc fuel) step h kbd [] timeout ts v = done v
  process_events-Inv zero step h kbd (ev ∷ evs) timeout ts v = starves
  process_events-Inv (suc fuel) step h kbd (ev ∷ evs) timeout ts v =
      elim (Bool-cases (ltb 0 timeout && leb ts ev.timestamp)) [
        | inl due ↦
            rw (due, process_events)
              (Ensures-bind _ (h kbd 0 false ts v)
                λ r w. process_events-Inv fuel step h r.1 (ev ∷ evs) r.0 (ts + r.0) w)
        | inr early ↦
            rw (early, process_events)
              (Ensures-bind _ (h kbd ev.code ev.pressed ev.timestamp v)
                λ r w. process_events-Inv fuel step h r.1 evs r.0 (ev.timestamp + r.0) w)
      ]
