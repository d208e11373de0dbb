-- ===== src/Keyboard/Events/Queue.antt =====
-- src/keyboard.c, the loop of kbd_process_events.
use keyd_fork.Common.{
  ℕ, zero, suc, ◌+◌, Bool, true, false, ◌&&◌, List, [], ◌∷◌, ltb, leb, Result, ◌>>=◌, ok,
  out_of_fuel,
}
use keyd_fork.Keyboard.State.{KeyEvent, Keyboard}

-- `process_event`: code, pressed and time.
abbrev pub Step : Type 0
Step = Keyboard → ℕ → Bool → ℕ → Result (ℕ × Keyboard)

-- Timeouts that fall due before the next event are handled first.
unfoldable pub process_events : ℕ → Step → Keyboard → List KeyEvent → ℕ → ℕ → Result (ℕ × Keyboard)
process_events fuel step kbd [] timeout timeout_ts = ok (timeout, kbd)
process_events zero step kbd (ev ∷ evs) timeout timeout_ts = out_of_fuel
process_events (suc fuel) step kbd (ev ∷ evs) timeout timeout_ts =
    elim (ltb 0 timeout && leb timeout_ts ev.timestamp) [
      | true ↦ (do
        (timeout', kbd) ← step kbd 0 false timeout_ts
        process_events fuel step kbd (ev ∷ evs) timeout' (timeout_ts + timeout'))
      | false ↦ (do
        (timeout', kbd) ← step kbd ev.code ev.pressed ev.timestamp
        process_events fuel step kbd evs timeout' (ev.timestamp + timeout'))
    ]
