-- ===== src/Keyboard/Fuel/Descriptors.antt =====
-- src/keyboard.c: the calls of process_descriptor by itself end.
use keyd_fork.Common.{ℕ, zero, suc, ◌≡◌, Bool, true, List, [], ◌∷◌, elem, IsFueled}
use keyd_fork.Config.{Op, Descriptor, Config}
use keyd_fork.Keyboard.Actions.{Process}
use keyd_fork.Keyboard.Invariant.{Inv}
use keyd_fork.Keyboard.State.{Keyboard}

-- The descriptors that `process_descriptor` may process in its turn.
abbrev pub references : Descriptor → List ℕ
references d = elim d.op [
  | Op.overload ↦ d.arg1 ∷ []
  | Op.overload_idle_timeout ↦ d.arg0 ∷ d.arg1 ∷ []
  | _ ↦ []
]

-- References from the descriptor are nested `n` deep at most.
abbrev pub IsNested : Config → ℕ → Descriptor → Type 0
IsNested cfg zero d = references d ≡ []
IsNested cfg (suc n) d = (i : ℕ) → elem i (references d) ≡ true → IsNested cfg n (cfg.descriptors i)

-- `process` needs no more fuel for the descriptor.
abbrev Serves : Config → Process → Descriptor → Type 0
Serves cfg process d =
    (kbd : Keyboard) (code dl : ℕ) (pressed : Bool) (time : ℕ)
    → Inv cfg kbd
    → IsFueled (process kbd code d dl pressed time)
