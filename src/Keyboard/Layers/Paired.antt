-- ===== src/Keyboard/Layers/Paired.antt =====
-- src/keyboard.c: an activation and the deactivation that is paired with it.
use keyd_fork.Common.{
  ℕ, ◌+◌, ◌-◌, ◌<◌, ◌≡◌, refl, subst, ◌∙◌, inl, inr, false, arith, ◌==◌, if◌then◌else◌, ==_eq,
  ==_refl, Bool-cases, ok,
}
use keyd_fork.Keyboard.Layers.{activate_layer, deactivate_layer}
use keyd_fork.Keyboard.Layers.Oneshot.{deactivate_layer-ok}
use keyd_fork.Keyboard.State.{Keyboard, put, set_layer_state, set_active}
use keyd_fork.Output.{layer_change}

activated :
    (kbd : Keyboard) (code idx j : ℕ)
    → (kbd.layer_state idx).active < 255
    → ((activate_layer kbd code idx).layer_state j).active
      ≡ (if idx == j then (kbd.layer_state j).active + 1 else (kbd.layer_state j).active)
unfolding activate_layer
activated kbd code idx j h = elim (Bool-cases (idx == j)) [
  | inl here ↦ let e = ==_eq idx j here in rw (here, e) (omega (arith, rw e at h))
  | inr other ↦ rw other refl
]

-- A layer that is active fewer than 255 times and is activated, then deactivated, without an
-- assertion failing is as active as before, and so is every other layer.
pub deactivate_layer-activate_layer :
    (kbd : Keyboard) (code idx : ℕ)
    → (kbd.layer_state idx).active < 255
    → (k : Keyboard) × (deactivate_layer (activate_layer kbd code idx) idx ≡ ok k)
      × ((j : ℕ) → (k.layer_state j).active ≡ (kbd.layer_state j).active)
deactivate_layer-activate_layer kbd code idx h =
    let on = activate_layer kbd code idx in
    let s = on.layer_state idx in
    let off = put (set_layer_state on idx (set_active s (s.active - 1))) (layer_change idx false) in
    let count = rw (==_refl idx) at (activated kbd code idx idx h) in
    (
      off,
      deactivate_layer-ok on idx (omega (arith, count)),
      λ j. elim (Bool-cases (idx == j)) [
        | inl here ↦ rw here (
            subst (λ m. s.active - 1 ≡ (kbd.layer_state m).active) (==_eq idx j here)
              (omega (arith, count)))
        | inr other ↦ rw other (activated kbd code idx j h ∙ rw other refl)
      ],
    )
