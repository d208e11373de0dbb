-- ===== src/Keyboard/Layers/Oneshot.antt =====
-- src/keyboard.c: clear_oneshot undoes every one-shot activation.
use keyd_fork.Common.{
  ℕ, zero, suc, ◌-◌, ◌≤◌, ◌≡◌, refl, ap, ◌∙◌, inl, inr, Bool, true, false, List, [], ◌∷◌, arith,
  ◌==◌, if◌then◌else◌, ==_eq, ==_refl, Bool-cases, update, range, elem, bind-ok, ok,
}
use keyd_fork.Keyboard.Layers.{drain_oneshots, clear_oneshot, drain_oneshot, deactivate_layer}
use keyd_fork.Common.{
  ℕ, zero, suc, ◌-◌, ◌≤◌, ◌≡◌, refl, ap, ◌∙◌, inl, inr, Bool, true, false, List, [], ◌∷◌, arith,
  ◌==◌, if◌then◌else◌, ==_eq, ==_refl, Bool-cases, update, range, elem, bind-ok, ok,
}
use keyd_fork.Output.{layer_change}
use keyd_fork.Keyboard.State.{
  put, Keyboard, LayerState, put, set_layer_state, set_active, set_oneshot_depth,
}

-- The one-shot activations of a layer undone.
abbrev pub drained : LayerState → LayerState
drained s = record s { active = s.active - s.oneshot_depth; oneshot_depth = 0 }

-- Every one-shot activation is counted in `active`.
abbrev pub IsCounted : Keyboard → Type 0
IsCounted kbd = (i : ℕ) → (kbd.layer_state i).oneshot_depth ≤ (kbd.layer_state i).active

pub deactivate_layer-ok :
    (kbd : Keyboard) (i : ℕ)
    → 1 ≤ (kbd.layer_state i).active
    → let s = kbd.layer_state i in
      deactivate_layer kbd i
      ≡ ok (put (set_layer_state kbd i (set_active s (s.active - 1))) (layer_change i false))
unfolding deactivate_layer
deactivate_layer-ok kbd i h = ground arith

drained-step :
    (f : ℕ → LayerState) (i n : ℕ)
    → (f i).oneshot_depth ≡ suc n
    → suc n ≤ (f i).active
    → (j : ℕ)
    → let off = update f i (set_active (f i) ((f i).active - 1)) in
      let lower = update off i (set_oneshot_depth (off i) n) in
      (if i == j then drained (lower i) else lower j) ≡ (if i == j then drained (f i) else f j)
drained-step f i n e h j = elim (Bool-cases (i == j)) [
  | inl here ↦
      rw (here, ==_refl i, e)
        (ap (λ a. record (f i) { active = a; oneshot_depth = 0 }) (omega (arith, e, h)))
  | inr other ↦ rw other refl
]

if_same : (b : Bool) (s : LayerState) → (if b then drained (drained s) else drained s) ≡ drained s
if_same true s = ap (λ a. record s { active = a; oneshot_depth = 0 }) (omega arith)
if_same false s = refl

drain_oneshot-drained :
    (kbd : Keyboard) (i n : ℕ)
    → (kbd.layer_state i).oneshot_depth ≡ n
    → n ≤ (kbd.layer_state i).active
    → (k : Keyboard) × (drain_oneshot kbd i n ≡ ok k)
      × ((j : ℕ)
          → k.layer_state j ≡ (if i == j then drained (kbd.layer_state i) else kbd.layer_state j))
      × (k.config ≡ kbd.config)
unfolding drain_oneshot
drain_oneshot-drained kbd i zero e h = (kbd, refl, (λ j. ground arith), refl)
drain_oneshot-drained kbd i (suc n) e h =
    let s = kbd.layer_state i in
    let off = put (set_layer_state kbd i (set_active s (s.active - 1))) (layer_change i false) in
    let lower = set_layer_state off i (set_oneshot_depth (off.layer_state i) n) in
    let (k, run, states, same) = drain_oneshot-drained lower i n (ground arith) (ground arith) in
    (
      k,
      bind-ok _ (deactivate_layer-ok kbd i (omega (arith, h))) run,
      (λ j. states j ∙ drained-step kbd.layer_state i n e h j),
      same,
    )

IsCounted-drained :
    (k kbd : Keyboard) (i : ℕ)
    → ((j : ℕ)
        → k.layer_state j ≡ (if i == j then drained (kbd.layer_state i) else kbd.layer_state j))
    → IsCounted kbd
    → IsCounted k
IsCounted-drained k kbd i states h j = elim (Bool-cases (i == j)) [
  | inl here ↦ rw (states j, here) (omega arith)
  | inr other ↦ rw (states j, other) (h j)
]

drained-twice :
    (f : ℕ → LayerState) (i : ℕ) (is : List ℕ) (j : ℕ)
    → let g : LayerState = if i == j then drained (f i) else f j in
      (if elem j is then drained g else g) ≡ (if elem j (i ∷ is) then drained (f j) else f j)
drained-twice f i is j = elim (Bool-cases (i == j)) [
  | inl here ↦ rw (here, ==_eq i j here) (if_same (elem j is) (f j))
  | inr other ↦ rw other refl
]

drain_oneshots-drained :
    (kbd : Keyboard) (is : List ℕ)
    → IsCounted kbd
    → (k : Keyboard) × (drain_oneshots kbd is ≡ ok k)
      × ((j : ℕ)
          → k.layer_state j
            ≡ (if elem j is then drained (kbd.layer_state j) else kbd.layer_state j))
      × (k.config ≡ kbd.config)
unfolding drain_oneshots
drain_oneshots-drained kbd [] h = (kbd, refl, (λ j. refl), refl)
drain_oneshots-drained kbd (i ∷ is) h =
    let (k, run, states, same) = drain_oneshot-drained kbd i _ refl (h i) in
    let (l, run', states', same') =
      drain_oneshots-drained k is (IsCounted-drained k kbd i states h) in
    (
      l,
      bind-ok _ run run',
      (λ j. states' j ∙ rw (states j) (drained-twice kbd.layer_state i is j)),
      same' ∙ same,
    )

-- clear_oneshot, where every one-shot activation is counted in the layer's `active`, fails no
-- assertion: each layer of the configuration loses its one-shot activations and no other, no
-- other layer changes, and the latch and the timeout are reset.
pub clear_oneshot-drained :
    (kbd : Keyboard)
    → IsCounted kbd
    → (k : Keyboard) × (clear_oneshot kbd ≡ ok k)
      × ((j : ℕ)
          → k.layer_state j ≡ (
              if elem j (range kbd.config.nr_layers)
              then drained (kbd.layer_state j)
              else kbd.layer_state j))
      × (k.oneshot_latch ≡ false)
      × (k.oneshot_timeout ≡ 0)
unfolding clear_oneshot
clear_oneshot-drained kbd h =
    let (k, run, states, same) = drain_oneshots-drained kbd (range kbd.config.nr_layers) h in
    (
      record k { oneshot_latch = false; oneshot_timeout = 0 },
      bind-ok _ run refl,
      states,
      refl,
      refl,
    )
