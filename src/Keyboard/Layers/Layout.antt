-- ===== src/Keyboard/Layers/Layout.antt =====
-- src/keyboard.c: one layout at most is on after setlayout.
use keyd_fork.Common.{
  ℕ, ◌≡◌, refl, sym, ap, subst, ◌∙◌, ◌⊎◌, inl, inr, true, false, not, ◌&&◌, List, [], ◌∷◌, arith,
  ◌==◌, if◌then◌else◌, ==_eq, ==_refl, Bool-cases, update, range, elem, bind-return, ok,
}
use keyd_fork.Config.{Config, is_layout}
use keyd_fork.Keyboard.Layers.{leave_layouts, clear, setlayout}
use keyd_fork.Keyboard.State.{LayerState, set_active, Keyboard}
use keyd_fork.Output.{layer_change}

-- The body of the loop.
abbrev left : Config → (ℕ → LayerState) → ℕ → ℕ → LayerState
left config states i =
    if is_layout (config.layers i).type then update states i (set_active (states i) 0) else states

left-here :
    (config : Config) (states : ℕ → LayerState) (j : ℕ)
    → is_layout (config.layers j).type ≡ true
    → (left config states j j).active ≡ 0
left-here config states j h = rw (h, ==_refl j) refl

left-other :
    (config : Config) (states : ℕ → LayerState) (i j : ℕ)
    → (i == j) ≡ false
    → left config states i j ≡ states j
left-other config states i j h = elim (Bool-cases (is_layout (config.layers i).type)) [
  | inl layout ↦ rw (layout, h) refl
  | inr not_layout ↦ rw not_layout refl
]

leave_one :
    (config : Config) (states : ℕ → LayerState) (i : ℕ) (is : List ℕ) (j : ℕ)
    → is_layout (config.layers j).type ≡ true
    → (elem j (i ∷ is) ≡ true) ⊎ ((states j).active ≡ 0)
    → (elem j is ≡ true) ⊎ ((left config states i j).active ≡ 0)
leave_one config states i is j h e = elim (Bool-cases (i == j)) [
  | inl here ↦ inr (
      subst (λ m. (left config states m j).active ≡ 0) (sym (==_eq i j here))
        (left-here config states j h))
  | inr other ↦ elim e [
    | inl later ↦ inl (rw other at later)
    | inr out ↦ inr (ap (λ (s : LayerState). s.active) (left-other config states i j other) ∙ out)
  ]
]

leave_layouts-active :
    (config : Config) (states : ℕ → LayerState) (is : List ℕ) (j : ℕ)
    → is_layout (config.layers j).type ≡ true
    → (elem j is ≡ true) ⊎ ((states j).active ≡ 0)
    → (leave_layouts config states is j).active ≡ 0
unfolding leave_layouts
leave_layouts-active config states [] j h e = ground arith
leave_layouts-active config states (i ∷ is) j h e =
    leave_layouts-active config
      (if is_layout (config.layers i).type
        then update states i (set_active (states i) 0)
        else states)
      is j h (leave_one config states i is j h e)

-- What `setlayout` does once `clear` has returned.
abbrev chosen_states : (ℕ → LayerState) → ℕ → ℕ → LayerState
chosen_states states idx =
    if idx == 0
    then states
    else update states idx (record (states idx) { activation_time = 1; active = 1 })

abbrev chosen : Keyboard → ℕ → Keyboard
chosen c idx = record c {
  layer_state = chosen_states (leave_layouts c.config c.layer_state (range c.config.nr_layers)) idx;
  out = layer_change idx true ∷ c.out;
}

chosen_states-active :
    (states : ℕ → LayerState) (idx j : ℕ)
    → (states j).active ≡ 0
    → (chosen_states states idx j).active ≡ (if idx == j && not (idx == 0) then 1 else 0)
chosen_states-active states idx j h = ground arith

-- Where setlayout returns, a layout of the configuration is on exactly if it is the chosen layer and
-- not layer 0.
pub setlayout-active :
    (kbd : Keyboard) (idx : ℕ) (k : Keyboard) (j : ℕ)
    → setlayout kbd idx ≡ ok k
    → elem j (range k.config.nr_layers) ≡ true
    → is_layout (k.config.layers j).type ≡ true
    → (k.layer_state j).active ≡ (if idx == j && not (idx == 0) then 1 else 0)
unfolding setlayout
setlayout-active kbd idx k j run =
    bind-return _ (clear kbd)
      (λ c set.
        let same : chosen c idx ≡ k = cc in
        subst
          (λ (k : Keyboard).
            elem j (range k.config.nr_layers) ≡ true
            → is_layout (k.config.layers j).type ≡ true
            → (k.layer_state j).active ≡ (if idx == j && not (idx == 0) then 1 else 0))
          same
          (λ here layout.
            let states = leave_layouts c.config c.layer_state (range c.config.nr_layers) in
            chosen_states-active states idx j (
              leave_layouts-active c.config c.layer_state (range c.config.nr_layers) j layout
                (inl here))))
      run
