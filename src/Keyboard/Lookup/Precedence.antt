-- ===== src/Keyboard/Lookup/Precedence.antt =====
-- src/keyboard.c: which binding of a key lookup_descriptor chooses.
use keyd_fork.Common.{
  ℕ, ◌≤◌, ◌≡◌, refl, sym, subst, ◌∙◌, ◌⊎◌, inl, inr, Bool, true, false, List, [], ◌∷◌, arith, ◌==◌,
  if◌then◌else◌, ==_eq, ==_refl, Bool-cases, elem,
}
use keyd_fork.Config.{Descriptor, Config, is_set}
use keyd_fork.Keyboard.Lookup.{Found, is_active, scan_layers, scan_layer}
use keyd_fork.Keyboard.State.{LayerState}

module _ (cfg : Config) (states : ℕ → LayerState) (code : ℕ) where
  abbrev pub binding : ℕ → Descriptor
  binding i = (cfg.layers i).keymap code

  -- An active layer that binds the key.
  abbrev pub IsBound : ℕ → Type 0
  IsBound i = (is_active states i ≡ true) × (is_set (binding i).op ≡ true)

  -- Nothing is found before a best time or size is set.
  abbrev IsFair : Found → Type 0
  IsFair f = (f.best ≡ 0) ⊎ (is_set f.d.op ≡ true)

  if_true : (b : Bool) {c : Bool} → c ≡ true → (if b then true else c) ≡ true
  if_true true h = refl
  if_true false h = h

  scan_layer-best :
      (f : Found) (i : ℕ)
      → IsFair f
      → let g = scan_layer cfg states code f i in
        IsFair g
        × (f.best ≤ g.best)
        × (IsBound i → ((states i).activation_time ≤ g.best) × (is_set g.d.op ≡ true))
  unfolding scan_layer
  scan_layer-best f i h = (ground arith, ground arith, λ b. ground arith)

  scan_layer-source :
      (f : Found) (i : ℕ)
      → let g = scan_layer cfg states code f i in
        (g ≡ f)
        ⊎ ((g.dl ≡ i) × IsBound i × (g.d ≡ binding i) × (g.best ≡ (states i).activation_time))
  unfolding scan_layer
  scan_layer-source f i = ground arith

  scan_layer-keeps :
      (f : Found) (i : ℕ)
      → is_set f.d.op ≡ true
      → is_set (scan_layer cfg states code f i).d.op ≡ true
  unfolding scan_layer
  scan_layer-keeps f i h = ground arith

  scan_layers-keeps :
      (f : Found) (is : List ℕ)
      → is_set f.d.op ≡ true
      → is_set (scan_layers cfg states code f is).d.op ≡ true
  unfolding scan_layers
  scan_layers-keeps f [] h = h
  scan_layers-keeps f (x ∷ is) h =
      scan_layers-keeps (scan_layer cfg states code f x) is (scan_layer-keeps f x h)

  scan_layers-grows :
      (f : Found) (is : List ℕ) → IsFair f → f.best ≤ (scan_layers cfg states code f is).best
  unfolding scan_layers
  scan_layers-grows f [] h = omega arith
  scan_layers-grows f (x ∷ is) h =
      let (fair, grown, _) = scan_layer-best f x h in
      omega (arith, grown, scan_layers-grows (scan_layer cfg states code f x) is fair)

  pub scan_layers-best :
      (f : Found) (is : List ℕ) (i : ℕ)
      → IsFair f
      → elem i is ≡ true
      → IsBound i
      → let g = scan_layers cfg states code f is in
        ((states i).activation_time ≤ g.best) × (is_set g.d.op ≡ true)
  unfolding scan_layers
  scan_layers-best f [] i h e b = cc
  scan_layers-best f (x ∷ is) i h e b =
      let (fair, grown, taken) = scan_layer-best f x h in
      let g = scan_layer cfg states code f x in
      elim (Bool-cases (x == i)) [
        | inl here ↦
            let (late, set) = taken (rw (==_eq x i here) b) in
            (ground (arith, late, scan_layers-grows g is fair), scan_layers-keeps g is set)
        | inr later ↦ scan_layers-best g is i fair (rw later at e) b
      ]

  -- What was found is the binding of an active layer of the list.
  abbrev pub IsChosen : Found → List ℕ → Type 0
  IsChosen g is =
      (elem g.dl is ≡ true)
      × IsBound g.dl
      × (g.d ≡ binding g.dl)
      × (g.best ≡ (states g.dl).activation_time)

  IsChosen-head :
      (g : Found) (x : ℕ) (is : List ℕ)
      → g.dl ≡ x
      → IsBound x
      → g.d ≡ binding x
      → g.best ≡ (states x).activation_time
      → IsChosen g (x ∷ is)
  IsChosen-head g x is e b d t = (rw (e, ==_refl x) refl, rw e b, rw e d, rw e t)

  IsChosen-tail : (g : Found) (x : ℕ) (is : List ℕ) → IsChosen g is → IsChosen g (x ∷ is)
  IsChosen-tail g x is (e, b, d, t) = (if_true (x == g.dl) e, b, d, t)

  pub scan_layers-source :
      (f : Found) (is : List ℕ)
      → let g = scan_layers cfg states code f is in (g ≡ f) ⊎ IsChosen g is
  unfolding scan_layers
  scan_layers-source f [] = inl refl
  scan_layers-source f (x ∷ is) = elim (scan_layers-source (scan_layer cfg states code f x) is) [
    | inr found ↦
        inr (
          IsChosen-tail (scan_layers cfg states code (scan_layer cfg states code f x) is) x is
            found)
    | inl e ↦ elim (scan_layer-source f x) [
      | inl e' ↦ inl (e ∙ e')
      | inr (here, b, d, t) ↦ inr (
          subst (λ g. IsChosen g (x ∷ is)) (sym e)
            (IsChosen-head (scan_layer cfg states code f x) x is here b d t))
    ]
  ]
