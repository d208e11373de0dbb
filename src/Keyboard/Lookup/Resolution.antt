-- ===== src/Keyboard/Lookup/Resolution.antt =====
-- src/keyboard.c: lookup_descriptor against a description of what a key means.
use keyd_fork.Common.{
  ℕ, ◌≤◌, ◌≡◌, refl, sym, subst, ◌∙◌, ◌⊎◌, inl, inr, Bool, true, false, List, [], ◌∷◌, arith, ◌==◌,
  if◌then◌else◌, ==_eq, ==_refl, Bool-cases, length, range, elem,
}
use keyd_fork.Config.{Config, is_set, is_composite, Op, Descriptor, unset_descriptor}
use keyd_fork.Keyboard.Lookup.{
  Found, all_active, scan_composite, scan_composites, scan_layers, or_default, lookup_layers,
}
use keyd_fork.Keyboard.Lookup.Precedence.{
  binding, IsBound, IsChosen, scan_layers-best, scan_layers-source,
}
use keyd_fork.Keyboard.State.{LayerState}

module _ (cfg : Config) (states : ℕ → LayerState) (code : ℕ) where
  abbrev pub size : ℕ → ℕ
  size i = length (cfg.layers i).constituents

  -- A composite layer that binds the key and whose constituents, one at least, are all active.
  abbrev pub IsComposed : ℕ → Type 0
  IsComposed i =
      (is_composite (cfg.layers i).type ≡ true)
      × (all_active states (cfg.layers i).constituents ≡ true)
      × (is_set (binding cfg states code i).op ≡ true)
      × (1 ≤ size i)

  scan_composite-best :
      (f : Found) (i : ℕ)
      → let g = scan_composite cfg states code f i in
        (f.best ≤ g.best) × (IsComposed i → size i ≤ g.best)
  unfolding scan_composite
  scan_composite-best f i = (ground arith, λ c. ground arith)

  -- What was found is the binding of such a layer of the list.
  abbrev IsPicked : Found → List ℕ → Type 0
  IsPicked g is =
      (elem g.dl is ≡ true)
      × IsComposed g.dl
      × (g.d ≡ binding cfg states code g.dl)
      × (g.best ≡ size g.dl)

  scan_composite-source :
      (f : Found) (i : ℕ) (is : List ℕ)
      → let g = scan_composite cfg states code f i in (g ≡ f) ⊎ IsPicked g (i ∷ is)
  unfolding scan_composite
  scan_composite-source f i is = ground (arith, ==_refl i)

  if_true : (b : Bool) {c : Bool} → c ≡ true → (if b then true else c) ≡ true
  if_true true h = refl
  if_true false h = h

  IsPicked-tail : (g : Found) (x : ℕ) (is : List ℕ) → IsPicked g is → IsPicked g (x ∷ is)
  IsPicked-tail g x is (e, b, d, t) = (if_true (x == g.dl) e, b, d, t)

  scan_composites-source :
      (f : Found) (is : List ℕ)
      → let g = scan_composites cfg states code f is in (g ≡ f) ⊎ IsPicked g is
  unfolding scan_composites
  scan_composites-source f [] = inl refl
  scan_composites-source f (x ∷ is) =
      elim (scan_composites-source (scan_composite cfg states code f x) is) [
        | inr found ↦ inr (
            IsPicked-tail (scan_composites cfg states code (scan_composite cfg states code f x) is)
              x is found)
        | inl e ↦ elim (scan_composite-source f x is) [
          | inl e' ↦ inl (e ∙ e')
          | inr found ↦ inr (subst (λ g. IsPicked g (x ∷ is)) (sym e) found)
        ]
      ]

  scan_composites-grows :
      (f : Found) (is : List ℕ) → f.best ≤ (scan_composites cfg states code f is).best
  unfolding scan_composites
  scan_composites-grows f [] = omega arith
  scan_composites-grows f (x ∷ is) = omega (
    arith,
    (scan_composite-best f x).0,
    scan_composites-grows (scan_composite cfg states code f x) is,
  )

  scan_composites-best :
      (f : Found) (is : List ℕ) (i : ℕ)
      → elem i is ≡ true
      → IsComposed i
      → size i ≤ (scan_composites cfg states code f is).best
  unfolding scan_composites
  scan_composites-best f [] i e c = cc
  scan_composites-best f (x ∷ is) i e c =
      let g = scan_composite cfg states code f x in
      elim (Bool-cases (x == i)) [
        | inl here ↦
            let e' = ==_eq x i here in
            omega (
              arith,
              subst (λ j. size j ≤ g.best) e' ((scan_composite-best f x).1 (rw e' c)),
              scan_composites-grows g is,
            )
        | inr later ↦ scan_composites-best g is i (rw later at e) c
      ]

  -- What a key means: the binding of the largest composite layer that is on, or else of the
  -- binding layer that was activated last, or else the key itself.
  pub data IsMeaning : Descriptor × ℕ → Type 0 where
    composite :
        (c : ℕ)
        → elem c (range cfg.nr_layers) ≡ true
        → IsComposed c
        → ((i : ℕ) → elem i (range cfg.nr_layers) ≡ true → IsComposed i → size i ≤ size c)
        → IsMeaning (binding cfg states code c, c)
    latest :
        (l : ℕ)
        → elem l (range cfg.nr_layers) ≡ true
        → IsBound cfg states code l
        → ((i : ℕ)
            → elem i (range cfg.nr_layers) ≡ true
            → IsBound cfg states code i
            → (states i).activation_time ≤ (states l).activation_time)
        → ((i : ℕ) → elem i (range cfg.nr_layers) ≡ true → ¬ (IsComposed i))
        → IsMeaning (binding cfg states code l, l)
    itself :
        ((i : ℕ) → elem i (range cfg.nr_layers) ≡ true → ¬ (IsBound cfg states code i))
        → ((i : ℕ) → elem i (range cfg.nr_layers) ≡ true → ¬ (IsComposed i))
        → IsMeaning (record { op = Op.keysequence; arg0 = code; arg1 = 0; arg2 = 0 }, 0)

  -- The two scans, from the start.
  abbrev start : Found
  start = record { d = unset_descriptor; dl = 0; best = 0 }

  abbrev first_scan : Found
  first_scan = scan_layers cfg states code start (range cfg.nr_layers)

  abbrev restarted : Found
  restarted = record first_scan { best = 0 }

  no-IsComposed :
      scan_composites cfg states code restarted (range cfg.nr_layers) ≡ restarted
      → (i : ℕ) → elem i (range cfg.nr_layers) ≡ true
      → ¬ (IsComposed i)
  no-IsComposed e i here c =
      let most = rw e at (scan_composites-best restarted (range cfg.nr_layers) i here c) in
      omega (arith, most, c.3)

  or_default-set : (g : Found) → is_set g.d.op ≡ true → or_default code g ≡ (g.d, g.dl)
  unfolding or_default
  or_default-set g h = rw h refl

  IsMeaning-of_set :
      (g : Found)
      → is_set (binding cfg states code g.dl).op ≡ true
      → g.d ≡ binding cfg states code g.dl
      → IsMeaning (binding cfg states code g.dl, g.dl)
      → IsMeaning (or_default code g)
  IsMeaning-of_set g h d m =
      subst IsMeaning (sym (or_default-set g (rw d h)))
        (subst (λ d'. IsMeaning (d', g.dl)) (sym d) m)

  IsMeaning-of_layers :
      ((i : ℕ) → elem i (range cfg.nr_layers) ≡ true → ¬ (IsComposed i))
      → (first_scan ≡ record { d = unset_descriptor; dl = 0; best = 0 })
        ⊎ IsChosen cfg states code first_scan (range cfg.nr_layers)
      → IsMeaning (or_default code restarted)
  unfolding or_default
  IsMeaning-of_layers none_composed (inr (here, b, d, t)) = IsMeaning-of_set restarted b.1 d (
      latest first_scan.dl here b
        (λ i e b'.
          rw t at
            (scan_layers-best cfg states code start (range cfg.nr_layers) i (inl refl) e b').0)
        none_composed)
  IsMeaning-of_layers none_composed (inl e) =
      subst (λ (g : Found). IsMeaning (or_default code (record g { best = 0 }))) (sym e)
        (itself
          (λ i here b.
            let set =
              rw e at
                (scan_layers-best cfg states code start (range cfg.nr_layers) i (inl refl) here
                  b).1 in
            cc)
          none_composed)

  -- lookup_layers, the scans of lookup_descriptor, finds what the key means: the binding of an active
  -- composite layer with the most constituents, or else of the active binding layer that was
  -- activated last, or else the key itself.
  pub lookup_layers-IsMeaning : IsMeaning (lookup_layers cfg states code)
  unfolding lookup_layers
  lookup_layers-IsMeaning = elim (scan_composites-source restarted (range cfg.nr_layers)) [
    | inr (here, c, d, t) ↦
        let g = scan_composites cfg states code restarted (range cfg.nr_layers) in
        IsMeaning-of_set g c.2 d (
          composite g.dl here c
            (λ i e c'. rw t at (scan_composites-best restarted (range cfg.nr_layers) i e c')))
    | inl e ↦
        subst (λ g. IsMeaning (or_default code g)) (sym e)
          (IsMeaning-of_layers (no-IsComposed e)
            (scan_layers-source cfg states code start (range cfg.nr_layers)))
  ]
