-- ===== src/Parser/Sound.antt =====
-- src/config.c: what every configuration that the parser builds is like.
pub mod Table
pub mod Arrays
pub mod Slots
pub mod Calls
pub mod Binding
pub mod Sections
pub mod Passes
pub mod Engine
use keyd_fork.Common.{
  ℕ, zero, suc, ◌≤◌, ◌<◌, ◌≡◌, refl, true, Option, none, some, List, [], ◌∷◌, arith, elem, Result,
  ◌>>=◌, Ensures, ok, aborted, out_of_fuel, done, aborts, starves,
}
use keyd_fork.Config.{Config, Descriptor, Chord}
use keyd_fork.Keyboard.Fuel.Descriptors.{references, IsNested}
use keyd_fork.Keyboard.Invariant.{HasReleasedMacros}
use keyd_fork.Macro.Parse.Sound.{IsPlayable}

-- The references are to the descriptors before the `n`th.
abbrev pub Below : ℕ → Descriptor → Type 0
Below n d = (i : ℕ) → elem i (references d) ≡ true → i < n

abbrev pub ChordsBelow : ℕ → List Chord → Type 0
ChordsBelow n [] = Unit {0}
ChordsBelow n (c ∷ cs) = Below n c.d × ChordsBelow n cs

-- The macros are as macro_parse accepts them, a descriptor refers to earlier ones only, and a binding
-- to those there are.
pub record Sound (cfg : Config) : Type 0 where
  pub playable : (i : ℕ) → IsPlayable (cfg.macros i)
  pub nested : (i : ℕ) → Below i (cfg.descriptors i)
  pub keymaps : (l code : ℕ) → Below cfg.nr_descriptors ((cfg.layers l).keymap code)
  pub chords : (l : ℕ) → ChordsBelow cfg.nr_descriptors (cfg.layers l).chords

pub Below-le : (m n : ℕ) (d : Descriptor) → m ≤ n → Below m d → Below n d
Below-le m n d h b i e = omega (arith, b i e)

pub ChordsBelow-le : (m n : ℕ) (cs : List Chord) → m ≤ n → ChordsBelow m cs → ChordsBelow n cs
ChordsBelow-le m n [] h b = tt
ChordsBelow-le m n (c ∷ cs) h b = (Below-le m n c.d h b.0, ChordsBelow-le m n cs h b.1)

-- What a call gave, if it gave something, with the configuration it left.
abbrev pub OnSome {ℓ} : {A : Type ℓ} → (A → Type 0) → Option A → Type 0
OnSome P none = Unit {0}
OnSome P (some a) = P a

abbrev pub Left {ℓ} : {A : Type ℓ} → ℕ → (ℕ → A → Type 0) → Option A × Config → Type 0
Left n P r = Sound r.1 × (n ≤ r.1.nr_descriptors) × OnSome (P r.1.nr_descriptors) r.0

-- A continuation of a call that gave something.
pub Left-then {ℓ κ} :
    {A : Type ℓ} {B : Type κ} (n : ℕ) (P : ℕ → A → Type 0) (Q : ℕ → B → Type 0)
    (m : Result (Option A × Config)) (f : A → Config → Result (Option B × Config))
    → Ensures (Left n P) m
    → ((a : A) (c : Config)
        → Sound c
        → n ≤ c.nr_descriptors
        → P c.nr_descriptors a
        → Ensures (Left n Q) (f a c))
    → Ensures (Left n Q) (m >>= (λ (r, c). elim r [ none ↦ ok (none, c) | some a ↦ f a c ]))
unfolding ◌>>=◌
Left-then n P Q (ok (none, c)) f (done h) k = done (h.0, h.1, tt)
Left-then n P Q (ok (some a, c)) f (done h) k = k a c h.0 h.1 h.2
Left-then n P Q (aborted e) f h k = aborts
Left-then n P Q out_of_fuel f h k = starves

-- What the engine assumes of a configuration.
pub Sound-HasReleasedMacros : (cfg : Config) → Sound cfg → HasReleasedMacros cfg
Sound-HasReleasedMacros cfg h i = (h.playable i).0

no_elem : (xs : List ℕ) → ((i : ℕ) → elem i xs ≡ true → i < 0) → xs ≡ []
no_elem [] h = refl
no_elem (x ∷ xs) h = elim (none_below (h x (ground arith))) [ ]
  where
    none_below : x < 0 → ⊥
    none_below e = omega arith

pub Sound-IsNested :
    (cfg : Config) (n : ℕ) (d : Descriptor) → Sound cfg → Below n d → IsNested cfg n d
Sound-IsNested cfg zero d h b = no_elem (references d) b
Sound-IsNested cfg (suc n) d h b = λ i e.
    Sound-IsNested cfg n (cfg.descriptors i) h
      (Below-le i n (cfg.descriptors i) (omega (arith, b i e)) (h.nested i))
