-- ===== src/Parser/Entry/Bound.antt =====
-- src/config.c: which keys set_layer_entry binds.
use keyd_fork.Common.{
  ℕ, ◌≡◌, refl, sym, ap, subst, ◌∙◌, ◌⊎◌, inl, inr, Bool, true, false, ◌&&◌, ◌||◌, none, some, List,
  [], ◌∷◌, arith, ◌==◌, if◌then◌else◌, ==_eq, Bool-cases, update, range, elem,
}
use keyd_fork.Keys.Names.{lookup_keycode}
use keyd_fork.Text.CString.{str_eq}
use keyd_fork.Config.{Descriptor, Layer, Config}
use keyd_fork.Parser.Entry.{set_aliased, set_key, set_layer_entry}

-- The key has the alias.
abbrev pub is_alias : (ℕ → List ℕ) → List ℕ → List ℕ → ℕ → Bool
is_alias aliases key is q = elem q is && str_eq (aliases q) key

abbrev pub some_alias : (ℕ → List ℕ) → List ℕ → List ℕ → Bool
some_alias aliases key [] = false
some_alias aliases key (i ∷ is) = str_eq (aliases i) key || some_alias aliases key is

set_aliased-found :
    (aliases : ℕ → List ℕ) (key : List ℕ) (d : Descriptor) (is : List ℕ)
    (r : (ℕ → Descriptor) × Bool)
    → (set_aliased aliases key d is r).1 ≡ (r.1 || some_alias aliases key is)
unfolding set_aliased
set_aliased-found aliases key d [] (keymap, true) = refl
set_aliased-found aliases key d [] (keymap, false) = refl
set_aliased-found aliases key d (i ∷ is) (keymap, found) =
    elim (Bool-cases (str_eq (aliases i) key)) [
      | inl e ↦ ground (arith, set_aliased-found aliases key d is (update keymap i d, true))
      | inr e ↦ ground (arith, set_aliased-found aliases key d is (keymap, found))
    ]

set_aliased-keymap :
    (aliases : ℕ → List ℕ) (key : List ℕ) (d : Descriptor) (is : List ℕ)
    (r : (ℕ → Descriptor) × Bool) (q : ℕ)
    → (set_aliased aliases key d is r).0 q ≡ (if is_alias aliases key is q then d else r.0 q)
unfolding set_aliased
set_aliased-keymap aliases key d [] (keymap, found) q = refl
set_aliased-keymap aliases key d (i ∷ is) (keymap, found) q =
    elim (Bool-cases (str_eq (aliases i) key)) [
      | inl e ↦ elim (Bool-cases (i == q)) [
        | inl same ↦
            let e' = subst (λ x. str_eq (aliases x) key ≡ true) (==_eq i q same) e in
            ground (arith, set_aliased-keymap aliases key d is (update keymap i d, true) q)
        | inr other ↦
            ground (arith, set_aliased-keymap aliases key d is (update keymap i d, true) q)
      ]
      | inr e ↦ elim (Bool-cases (i == q)) [
        | inl same ↦
            let e' = subst (λ x. str_eq (aliases x) key ≡ false) (==_eq i q same) e in
            ground (arith, set_aliased-keymap aliases key d is (keymap, found) q)
        | inr other ↦ ground (arith, set_aliased-keymap aliases key d is (keymap, found) q)
      ]
    ]

-- The keys that a name without + stands for: the keys that have it for an alias, or else the key of
-- the name.
abbrev pub names_key : Config → List ℕ → ℕ → Bool
names_key config key q =
    if some_alias config.aliases key (range 256)
    then is_alias config.aliases key (range 256) q
    else lookup_keycode key == q

choose :
    (found missing : Bool) (a b l : Layer)
    → (if found then some a else if missing then none else some b) ≡ some l
    → ((found ≡ true) × (a ≡ l)) ⊎ ((found ≡ false) × (b ≡ l))
choose true missing a b l h = inl (refl, cc)
choose false true a b l h = cc
choose false false a b l h = inr (refl, cc)

set_key-keymap :
    (config : Config) (layer layer' : Layer) (key : List ℕ) (d : Descriptor)
    → set_key config layer key d ≡ some layer'
    → (q : ℕ) → layer'.keymap q ≡ (if names_key config key q then d else layer.keymap q)
unfolding set_key
set_key-keymap config layer layer' key d run q =
    let r = set_aliased config.aliases key d (range 256) (layer.keymap, false) in
    let found = set_aliased-found config.aliases key d (range 256) (layer.keymap, false) in
    let keymap = set_aliased-keymap config.aliases key d (range 256) (layer.keymap, false) q in
    let aliased : Layer = record layer { keymap = r.0 } in
    let bound : Layer = record layer { keymap = update layer.keymap (lookup_keycode key) d } in
    elim (choose r.1 (lookup_keycode key == 0) aliased bound layer' run) [
      | inl (e, same) ↦
          sym (ap (λ (l : Layer). l.keymap q) same)
          ∙ (keymap
              ∙ sym (
                  ap
                    (λ b.
                      if (if b
                        then is_alias config.aliases key (range 256) q
                        else lookup_keycode key == q)
                      then d
                      else layer.keymap q)
                    (sym found ∙ e)))
      | inr (e, same) ↦
          sym (ap (λ (l : Layer). l.keymap q) same)
          ∙ sym (
              ap
                (λ b.
                  if (if b
                    then is_alias config.aliases key (range 256) q
                    else lookup_keycode key == q)
                  then d
                  else layer.keymap q)
                (sym found ∙ e))
    ]

-- set_layer_entry of a name without +, where it succeeds, binds exactly the keys that have the name
-- for an alias, or else the key of the name, and leaves every other key of the layer as it was.
pub set_layer_entry-keymap :
    (config : Config) (layer layer' : Layer) (key : List ℕ) (d : Descriptor)
    → elem 43 key ≡ false
    → set_layer_entry config layer key d ≡ some layer'
    → (q : ℕ) → layer'.keymap q ≡ (if names_key config key q then d else layer.keymap q)
unfolding set_layer_entry
set_layer_entry-keymap config layer layer' key d plain run q =
    set_key-keymap config layer layer' key d (rw (plain, set_layer_entry) at run) q
