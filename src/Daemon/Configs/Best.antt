-- ===== src/Daemon/Configs/Best.antt =====
-- src/daemon.c: which configuration lookup_config_ent chooses for a device.
use keyd_fork.Common.{
  ℕ, ◌≤◌, ◌<◌, ◌≡◌, refl, sym, subst, Bool, true, false, ◌&&◌, Option, none, some, List, [], ◌∷◌,
  ◌++◌, arith, ltb, ◌==◌, if◌then◌else◌, if_split, All, All-append,
}
use mathlib.Core.List.{append_assoc, append-nil}
use keyd_fork.Parser.Index.{config_check_match, id_mouse}
use keyd_fork.Daemon.{ConfigEnt}
use keyd_fork.Daemon.Configs.{find_config, lookup_config_ent}

-- The first of the entries with the highest rank, if that is not 0.
pub data IsBest (rank : ConfigEnt → ℕ) : List ConfigEnt → Option ConfigEnt → Type 0 where
  best :
      (pre : List ConfigEnt) (e : ConfigEnt) (post : List ConfigEnt)
      → All (λ x. rank x < rank e) pre
      → All (λ x. rank x ≤ rank e) post
      → IsBest rank (pre ++ (e ∷ post)) (some e)
  unmatched : (es : List ConfigEnt) → All (λ x. rank x ≡ 0) es → IsBest rank es none

All-snoc {ℓ} :
    {A : Type ℓ} (P : A → Type 0) (xs : List A) (x : A) → All P xs → P x → All P (xs ++ (x ∷ []))
All-snoc P [] x h k = (k, tt)
All-snoc P (y ∷ xs) x h k = (h.0, All-snoc P xs x h.1 k)

All-map {ℓ} :
    {A : Type ℓ} (P Q : A → Type 0) (xs : List A) → ((x : A) → P x → Q x) → All P xs → All Q xs
All-map P Q [] f h = tt
All-map P Q (x ∷ xs) f h = (f x h.0, All-map P Q xs f h.1)

-- The rank of the match so far.
abbrev top : (ConfigEnt → ℕ) → Option ConfigEnt → ℕ
top rank none = 0
top rank (some e) = rank e

-- Every entry is at most the best.
IsBest-top :
    (rank : ConfigEnt → ℕ) (es : List ConfigEnt) (m : Option ConfigEnt)
    → IsBest rank es m
    → All (λ x. rank x ≤ top rank m) es
IsBest-top rank _ _ (best pre e post h k) =
    All-append _ pre (e ∷ post) (All-map _ _ pre (λ x less. omega arith) h) (omega arith, k)
IsBest-top rank _ _ (unmatched es h) = All-map _ _ es (λ x e. omega arith) h

-- One more entry that is not better.
IsBest-keep :
    (rank : ConfigEnt → ℕ) (es : List ConfigEnt) (m : Option ConfigEnt) (x : ConfigEnt)
    → IsBest rank es m
    → rank x ≤ top rank m
    → IsBest rank (es ++ (x ∷ [])) m
IsBest-keep rank _ _ x (best pre e post h k) less =
    subst (λ (l : List ConfigEnt). IsBest rank l (some e))
      (sym (append_assoc pre (e ∷ post) (x ∷ [])))
      (best pre e (post ++ (x ∷ [])) h (All-snoc _ post x k less))
IsBest-keep rank _ _ x (unmatched es h) less =
    unmatched (es ++ (x ∷ [])) (All-snoc _ es x h (omega arith))

-- What the loop finds from here is best of what it has seen and what is left.
abbrev FoundBest : List ℕ → ℕ → ℕ → Option ConfigEnt → List ConfigEnt → List ConfigEnt → Type 0
FoundBest id flags rank match es all =
    let r = find_config id flags rank match es in
    IsBest (λ e. config_check_match e.config id flags) all r.1
    × (r.0 ≡ top (λ e. config_check_match e.config id flags) r.1)

find_config-IsBest :
    (id : List ℕ) (flags rank : ℕ) (match : Option ConfigEnt) (seen es : List ConfigEnt)
    → IsBest (λ e. config_check_match e.config id flags) seen match
    → rank ≡ top (λ e. config_check_match e.config id flags) match
    → FoundBest id flags rank match es (seen ++ es)
unfolding find_config
find_config-IsBest id flags rank match seen [] b e = (
  subst (λ (l : List ConfigEnt). IsBest (λ e. config_check_match e.config id flags) l match)
      (sym (append-nil seen)) b,
  e,
)
find_config-IsBest id flags rank match seen (x ∷ es) b e =
    subst (FoundBest id flags rank match (x ∷ es)) (append_assoc seen (x ∷ []) es) (
      step (ltb rank (config_check_match x.config id flags)) refl (λ rank' match' b' e'.
        find_config-IsBest id flags rank' match' (seen ++ (x ∷ [])) es b' e'))
  where
    step :
        (c : Bool)
        → ltb rank (config_check_match x.config id flags) ≡ c
        → ((rank' : ℕ) (match' : Option ConfigEnt)
            → IsBest (λ e. config_check_match e.config id flags) (seen ++ (x ∷ [])) match'
            → rank' ≡ top (λ e. config_check_match e.config id flags) match'
            → FoundBest id flags rank' match' es ((seen ++ (x ∷ [])) ++ es))
        → FoundBest id flags
            (if c then config_check_match x.config id flags else rank)
            (if c then some x else match)
            es
            ((seen ++ (x ∷ [])) ++ es)
    step true less ih =
        ih (config_check_match x.config id flags) (some x)
          (best seen x [] (All-map _ _ seen (λ y h. ground arith) (IsBest-top _ seen match b)) tt)
          refl
    step false less ih = ih rank match (IsBest-keep _ seen match x b (ground arith)) e

-- The rank of a configuration for a device: a wildcard counts for nothing with a mouse.
abbrev pub rank_of : List ℕ → ℕ → ConfigEnt → ℕ
rank_of id flags e =
    let r = config_check_match e.config id flags in if r == 1 && flags == id_mouse then 0 else r

capped :
    (id : List ℕ) (flags : ℕ) (es : List ConfigEnt) (m : Option ConfigEnt)
    → IsBest (λ e. config_check_match e.config id flags) es m
    → IsBest (rank_of id flags) es (
        if top (λ e. config_check_match e.config id flags) m == 1 && flags == id_mouse
        then none
        else m)
capped id flags _ _ (best pre e post h k) =
    if_split (IsBest (rank_of id flags) (pre ++ (e ∷ post)))
      (config_check_match e.config id flags == 1 && flags == id_mouse)
      (λ c. unmatched _ (
        All-append _ pre (e ∷ post) (All-map _ _ pre (λ x less. ground arith) h)
          (ground arith, All-map _ _ post (λ x less. ground arith) k)))
      (λ c.
        best pre e post (All-map _ _ pre (λ x less. ground arith) h)
          (All-map _ _ post (λ x less. ground arith) k))
capped id flags _ _ (unmatched es h) = unmatched es (All-map _ _ es (λ x e. ground arith) h)

-- lookup_config_ent chooses, for a device, the first of the configurations that match best: one that
-- names the device's id comes before a wildcard, which does not take a mouse; none where none matches.
pub lookup_config_ent-IsBest :
    (configs : List ConfigEnt) (id : List ℕ) (flags : ℕ)
    → IsBest (rank_of id flags) configs (lookup_config_ent configs id flags)
unfolding lookup_config_ent
lookup_config_ent-IsBest configs id flags =
    let (b, e) = find_config-IsBest id flags 0 none [] configs (unmatched [] tt) refl in
    rw e (capped id flags configs (find_config id flags 0 none configs).1 b)
