-- ===== src/Parser/Sound/Arrays.antt =====
-- src/config.c, parse_descriptor: the arrays that it fills.
use keyd_fork.Common.{
  ℕ, suc, ◌≤◌, ◌<◌, subst, Option, none, some, List, arith, ltb, ◌==◌, ==_eq, if_intro, if_split,
  Result, ◌>>=◌, Ensures, Ensures-bind, ok, aborted, out_of_fuel, done, aborts, starves,
}
use keyd_fork.Macro.{Env}
use keyd_fork.Macro.Parse.{macro_parse}
use keyd_fork.Parser.Store.{stored, add_descriptor, add_command, add_macro}
use keyd_fork.Config.{Config, Descriptor, Macro}
use keyd_fork.Macro.Parse.Sound.{IsPlayable, Accepts, macro_parse-Ensures}
use keyd_fork.Parser.Expression.{
  other, wrong, parsed, Expression, macro_text, parse_macro_expression,
}
use keyd_fork.Parser.Sound.{Below, Sound, Below-le, ChordsBelow-le, OnSome, Left}

-- What is added to the arrays.
pub add_command-Sound :
    (c : Config) (x : List ℕ)
    → Sound c
    → OnSome (λ r. Sound r.1 × (c.nr_descriptors ≤ r.1.nr_descriptors)) (add_command c x)
unfolding add_command
add_command-Sound c x h =
    if_intro (OnSome _) (ltb c.nr_commands 64)
      (
        record { playable = h.playable; nested = h.nested; keymaps = h.keymaps; chords = h.chords },
        omega arith,
      )
      tt

pub add_macro-Sound :
    (c : Config) (m : Macro)
    → Sound c
    → IsPlayable m
    → OnSome (λ r. Sound r.1 × (c.nr_descriptors ≤ r.1.nr_descriptors)) (add_macro c m)
unfolding add_macro
add_macro-Sound c m h p =
    if_intro (OnSome _) (ltb c.nr_macros 256)
      (
        record {
          playable = λ i. if_intro IsPlayable (c.nr_macros == i) p (h.playable i);
          nested = h.nested;
          keymaps = h.keymaps;
          chords = h.chords;
        },
        omega arith,
      )
      tt

pub add_descriptor-Sound :
    (c : Config) (d : Descriptor)
    → Sound c
    → Below c.nr_descriptors d
    → OnSome
        (λ r. Sound r.1 × (c.nr_descriptors ≤ r.1.nr_descriptors) × (r.0 < r.1.nr_descriptors))
        (add_descriptor c d)
unfolding add_descriptor
add_descriptor-Sound c d h b =
    if_intro (OnSome _) (ltb c.nr_descriptors 1024)
      (
        record {
          playable = h.playable;
          nested = λ i.
              if_split (Below i) (c.nr_descriptors == i)
                (λ e. subst (λ k. Below k d) (==_eq _ _ e) b) (λ _. h.nested i);
          keymaps = λ l q.
              Below-le c.nr_descriptors (suc c.nr_descriptors) ((c.layers l).keymap q) (omega arith)
                (h.keymaps l q);
          chords = λ l.
              ChordsBelow-le c.nr_descriptors (suc c.nr_descriptors) (c.layers l).chords
                (omega arith) (h.chords l);
        },
        omega arith,
        omega arith,
      )
      tt

-- What was added, with the result that names it.
pub stored-Left {ℓ} :
    {A : Type ℓ} (n : ℕ) (P : ℕ → A → Type 0) (c : Config) (f : ℕ → A) (o : Option (ℕ × Config))
    → Sound c
    → n ≤ c.nr_descriptors
    → OnSome (λ r. Sound r.1 × (n ≤ r.1.nr_descriptors) × P r.1.nr_descriptors (f r.0)) o
    → Ensures (Left n P) (stored c f o)
unfolding stored
stored-Left n P c f none h l x = done (h, l, tt)
stored-Left n P c f (some (i, c')) h l x = done x

-- A macro that is parsed can be stored.
abbrev pub OnParsed : Expression Macro → Type 0
OnParsed (parsed m) = IsPlayable m
OnParsed _ = Unit {0}

pub parse_macro_expression-Ensures :
    (env : Env) (s : List ℕ) → Ensures OnParsed (parse_macro_expression env s)
unfolding parse_macro_expression ◌>>=◌
parse_macro_expression-Ensures env s = text (macro_text s)
  where
    result :
        (r : Option Macro)
        → Accepts IsPlayable r
        → Ensures OnParsed (elim r [ none ↦ ok wrong | some m ↦ ok (parsed m) ])
    result none a = done tt
    result (some m) a = done a

    text :
        (t : Result (Option (List ℕ)))
        → Ensures OnParsed (
            t >>= (λ text. elim text [
              | none ↦ ok other
              | some t ↦
                  macro_parse env t >>= (λ r. elim r [ none ↦ ok wrong | some m ↦ ok (parsed m) ])
            ]))
    text (ok none) = done tt
    text (ok (some t)) = Ensures-bind _ (macro_parse-Ensures env t) result
    text (aborted e) = aborts
    text out_of_fuel = starves
