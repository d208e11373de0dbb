-- ===== src/Parser/Sound/Calls.antt =====
-- src/config.c: parse_descriptor keeps what the configurations of the parser are like.
use keyd_fork.Common.{
  ℕ, zero, suc, ◌+◌, ◌≤◌, ◌<◌, ◌≡◌, refl, ◌∙◌, inl, inr, Bool, true, false, Option, none, some,
  List, [], ◌∷◌, arith, ltb, ◌==◌, ==_eq, Option-cases, if_split, length, Result, ◌>>=◌, Ensures,
  Ensures-bind, ok, aborted, out_of_fuel, missing_layer, done, aborts, starves,
}
use keyd_fork.Parser.Index.{config_get_layer_index}
use keyd_fork.Keys.Names.{parse_key_sequence}
use keyd_fork.Parser.Function.{parse_fn}
use keyd_fork.Parser.Sound.Slots.{ValBelow, set_arg-op, ArgsBelow-le, ArgsBelow-cons}
use keyd_fork.Parser.Store.{add_macro, add_descriptor, add_command}
use keyd_fork.Parser.Sound.Arrays.{
  stored-Left, add_descriptor-Sound, add_macro-Sound, OnParsed, parse_macro_expression-Ensures,
  add_command-Sound,
}
use keyd_fork.Config.{Config, Descriptor, Op, Macro}
use keyd_fork.Macro.{Env}
use keyd_fork.Parser.Actions.{ArgType, Action, actions, find_action}
use keyd_fork.Parser.Descriptor.{
  Parse, parse_arg, parse_args, expand_fn, parse_call, parse_function, modifier_layer, parse_macro,
  parse_action, parse_key_descriptor, parse_descriptor,
}
use keyd_fork.Parser.Expression.{
  other, wrong, parsed, Expression, parse_macro_expression, parse_command,
}
use keyd_fork.Parser.Store.{stored, add_command}
use keyd_fork.Parser.Sound.{Below, Sound, OnSome, Left, Left-then}
use keyd_fork.Parser.Sound.Table.{ArgsBelow, action-Below, quiet_Below}

any : (o : Option ℕ) → OnSome (λ v. Unit {0}) o
any none = tt
any (some v) = tt

-- The arguments from the `j`th on, and the operation.
abbrev Args : ℕ → List ArgType → Op → ℕ → Descriptor → Type 0
Args j ts op n d = ArgsBelow n j ts d × (d.op ≡ op)

-- The calls on a configuration keep it sound, and give what is below the descriptors there are.
abbrev IsSoundParse : Parse → Type 0
IsSoundParse parse =
    (s : Option (List ℕ)) (c : Config) → Sound c → Ensures (Left c.nr_descriptors Below) (parse s c)

Left-le {ℓ} :
    {A : Type ℓ} (m n : ℕ) (P : ℕ → A → Type 0) (r : Result (Option A × Config))
    → m ≤ n
    → Ensures (Left n P) r
    → Ensures (Left m P) r
Left-le m n P (ok r) h (done x) = done (x.0, omega (arith, h, x.1), x.2)
Left-le m n P (aborted e) h x = aborts
Left-le m n P out_of_fuel h x = starves

module _ (env : Env) (parse : Parse) (sound : IsSoundParse parse) where
  macro_arg :
      (c : Config) (r : Expression Macro)
      → Sound c
      → OnParsed r
      → Ensures
          (Left c.nr_descriptors (ValBelow ArgType.macro))
          (elim r [ parsed m ↦ stored c (λ i. i) (add_macro c m) | _ ↦ ok (none, c) ])
  macro_arg c other h p = done (h, omega arith, tt)
  macro_arg c wrong h p = done (h, omega arith, tt)
  macro_arg c (parsed m) h p =
      stored-Left c.nr_descriptors (ValBelow ArgType.macro) c (λ i. i) (add_macro c m) h
        (omega arith) (with_unit (add_macro c m) (add_macro-Sound c m h p))
    where
      with_unit :
          (o : Option (ℕ × Config))
          → OnSome (λ r. Sound r.1 × (c.nr_descriptors ≤ r.1.nr_descriptors)) o
          → OnSome (λ r. Sound r.1 × (c.nr_descriptors ≤ r.1.nr_descriptors) × Unit {0}) o
      with_unit none x = tt
      with_unit (some r) x = (x.0, x.1, tt)

  parse_arg-Left :
      (t : ArgType) (s : List ℕ) (c : Config)
      → Sound c
      → Ensures (Left c.nr_descriptors (ValBelow t)) (parse_arg env parse t s c)
  unfolding parse_arg
  parse_arg-Left ArgType.layer s c h = done (h, omega arith, any _)
  parse_arg-Left ArgType.layout s c h = done (h, omega arith, any _)
  parse_arg-Left ArgType.sensitivity s c h = done (h, omega arith, tt)
  parse_arg-Left ArgType.timeout s c h = done (h, omega arith, tt)
  parse_arg-Left ArgType.descriptor s c h =
      Left-then c.nr_descriptors Below (ValBelow ArgType.descriptor) (parse (some s) c) _
        (sound (some s) c h)
        (λ d c' h' l b.
          stored-Left c.nr_descriptors (ValBelow ArgType.descriptor) c' (λ i. i)
            (add_descriptor c' d) h' l
            (raised c c' l (add_descriptor c' d) (add_descriptor-Sound c' d h' b)))
    where
      raised :
          (c c' : Config)
          → c.nr_descriptors ≤ c'.nr_descriptors
          → (o : Option (ℕ × Config))
          → OnSome
              (λ r.
                Sound r.1 × (c'.nr_descriptors ≤ r.1.nr_descriptors) × (r.0 < r.1.nr_descriptors))
              o
          → OnSome
              (λ r.
                Sound r.1 × (c.nr_descriptors ≤ r.1.nr_descriptors) × (r.0 < r.1.nr_descriptors))
              o
      raised c c' l none x = tt
      raised c c' l (some r) x = (x.0, omega (arith, x.1, l), x.2)
  parse_arg-Left ArgType.macro s c h = if_room (ltb c.nr_macros 256)
    where
      if_room :
          (b : Bool)
          → Ensures (Left c.nr_descriptors (ValBelow ArgType.macro)) (elim b [
            | false ↦ ok (none, c)
            | true ↦ parse_macro_expression env s >>= (λ r. elim r [
              | parsed m ↦ stored c (λ i. i) (add_macro c m)
              | _ ↦ ok (none, c)
            ])
          ])
      if_room false = done (h, omega arith, tt)
      if_room true =
          Ensures-bind _ (parse_macro_expression-Ensures env s) (λ r p. macro_arg c r h p)

  parse_args-Left :
      (j : ℕ) (ts : List ArgType) (args : List (List ℕ)) (d : Descriptor) (c : Config)
      → Sound c
      → j + length ts ≤ 3
      → length args ≡ length ts
      → Ensures (Left c.nr_descriptors (Args j ts d.op)) (parse_args env parse j ts args d c)
  unfolding parse_args
  parse_args-Left j [] [] d c h l e = done (h, omega arith, (tt, refl))
  parse_args-Left j [] (a ∷ args) d c h l e = elim (no_match (length args) e) [ ]
    where
      no_match : (n : ℕ) → suc n ≡ 0 → ⊥
      no_match n e = omega arith
  parse_args-Left j (t ∷ ts) [] d c h l e = elim (no_match (length ts) e) [ ]
    where
      no_match : (n : ℕ) → 0 ≡ suc n → ⊥
      no_match n e = omega arith
  parse_args-Left j (t ∷ ts) (a ∷ args) d c h l e =
      Left-then c.nr_descriptors (Args (suc j) ts d.op) (Args j (t ∷ ts) d.op)
        (parse_args env parse (suc j) ts args d c) _
        (parse_args-Left (suc j) ts args d c h (omega arith) (omega arith))
        (λ d' c' h' l' b. Left-le c.nr_descriptors c'.nr_descriptors (Args j (t ∷ ts) d.op) _ l' (
          Left-then c'.nr_descriptors (ValBelow t) (Args j (t ∷ ts) d.op)
            (parse_arg env parse t a c') _ (parse_arg-Left t a c' h')
            (λ v c'' h'' l'' x. done (
              h'',
              l'',
              (
                ArgsBelow-cons c''.nr_descriptors j v t ts d' (omega arith) x
                    (ArgsBelow-le c'.nr_descriptors c''.nr_descriptors (suc j) ts d' l'' b.0),
                set_arg-op j v d' ∙ b.1,
              ),
            ))))

  parse_call-Left :
      (junk : Descriptor) (fn : List ℕ) (args : List (List ℕ)) (c : Config)
      → Sound c
      → Ensures (Left c.nr_descriptors Below) (parse_call env parse junk fn args c)
  unfolding parse_call
  parse_call-Left junk fn args c h = elim (Option-cases (find_action fn actions)) [
    | inl e ↦ rw (e, parse_call) (done (h, omega arith, tt))
    | inr (a, e) ↦
        rw (e, parse_call)
          (if_split (Ensures (Left c.nr_descriptors Below)) (length args == length a.args)
            (λ same. called a e _ (
              parse_args-Left 0 a.args args (record junk { op = a.op }) c h
                (omega (arith, (action-Below fn a e).0)) (==_eq _ _ same)))
            (λ _. done (h, omega arith, tt)))
  ]
    where
      called :
          (a : Action)
          → find_action fn actions ≡ some a
          → (r : Result (Option Descriptor × Config))
          → Ensures (Left c.nr_descriptors (Args 0 a.args a.op)) r
          → Ensures (Left c.nr_descriptors Below) r
      called a e (ok (none, c')) (done x) = done (x.0, x.1, tt)
      called a e (ok (some d, c')) (done x) =
          done (x.0, x.1, (action-Below fn a e).1 c'.nr_descriptors d x.2.0 x.2.1)
      called a e (aborted _) x = aborts
      called a e out_of_fuel x = starves

  parse_function-Left :
      (junk : Descriptor) (s : List ℕ) (c : Config)
      → Sound c
      → Ensures (Left c.nr_descriptors Below) (parse_function env parse junk s c)
  unfolding parse_function ◌>>=◌
  parse_function-Left junk s c h = split (parse_fn s)
    where
      expanded :
          (r : Result (Option (List ℕ × List (List ℕ))))
          → Ensures (Left c.nr_descriptors Below) (
              r >>= (λ r'. elim r' [
                | none ↦ ok (none, c)
                | some (fn', args') ↦ parse_call env parse junk fn' args' c
              ]))
      expanded (ok none) = done (h, omega arith, tt)
      expanded (ok (some (fn, args))) = parse_call-Left junk fn args c h
      expanded (aborted e) = aborts
      expanded out_of_fuel = starves

      split :
          (r : Result (Option (List ℕ × List (List ℕ))))
          → Ensures (Left c.nr_descriptors Below) (
              r >>= (λ r. elim r [
                | none ↦ ok (none, c)
                | some (fn, args) ↦ expand_fn fn args >>= (λ r'. elim r' [
                  | none ↦ ok (none, c)
                  | some (fn', args') ↦ parse_call env parse junk fn' args' c
                ])
              ]))
      split (ok none) = done (h, omega arith, tt)
      split (ok (some (fn, args))) = expanded (expand_fn fn args)
      split (aborted e) = aborts
      split out_of_fuel = starves

  parse_macro-Left :
      (junk : Descriptor) (s : List ℕ) (c : Config)
      → Sound c
      → Ensures (Left c.nr_descriptors Below) (parse_macro env parse junk s c)
  unfolding parse_macro
  parse_macro-Left junk s c h = Ensures-bind _ (parse_macro_expression-Ensures env s) result
    where
      quiet :
          (o : Option (ℕ × Config))
          → OnSome (λ r. Sound r.1 × (c.nr_descriptors ≤ r.1.nr_descriptors)) o
          → OnSome
              (λ r.
                Sound r.1
                × (c.nr_descriptors ≤ r.1.nr_descriptors)
                × Below r.1.nr_descriptors (record junk { op = Op.macro; arg0 = r.0 }))
              o
      quiet none x = tt
      quiet (some r) x = (
        x.0,
        x.1,
        quiet_Below r.1.nr_descriptors (record junk { op = Op.macro; arg0 = r.0 }) refl,
      )

      result :
          (r : Expression Macro)
          → OnParsed r
          → Ensures (Left c.nr_descriptors Below) (elim r [
            | other ↦ parse_function env parse junk s c
            | wrong ↦ ok (none, c)
            | parsed m ↦ stored c (λ i. record junk { op = Op.macro; arg0 = i }) (add_macro c m)
          ])
      result other p = parse_function-Left junk s c h
      result wrong p = done (h, omega arith, tt)
      result (parsed m) p =
          stored-Left c.nr_descriptors Below c _ (add_macro c m) h (omega arith)
            (quiet (add_macro c m) (add_macro-Sound c m h p))

  parse_action-Left :
      (junk : Descriptor) (s : List ℕ) (c : Config)
      → Sound c
      → Ensures (Left c.nr_descriptors Below) (parse_action env parse junk s c)
  unfolding parse_action
  parse_action-Left junk s c h = result (parse_command s)
    where
      quiet :
          (o : Option (ℕ × Config))
          → OnSome (λ r. Sound r.1 × (c.nr_descriptors ≤ r.1.nr_descriptors)) o
          → OnSome
              (λ r.
                Sound r.1
                × (c.nr_descriptors ≤ r.1.nr_descriptors)
                × Below r.1.nr_descriptors (record junk { op = Op.command; arg0 = r.0 }))
              o
      quiet none x = tt
      quiet (some r) x = (
        x.0,
        x.1,
        quiet_Below r.1.nr_descriptors (record junk { op = Op.command; arg0 = r.0 }) refl,
      )

      result :
          (r : Expression (List ℕ))
          → Ensures (Left c.nr_descriptors Below) (elim r [
            | other ↦ parse_macro env parse junk s c
            | wrong ↦ ok (none, c)
            | parsed x ↦ stored c (λ i. record junk { op = Op.command; arg0 = i }) (add_command c x)
          ])
      result other = parse_macro-Left junk s c h
      result wrong = done (h, omega arith, tt)
      result (parsed x) =
          stored-Left c.nr_descriptors Below c _ (add_command c x) h (omega arith)
            (quiet (add_command c x) (add_command-Sound c x h))

parse_key_descriptor-Left :
    (env : Env) (junk : Descriptor) (code mods : ℕ) (c : Config)
    → Sound c
    → Ensures (Left c.nr_descriptors Below) (parse_key_descriptor env junk code mods c)
unfolding parse_key_descriptor
parse_key_descriptor-Left env junk code mods c h = key (modifier_layer code)
  where
    index :
        (o : Option ℕ)
        → Ensures (Left c.nr_descriptors Below) (elim o [
          | none ↦ aborted missing_layer
          | some i ↦ ok (some (record junk { op = Op.layer; arg0 = i }), c)
        ])
    index none = aborts
    index (some i) = done (
      h,
      omega arith,
      quiet_Below c.nr_descriptors (record junk { op = Op.layer; arg0 = i }) refl,
    )

    key :
        (o : Option (List ℕ))
        → Ensures (Left c.nr_descriptors Below) (elim o [
          | none ↦ ok (some (record junk { op = Op.keysequence; arg0 = code; arg1 = mods }), c)
          | some layer ↦ elim (config_get_layer_index c (some layer)) [
            | none ↦ aborted missing_layer
            | some i ↦ ok (some (record junk { op = Op.layer; arg0 = i }), c)
          ]
        ])
    key none = done (
      h,
      omega arith,
      quiet_Below c.nr_descriptors (record junk { op = Op.keysequence; arg0 = code; arg1 = mods })
          refl,
    )
    key (some layer) = index (config_get_layer_index c (some layer))

pub parse_descriptor-Left :
    (env : Env) (fuel : ℕ) (junk : Descriptor) → IsSoundParse (parse_descriptor env fuel junk)
unfolding parse_descriptor
parse_descriptor-Left env zero junk s c h = starves
parse_descriptor-Left env (suc fuel) junk none c h =
    done (h, omega arith, quiet_Below c.nr_descriptors (record junk { op = Op.unset }) refl)
parse_descriptor-Left env (suc fuel) junk (some []) c h =
    done (h, omega arith, quiet_Below c.nr_descriptors (record junk { op = Op.unset }) refl)
parse_descriptor-Left env (suc fuel) junk (some (x ∷ s)) c h =
    elim (Option-cases (parse_key_sequence (x ∷ s))) [
      | inr ((code, mods), e) ↦
          rw (e, parse_descriptor) (parse_key_descriptor-Left env junk code mods c h)
      | inl e ↦
          rw (e, parse_descriptor)
            (parse_action-Left env (parse_descriptor env fuel junk)
              (parse_descriptor-Left env fuel junk) junk (x ∷ s) c h)
    ]
