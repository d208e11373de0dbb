-- ===== src/Parser/Descriptor.antt =====
-- src/config.c: parse_descriptor.
use keyd_fork.Common.{
  ℕ, zero, suc, true, false, not, ◌&&◌, Option, none, some, List, [], ◌∷◌, ◌++◌, ltb, ◌==◌,
  if◌then◌else◌, length, take, Result, ◌>>=◌, ok, aborted, out_of_fuel, missing_layer,
}
use keyd_fork.Parser.Index.{config_get_layer_index}
use keyd_fork.Text.CString.{codes, atoi_16, str_eq}
use keyd_fork.Keys.Names.{parse_key_sequence}
use keyd_fork.Parser.Function.{parse_fn}
use keyd_fork.Macro.{Env}
use keyd_fork.Parser.Store.{add_command, add_descriptor, add_macro, stored}
use keyd_fork.Parser.Expression.{other, wrong, parsed, parse_command, parse_macro_expression}
use keyd_fork.Config.{Config, Op, Descriptor, is_layout}
use keyd_fork.Parser.Actions.{ArgType, actions, find_action}

-- The layer that a modifier key stands for.
unfoldable pub modifier_layer : ℕ → Option (List ℕ)
modifier_layer code =
    if code == 42
    then some (codes "shift")
    else if code == 29
    then some (codes "control")
    else if code == 125
    then some (codes "meta")
    else if code == 56
    then some (codes "alt")
    else if code == 100
    then some (codes "altgr")
    else none

abbrev pub set_arg : ℕ → ℕ → Descriptor → Descriptor
set_arg j v d =
    if j == 0
    then record d { arg0 = v }
    else if j == 1
    then record d { arg1 = v }
    else record d { arg2 = v }

-- A call of parse_descriptor.
abbrev pub Parse : Type 0
Parse = Option (List ℕ) → Config → Result (Option Descriptor × Config)

abbrev concat : List (List ℕ) → List ℕ
concat [] = []
concat (xs ∷ xss) = xs ++ concat xss

-- The call of lettermod, with the buffer's 1023 bytes.
unfoldable pub lettermod_text : List (List ℕ) → Option (List ℕ)
lettermod_text (a ∷ b ∷ c ∷ d ∷ []) = some (
    take 1023 (
      concat (
        codes "overloadi("
        ∷ b
        ∷ codes ", overloadt2("
        ∷ a
        ∷ codes ", "
        ∷ b
        ∷ codes ", "
        ∷ d
        ∷ codes "), "
        ∷ c
        ∷ codes ")"
        ∷ [])))
lettermod_text _ = none

-- The name and the arguments; lettermod stands for a call of overloadi.
unfoldable pub expand_fn : List ℕ → List (List ℕ) → Result (Option (List ℕ × List (List ℕ)))
unfolding lettermod_text
expand_fn fn args = elim (str_eq fn (codes "lettermod")) [
  | false ↦ ok (some (fn, args))
  | true ↦ elim (lettermod_text args) [ none ↦ ok none | some text ↦ parse_fn text ]
]

module _ (env : Env) where
  -- The `switch` on the type of an argument: the number that is stored.
  unfoldable pub parse_arg : Parse → ArgType → List ℕ → Config → Result (Option ℕ × Config)
  parse_arg parse ArgType.layer s config = ok (
    (if str_eq s (codes "main") then none else (elim (config_get_layer_index config (some s)) [
      | none ↦ none
      | some i ↦ if is_layout (config.layers i).type then none else some i
    ])),
    config,
  )
  parse_arg parse ArgType.layout s config = ok (
    (elim (config_get_layer_index config (some s)) [
      | none ↦ none
      | some i ↦ if not (i == 0) && not (is_layout (config.layers i).type) then none else some i
    ]),
    config,
  )
  parse_arg parse ArgType.descriptor s config = parse (some s) config >>= (λ (r, config'). elim r [
    | none ↦ ok (none, config')
    | some d ↦ stored config' (λ i. i) (add_descriptor config' d)
  ])
  parse_arg parse ArgType.sensitivity s config = ok (some (atoi_16 s), config)
  parse_arg parse ArgType.timeout s config = ok (some (atoi_16 s), config)
  parse_arg parse ArgType.macro s config = elim (ltb config.nr_macros 256) [
    | false ↦ ok (none, config)
    | true ↦ parse_macro_expression env s >>= (λ r. elim r [
      | parsed m ↦ stored config (λ i. i) (add_macro config m)
      | _ ↦ ok (none, config)
    ])
  ]

  -- The loop over the arguments, from the last to the first; `j` is the index of the first one
  -- here.
  unfoldable pub parse_args :
      Parse
      → ℕ
      → List ArgType
      → List (List ℕ)
      → Descriptor
      → Config
      → Result (Option Descriptor × Config)
  unfolding parse_arg
  parse_args parse j (t ∷ ts) (a ∷ more) d config =
      parse_args parse (suc j) ts more d config >>= (λ (r, config'). elim r [
        | none ↦ ok (none, config')
        | some d' ↦ parse_arg parse t a config' >>= (λ (v, config''). elim v [
          | none ↦ ok (none, config'')
          | some n ↦ ok (some (set_arg j n d'), config'')
        ])
      ])
  parse_args parse j _ _ d config = ok (some d, config)

  -- A call of an action. `junk` is what the memory of the result held.
  unfoldable pub parse_call :
      Parse → Descriptor → List ℕ → List (List ℕ) → Config → Result (Option Descriptor × Config)
  unfolding parse_args
  parse_call parse junk fn args config = elim (find_action fn actions) [
    | none ↦ ok (none, config)
    | some a ↦
        if length args == length a.args
        then parse_args parse 0 a.args args (record junk { op = a.op }) config
        else ok (none, config)
  ]

  unfoldable pub parse_function :
      Parse → Descriptor → List ℕ → Config → Result (Option Descriptor × Config)
  unfolding parse_call
  parse_function parse junk s config = parse_fn s >>= (λ r. elim r [
    | none ↦ ok (none, config)
    | some (fn, args) ↦ expand_fn fn args >>= (λ r'. elim r' [
      | none ↦ ok (none, config)
      | some (fn', args') ↦ parse_call parse junk fn' args' config
    ])
  ])

  -- An expression that is no command: a macro, or else a call.
  unfoldable pub parse_macro :
      Parse → Descriptor → List ℕ → Config → Result (Option Descriptor × Config)
  unfolding parse_function
  parse_macro parse junk s config = parse_macro_expression env s >>= (λ r. elim r [
    | other ↦ parse_function parse junk s config
    | wrong ↦ ok (none, config)
    | parsed m ↦ stored config (λ i. record junk { op = Op.macro; arg0 = i }) (add_macro config m)
  ])

  -- An expression that is no key.
  unfoldable pub parse_action :
      Parse → Descriptor → List ℕ → Config → Result (Option Descriptor × Config)
  unfolding parse_macro
  parse_action parse junk s config = elim (parse_command s) [
    | other ↦ parse_macro parse junk s config
    | wrong ↦ ok (none, config)
    | parsed c ↦
        stored config (λ i. record junk { op = Op.command; arg0 = i }) (add_command config c)
  ]

  -- A key, or the layer that a modifier key stands for.
  unfoldable pub parse_key_descriptor :
      Descriptor → ℕ → ℕ → Config → Result (Option Descriptor × Config)
  parse_key_descriptor junk code mods config = elim (modifier_layer code) [
    | none ↦ ok (some (record junk { op = Op.keysequence; arg0 = code; arg1 = mods }), config)
    | some layer ↦ elim (config_get_layer_index config (some layer)) [
      | none ↦ aborted missing_layer
      | some i ↦ ok (some (record junk { op = Op.layer; arg0 = i }), config)
    ]
  ]

  unfoldable pub parse_descriptor : ℕ → Descriptor → Parse
  unfolding parse_key_descriptor parse_action
  parse_descriptor zero junk s config = out_of_fuel
  parse_descriptor (suc fuel) junk none config = ok (some (record junk { op = Op.unset }), config)
  parse_descriptor (suc fuel) junk (some []) config =
      ok (some (record junk { op = Op.unset }), config)
  parse_descriptor (suc fuel) junk (some (c ∷ s)) config = elim (parse_key_sequence (c ∷ s)) [
    | some (code, mods) ↦ parse_key_descriptor junk code mods config
    | none ↦ parse_action (parse_descriptor fuel junk) junk (c ∷ s) config
  ]
