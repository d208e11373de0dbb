-- ===== src/Parser/Store.antt =====
-- src/config.c, parse_descriptor: the arrays of a configuration that it fills.
use keyd_fork.Common.{ℕ, suc, Option, none, some, List, ltb, if◌then◌else◌, update, Result, ok}
use keyd_fork.Config.{Config, Descriptor, Macro}

-- The arrays with room for one more, and the index of what is added.
unfoldable pub add_command : Config → List ℕ → Option (ℕ × Config)
add_command config c =
    let i = config.nr_commands in
    if ltb i 64
    then some (i, record config { commands = update config.commands i c; nr_commands = suc i })
    else none

unfoldable pub add_macro : Config → Macro → Option (ℕ × Config)
add_macro config m =
    let i = config.nr_macros in
    if ltb i 256
    then some (i, record config { macros = update config.macros i m; nr_macros = suc i })
    else none

unfoldable pub add_descriptor : Config → Descriptor → Option (ℕ × Config)
add_descriptor config d =
    let i = config.nr_descriptors in
    if ltb i 1024
    then some
        (i, record config { descriptors = update config.descriptors i d; nr_descriptors = suc i })
    else none

-- The result with what was added, or the result -1.
unfoldable pub stored {ℓ} :
    {A : Type ℓ} → Config → (ℕ → A) → Option (ℕ × Config) → Result (Option A × Config)
stored config f none = ok (none, config)
stored config f (some (i, config')) = ok (some (f i), config')
