-- ===== src/Macro.antt =====
-- src/macro.c, macro_execute: the output of a macro.
pub mod Trace
pub mod Spec
pub mod Released
pub mod Parse
use keyd_fork.Common.{
  ℕ, suc, ◌-◌, ◌*◌, ◌/◌, ◌%◌, bit_and, Bool, true, false, not, Option, none, some, List, [], ◌∷◌,
  ◌++◌, ◌==◌, if◌then◌else◌, take, drop,
}
use keyd_fork.Config.{MacroType, MacroEntry, Macro}
use keyd_fork.Output.{Output, key, sleep}
use keyd_fork.Keys.{Modifier, modifiers}

-- `unicode_get_sequence` and `unicode_lookup_index` of the generated unicode.c; `none` is a negative
-- result.
pub record Env : Type 0 where
  pub unicode_get_sequence : ℕ → List ℕ
  pub unicode_lookup_index : ℕ → Option ℕ

abbrev pub tap : ℕ → List Output
tap code = key code true ∷ key code false ∷ []

-- The entries' data, let go one by one.
pub release_all : List MacroEntry → List Output
release_all [] = []
release_all (e ∷ es) = key (e.data' % 256) false ∷ release_all es

pub mod_keys : List Modifier → ℕ → Bool → List Output
mod_keys [] mods state = []
mod_keys (m ∷ ms) mods state =
    if not (bit_and mods m.mask == 0)
    then key m.key state ∷ mod_keys ms mods state
    else mod_keys ms mods state

pub tap_each : List ℕ → List Output
tap_each [] = []
tap_each (c ∷ cs) = key c true ∷ key c false ∷ tap_each cs

pub pause : ℕ → List Output
pause timeout = if timeout == 0 then [] else sleep timeout ∷ []

pub execute_keysequence : ℕ → ℕ → List Output
unfolding mod_keys pause
execute_keysequence timeout d =
    let code = d % 256 in
    let mods = d / 256 in
    mod_keys modifiers mods true
    ++ ((if mods == 0 then [] else pause timeout) ++ (tap code ++ mod_keys modifiers mods false))

-- Where the loop stands: `entries` is the whole macro, `i` the entry's index.
module _ (env : Env) (entries : Macro) where
  -- The output of one entry, and `hold_start` behind it (`none` is -1).
  execute_entry : ℕ → ℕ → Option ℕ → MacroType → ℕ → List Output × Option ℕ
  unfolding release_all tap_each execute_keysequence
  execute_entry timeout i start MacroType.hold d =
      (key (d % 256) true ∷ [], elim start [ none ↦ some i | some j ↦ some j ])
  execute_entry timeout i start MacroType.release d =
      (elim start [ none ↦ [] | some j ↦ release_all (take (i - j) (drop j entries)) ], none)
  execute_entry timeout i start MacroType.unicode d =
      (tap_each (take 4 (env.unicode_get_sequence d)), start)
  execute_entry timeout i start MacroType.keysequence d = (execute_keysequence timeout d, start)
  execute_entry timeout i start MacroType.timeout d = (sleep (d * 1000) ∷ [], start)

  execute_from : ℕ → ℕ → Option ℕ → List MacroEntry → List Output
  unfolding execute_entry pause
  execute_from timeout i start [] = []
  execute_from timeout i start (e ∷ es) =
      let (out, start') = execute_entry timeout i start e.type e.data' in
      out ++ (pause timeout ++ execute_from timeout (suc i) start' es)

unfoldable pub macro_execute : Env → Macro → ℕ → List Output
unfolding execute_from
macro_execute env entries timeout = execute_from env entries timeout 0 none entries
