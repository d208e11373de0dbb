-- ===== src/Parser/Actions.antt =====
-- src/config.c: the table of the actions.
use keyd_fork.Common.{ℕ, Option, none, some, List, [], ◌∷◌, if◌then◌else◌}
use keyd_fork.Config.{Op}
use keyd_fork.Text.CString.{codes, str_eq}

-- Without ARG_EMPTY, which ends an action's arguments.
pub data ArgType : Type 0 where
  macro layer layout timeout sensitivity descriptor : ArgType

pub record Action : Type 0 where
  pub name : List ℕ
  pub preferred_name : Option (List ℕ)
  pub op : Op
  pub args : List ArgType

abbrev action : List ℕ → Op → List ArgType → Action
action name op args = record { name = name; preferred_name = none; op = op; args = args }

abbrev renamed : List ℕ → List ℕ → Op → List ArgType → Action
renamed name to op args = record { name = name; preferred_name = some to; op = op; args = args }

unfoldable pub actions : List Action
actions =
    action (codes "swap") Op.swap (ArgType.layer ∷ [])
    ∷ action (codes "clear") Op.clear []
    ∷ action (codes "oneshot") Op.oneshot (ArgType.layer ∷ [])
    ∷ action (codes "toggle") Op.toggle (ArgType.layer ∷ [])
    ∷ action (codes "clearm") Op.clearm (ArgType.macro ∷ [])
    ∷ action (codes "swapm") Op.swapm (ArgType.layer ∷ ArgType.macro ∷ [])
    ∷ action (codes "togglem") Op.togglem (ArgType.layer ∷ ArgType.macro ∷ [])
    ∷ action (codes "layerm") Op.layerm (ArgType.layer ∷ ArgType.macro ∷ [])
    ∷ action (codes "oneshotm") Op.oneshotm (ArgType.layer ∷ ArgType.macro ∷ [])
    ∷ action (codes "layer") Op.layer (ArgType.layer ∷ [])
    ∷ action (codes "overload") Op.overload (ArgType.layer ∷ ArgType.descriptor ∷ [])
    ∷ action (codes "overloadt") Op.overload_timeout
        (ArgType.layer ∷ ArgType.descriptor ∷ ArgType.timeout ∷ [])
    ∷ action (codes "overloadt2") Op.overload_timeout_tap
        (ArgType.layer ∷ ArgType.descriptor ∷ ArgType.timeout ∷ [])
    ∷ action (codes "overloadi") Op.overload_idle_timeout
        (ArgType.descriptor ∷ ArgType.descriptor ∷ ArgType.timeout ∷ [])
    ∷ action (codes "timeout") Op.timeout
        (ArgType.descriptor ∷ ArgType.timeout ∷ ArgType.descriptor ∷ [])
    ∷ action (codes "macro2") Op.macro2 (ArgType.timeout ∷ ArgType.timeout ∷ ArgType.macro ∷ [])
    ∷ action (codes "setlayout") Op.layout (ArgType.layout ∷ [])
    ∷ action (codes "scrollt") Op.scroll_toggle (ArgType.sensitivity ∷ [])
    ∷ action (codes "scroll") Op.scroll (ArgType.sensitivity ∷ [])
    ∷ renamed (codes "overload2") (codes "overloadt") Op.overload_timeout
        (ArgType.layer ∷ ArgType.descriptor ∷ ArgType.timeout ∷ [])
    ∷ renamed (codes "overload3") (codes "overloadt2") Op.overload_timeout_tap
        (ArgType.layer ∷ ArgType.descriptor ∷ ArgType.timeout ∷ [])
    ∷ renamed (codes "toggle2") (codes "togglem") Op.togglem (ArgType.layer ∷ ArgType.macro ∷ [])
    ∷ renamed (codes "swap2") (codes "swapm") Op.swapm (ArgType.layer ∷ ArgType.macro ∷ [])
    ∷ []

-- The loop over the table.
unfoldable pub find_action : List ℕ → List Action → Option Action
unfolding str_eq
find_action fn [] = none
find_action fn (a ∷ more) =
    let rest = find_action fn more in if str_eq a.name fn then some a else rest
