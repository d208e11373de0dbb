-- ===== src/Parser/Index.antt =====
-- src/config.c: config_get_layer_index and config_check_match.
pub mod Match
use keyd_fork.Common.{
  ℕ, bit_and, Bool, not, Option, none, some, List, [], ◌∷◌, ◌==◌, if◌then◌else◌, range,
}
use keyd_fork.Text.CString.{has_prefix, str_eq}
use keyd_fork.Config.{Config, DeviceId}

-- The loop over the layers: the first one with the name.
unfoldable pub find_layer : Config → List ℕ → List ℕ → Option ℕ
unfolding str_eq
find_layer config name [] = none
find_layer config name (i ∷ is) =
    let rest = find_layer config name is in
    if str_eq (config.layers i).name name then some i else rest

-- `none` is the name NULL, and the result -1.
unfoldable pub config_get_layer_index : Config → Option (List ℕ) → Option ℕ
unfolding find_layer
config_get_layer_index config none = none
config_get_layer_index config (some name) = find_layer config name (range config.nr_layers)

abbrev pub id_excluded : ℕ
id_excluded = 1

abbrev pub id_mouse : ℕ
id_mouse = 2

abbrev pub id_keyboard : ℕ
id_keyboard = 4

-- The loop over the ids, and what follows it.
unfoldable pub match_ids : Bool → List ℕ → ℕ → List DeviceId → ℕ
unfolding has_prefix
match_ids wildcard id flags [] = if wildcard then 1 else 0
match_ids wildcard id flags (d ∷ ds) =
    let rest = match_ids wildcard id flags ds in
    if has_prefix d.id id
    then (if not (bit_and d.flags id_excluded == 0)
        then 0
        else if not (bit_and d.flags flags == 0)
        then 2
        else rest)
    else rest

unfoldable pub config_check_match : Config → List ℕ → ℕ → ℕ
unfolding match_ids
config_check_match config id flags = match_ids config.wildcard id flags config.ids
