-- ===== src/Parser/Layers.antt =====
-- src/config.c: new_layer and config_add_layer.
use keyd_fork.Common.{
  ℕ, suc, Bool, true, false, Option, none, some, List, [], ◌∷◌, ◌++◌, ltb, leb, if◌then◌else◌,
  length, get_elem?, update, elem, Result, ◌>>=◌, ok, aborted, null_pointer, out_of_bounds,
}
use keyd_fork.Keys.Names.{parse_modset}
use keyd_fork.Parser.Index.{config_get_layer_index}
use keyd_fork.Text.CString.{codes, tokens, str_eq}
use keyd_fork.Config.{Config, LayerType, Layer}

-- The loop over the constituents. The counter that its guard tests stays 0, so the ninth one is
-- written past the array.
unfoldable pub add_constituents : Config → List ℕ → List (List ℕ) → Result (Option (List ℕ))
add_constituents config found [] = ok (some found)
add_constituents config found (n ∷ ns) = elim (config_get_layer_index config (some n)) [
  | none ↦ ok none
  | some i ↦ elim (ltb (length found) 8) [
    | false ↦ aborted out_of_bounds
    | true ↦ add_constituents config (found ++ (i ∷ [])) ns
  ]
]

-- The layer of a name with `+`, whose `nr_constituents` counts what was stored.
unfoldable pub composite_layer : Config → List ℕ → Bool → Layer → Result (Option Layer)
unfolding add_constituents
composite_layer config name typed layer =
    if typed
    then ok none
    else (add_constituents config [] (tokens 43 name) >>= (λ r. elim r [
      | none ↦ ok none
      | some is ↦ ok (some (record layer { type = LayerType.composite; constituents = is }))
    ]))

-- The layer of any other name.
unfoldable pub plain_layer : Option (List ℕ) → Layer → Layer
plain_layer none layer = record layer { type = LayerType.normal; mods = 0 }
plain_layer (some type) layer =
    if str_eq type (codes "layout")
    then record layer { type = LayerType.layout }
    else (elim (parse_modset type) [
      | none ↦ record layer { type = LayerType.normal; mods = 0 }
      | some mods ↦ record layer { type = LayerType.normal; mods = mods }
    ])

abbrev pub has_type : Option (List ℕ) → Bool
has_type none = false
has_type (some _) = true

-- The name and the type; `strcpy` reads the name.
unfoldable pub new_layer : List (List ℕ) → Config → Layer → Result (Option Layer)
unfolding composite_layer plain_layer
new_layer [] config layer = aborted null_pointer
new_layer (name ∷ more) config layer =
    let layer' = record layer { name = name; chords = [] } in
    let type = get_elem? more 0 in
    if elem 43 name
    then composite_layer config name (has_type type) layer'
    else ok (some (plain_layer type layer'))

-- The results 1, 0 and -1.
pub data Added : Type 0 where
  existed created rejected : Added

-- A layer that new_layer leaves behind in error is not counted, and is written again before it is.
unfoldable pub config_add_layer : Config → List ℕ → Result (Added × Config)
unfolding new_layer
config_add_layer config s =
    if leb 65 (length s)
    then ok (Added.rejected, config)
    else (elim (config_get_layer_index config (get_elem? (tokens 58 s) 0)) [
      | some _ ↦ ok (Added.existed, config)
      | none ↦
          if leb 32 config.nr_layers
          then ok (Added.rejected, config)
          else (new_layer (tokens 58 s) config (config.layers config.nr_layers) >>= (λ r. elim r [
            | none ↦ ok (Added.rejected, config)
            | some layer ↦ ok (
              Added.created,
              record config {
                layers = update config.layers config.nr_layers layer;
                nr_layers = suc config.nr_layers;
              },
            )
          ]))
    ])
