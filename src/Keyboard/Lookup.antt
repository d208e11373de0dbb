-- ===== src/Keyboard/Lookup.antt =====
-- src/keyboard.c, lookup_descriptor: what a key means under the active layers.
pub mod Precedence
pub mod Resolution
use keyd_fork.Common.{
  ℕ, ◌-◌, Bool, true, not, ◌&&◌, none, some, List, [], ◌∷◌, ltb, leb, ◌==◌, if◌then◌else◌, length,
  get_elem?, range,
}
use keyd_fork.Config.{Op, Descriptor, Config, is_set, is_composite, unset_descriptor}
use keyd_fork.Keys.{keyd_chord_1, keyd_chord_max}
use keyd_fork.Keyboard.State.{LayerState, Keyboard}

-- The out parameters of `lookup_descriptor`, and the running maximum of a scan.
pub record Found : Type 0 where
  pub d : Descriptor
  pub dl : ℕ
  pub best : ℕ

pub is_active : (ℕ → LayerState) → ℕ → Bool
is_active states i = not ((states i).active == 0)

-- The body of the first loop.
unfoldable pub scan_layer : Config → (ℕ → LayerState) → ℕ → Found → ℕ → Found
unfolding is_active
scan_layer config states code f i =
    if is_active states i
      && is_set ((config.layers i).keymap code).op
      && leb f.best (states i).activation_time
    then record { d = (config.layers i).keymap code; dl = i; best = (states i).activation_time }
    else f

-- The first loop, over the layers of a list: the latest activation wins, the last one of a tie.
unfoldable pub scan_layers : Config → (ℕ → LayerState) → ℕ → Found → List ℕ → Found
scan_layers config states code f [] = f
scan_layers config states code f (i ∷ is) =
    scan_layers config states code (scan_layer config states code f i) is

pub all_active : (ℕ → LayerState) → List ℕ → Bool
unfolding is_active
all_active states [] = true
all_active states (i ∷ is) = is_active states i && all_active states is

-- The body of the second loop.
unfoldable pub scan_composite : Config → (ℕ → LayerState) → ℕ → Found → ℕ → Found
unfolding all_active
scan_composite config states code f i =
    let layer = config.layers i in
    if is_composite layer.type
      && all_active states layer.constituents
      && is_set (layer.keymap code).op
      && ltb f.best (length layer.constituents)
    then record { d = layer.keymap code; dl = i; best = length layer.constituents }
    else f

-- The second loop: of the composite layers whose constituents are all active, the first of those
-- with the most constituents.
unfoldable pub scan_composites : Config → (ℕ → LayerState) → ℕ → Found → List ℕ → Found
scan_composites config states code f [] = f
scan_composites config states code f (i ∷ is) =
    scan_composites config states code (scan_composite config states code f i) is

-- `code` itself, where no layer binds it.
unfoldable pub or_default : ℕ → Found → Descriptor × ℕ
or_default code f =
    if is_set f.d.op
    then (f.d, f.dl)
    else (record { op = Op.keysequence; arg0 = code; arg1 = 0; arg2 = f.d.arg2 }, 0)

unfoldable pub lookup_layers : Config → (ℕ → LayerState) → ℕ → Descriptor × ℕ
unfolding or_default
lookup_layers config states code =
    let start : Found = record { d = unset_descriptor; dl = 0; best = 0 } in
    let f = scan_layers config states code start (range config.nr_layers) in
    or_default code
      (scan_composites config states code (record f { best = 0 }) (range config.nr_layers))

-- A chord code stands for the chord held in that slot of `active_chords`.
unfoldable pub lookup_descriptor : Keyboard → ℕ → Descriptor × ℕ
unfolding lookup_layers
lookup_descriptor kbd code =
    if leb keyd_chord_1 code && leb code keyd_chord_max
    then (elim (get_elem? kbd.active_chords (code - keyd_chord_1)) [
      | none ↦ (unset_descriptor, 0)
      | some ac ↦ (ac.chord.d, ac.layer)
    ])
    else lookup_layers kbd.config kbd.layer_state code
