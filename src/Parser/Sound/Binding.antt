-- ===== src/Parser/Sound/Binding.antt =====
-- src/config.c: set_layer_entry and config_add_entry keep what the configurations of the parser are
-- like.
use keyd_fork.Common.{
  ℕ, zero, suc, Bool, true, false, Option, none, some, List, [], ◌∷◌, ◌++◌, ltb, leb, ◌==◌,
  if◌then◌else◌, if_intro, length, modify, update, range, elem, Ensures, Ensures-bind, ok, done,
}
use keyd_fork.Text.CString.{str_eq}
use keyd_fork.Parser.Sound.Calls.{parse_descriptor-Left}
use keyd_fork.Parser.Index.{config_get_layer_index}
use keyd_fork.Ini.{parse_kvp}
use keyd_fork.Keys.Names.{lookup_keycode}
use keyd_fork.Parser.Entry.{
  set_key, split_layer, chord_keys, add_binding, config_add_entry, set_chord, parse_fuel,
  layer_lookup_chord, set_aliased, set_layer_entry,
}
use keyd_fork.Config.{Config, Descriptor, Layer, Chord}
use keyd_fork.Macro.{Env}
use keyd_fork.Text.CString.{tokens}
use keyd_fork.Parser.Sound.{Below, Sound, ChordsBelow, OnSome, Left}

-- The bindings of a layer refer to the descriptors before the `n`th.
abbrev pub LayerBelow : ℕ → Layer → Type 0
LayerBelow n layer = ((code : ℕ) → Below n (layer.keymap code)) × ChordsBelow n layer.chords

pub update_keymap :
    (n i : ℕ) (keymap : ℕ → Descriptor) (d : Descriptor)
    → Below n d
    → ((code : ℕ) → Below n (keymap code))
    → (code : ℕ) → Below n (update keymap i d code)
update_keymap n i keymap d b h code = if_intro (Below n) (i == code) b (h code)

-- A layer that is put in its place.
pub set_layer-Sound :
    (c : Config) (idx : ℕ) (layer : Layer)
    → Sound c
    → LayerBelow c.nr_descriptors layer
    → Sound (record c { layers = update c.layers idx layer })
set_layer-Sound c idx layer h b = record {
  playable = h.playable;
  nested = h.nested;
  keymaps = λ l code.
      if_intro {A = Layer} (λ x. Below c.nr_descriptors (x.keymap code)) (idx == l) (b.0 code)
        (h.keymaps l code);
  chords = λ l.
      if_intro {A = Layer} (λ x. ChordsBelow c.nr_descriptors x.chords) (idx == l) b.1 (h.chords l);
}

modify-ChordsBelow :
    (n i : ℕ) (cs : List Chord) (d : Descriptor)
    → Below n d
    → ChordsBelow n cs
    → ChordsBelow n (modify cs i (λ c. record c { d = d }))
modify-ChordsBelow n i [] d b h = tt
modify-ChordsBelow n zero (c ∷ cs) d b h = (b, h.1)
modify-ChordsBelow n (suc i) (c ∷ cs) d b h = (h.0, modify-ChordsBelow n i cs d b h.1)

append-ChordsBelow :
    (n : ℕ) (cs : List Chord) (c : Chord)
    → Below n c.d
    → ChordsBelow n cs
    → ChordsBelow n (cs ++ (c ∷ []))
append-ChordsBelow n [] c b h = (b, tt)
append-ChordsBelow n (x ∷ cs) c b h = (h.0, append-ChordsBelow n cs c b h.1)

set_chord-Below :
    (n : ℕ) (layer : Layer) (keys : List ℕ) (d : Descriptor)
    → Below n d
    → LayerBelow n layer
    → OnSome (LayerBelow n) (set_chord layer keys d)
unfolding set_chord
set_chord-Below n layer keys d b h = found (layer_lookup_chord layer keys)
  where
    found :
        (o : Option ℕ)
        → OnSome (LayerBelow n) (elim o [
          | some i ↦
              some (record layer { chords = modify layer.chords i (λ c. record c { d = d }) })
          | none ↦
              if ltb (length layer.chords) 64
              then some
                  (record layer { chords = layer.chords ++ (record { keys = keys; d = d } ∷ []) })
              else none
        ])
    found (some i) = (h.0, modify-ChordsBelow n i layer.chords d b h.1)
    found none =
        if_intro (OnSome (LayerBelow n)) (ltb (length layer.chords) 64)
          (h.0, append-ChordsBelow n layer.chords (record { keys = keys; d = d }) b h.1) tt

set_aliased-Below :
    (n : ℕ) (aliases : ℕ → List ℕ) (key : List ℕ) (d : Descriptor) (is : List ℕ)
    (r : (ℕ → Descriptor) × Bool)
    → Below n d
    → ((code : ℕ) → Below n (r.0 code))
    → (code : ℕ) → Below n ((set_aliased aliases key d is r).0 code)
unfolding set_aliased
set_aliased-Below n aliases key d [] r b h = h
set_aliased-Below n aliases key d (i ∷ is) (keymap, found) b h =
    set_aliased-Below n aliases key d is _ b (
      if_intro {A = (ℕ → Descriptor) × Bool} (λ x. (code : ℕ) → Below n (x.0 code))
        (str_eq (aliases i) key) (update_keymap n i keymap d b h) h)

set_key-Below :
    (n : ℕ) (c : Config) (layer : Layer) (key : List ℕ) (d : Descriptor)
    → Below n d
    → LayerBelow n layer
    → OnSome (LayerBelow n) (set_key c layer key d)
unfolding set_key
set_key-Below n c layer key d b h =
    let keymap = (set_aliased c.aliases key d (range 256) (layer.keymap, false)).0 in
    let aliased : LayerBelow n (record layer { keymap = keymap }) =
      (set_aliased-Below n c.aliases key d (range 256) (layer.keymap, false) b h.0, h.1) in
    let code = lookup_keycode key in
    let bound : LayerBelow n (record layer { keymap = update layer.keymap code d }) =
      (update_keymap n code layer.keymap d b h.0, h.1) in
    if_intro (OnSome (LayerBelow n))
      (set_aliased c.aliases key d (range 256) (layer.keymap, false)).1 aliased
      (if_intro (OnSome (LayerBelow n)) (code == 0) tt bound)

set_layer_entry-Below :
    (n : ℕ) (c : Config) (layer : Layer) (key : List ℕ) (d : Descriptor)
    → Below n d
    → LayerBelow n layer
    → OnSome (LayerBelow n) (set_layer_entry c layer key d)
unfolding set_layer_entry
set_layer_entry-Below n c layer key d b h =
    if_intro (OnSome (LayerBelow n)) (elem 43 key) (keys (chord_keys [] (tokens 43 key)))
      (set_key-Below n c layer key d b h)
  where
    keys :
        (o : Option (List ℕ))
        → OnSome (LayerBelow n) (elim o [ none ↦ none | some ks ↦ set_chord layer ks d ])
    keys none = tt
    keys (some ks) = set_chord-Below n layer ks d b h

module _ (env : Env) (junk : Descriptor) where
  add_binding-Sound :
      (c : Config) (idx : ℕ) (key : List ℕ) (val : Option (List ℕ))
      → Sound c
      → Ensures (λ r. Sound r.1) (add_binding env junk c idx key val)
  unfolding add_binding
  add_binding-Sound c idx key val h =
      Ensures-bind _ (parse_descriptor-Left env parse_fuel junk val c h) bound
    where
      placed :
          (c' : Config)
          → Sound c'
          → (o : Option Layer) → OnSome (LayerBelow c'.nr_descriptors) o
          → Ensures
              (λ (r : Bool × Config). Sound r.1)
              (elim o [
                | none ↦ ok (false, c')
                | some layer ↦ ok (true, record c' { layers = update c'.layers idx layer })
              ])
      placed c' h' none b = done h'
      placed c' h' (some layer) b = done (set_layer-Sound c' idx layer h' b)

      bound :
          (r : Option Descriptor × Config)
          → Left c.nr_descriptors Below r
          → Ensures
              (λ (r : Bool × Config). Sound r.1)
              (elim r.0 [
                | none ↦ ok (false, r.1)
                | some d ↦ elim (set_layer_entry r.1 (r.1.layers idx) key d) [
                  | none ↦ ok (false, r.1)
                  | some layer ↦ ok (true, record r.1 { layers = update r.1.layers idx layer })
                ]
              ])
      bound (none, c') x = done x.0
      bound (some d, c') x = placed c' x.0 _ (
          set_layer_entry-Below c'.nr_descriptors c' (c'.layers idx) key d x.2
            ((λ code. x.0.keymaps idx code), x.0.chords idx))

  pub config_add_entry-Ensures :
      (c : Config) (exp : List ℕ)
      → Sound c
      → Ensures (λ r. Sound r.1) (config_add_entry env junk c exp)
  unfolding config_add_entry
  config_add_entry-Ensures c exp h = short (leb 512 (length exp))
    where
      layer :
          (key : List ℕ) (val : Option (List ℕ)) (o : Option ℕ)
          → Ensures
              (λ (r : Bool × Config). Sound r.1)
              (elim o [ none ↦ ok (false, c) | some idx ↦ add_binding env junk c idx key val ])
      layer key val none = done h
      layer key val (some idx) = add_binding-Sound c idx key val h

      short :
          (b : Bool)
          → Ensures
              (λ (r : Bool × Config). Sound r.1)
              (elim b [
                | true ↦ ok (false, c)
                | false ↦
                    let (layername, s) = split_layer exp in
                    let (key, val) = parse_kvp s in
                    elim (config_get_layer_index c (some layername)) [
                      | none ↦ ok (false, c)
                      | some idx ↦ add_binding env junk c idx key val
                    ]
              ])
      short true = done h
      short false =
          layer (parse_kvp (split_layer exp).1).0 (parse_kvp (split_layer exp).1).1
            (config_get_layer_index c (some (split_layer exp).0))
