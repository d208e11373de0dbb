-- ===== src/Parser/Sound/Sections.antt =====
-- src/config.c: config_add_layer, the sections and config_parse_string keep what the configurations
-- of the parser are like.
use keyd_fork.Common.{
  ℕ, suc, ◌≡◌, refl, ◌||◌, Option, none, some, List, [], ◌∷◌, ltb, leb, ◌==◌, if◌then◌else◌,
  if_intro, length, get_elem?, update, elem, Result, ◌>>=◌, Ensures, Ensures-bind, ok, aborted,
  out_of_fuel, null_pointer, done, aborts, starves,
}
use keyd_fork.Parser.Sound.Table.{quiet_Below}
use keyd_fork.Parser.Index.{id_mouse, id_excluded, id_keyboard, config_get_layer_index}
use keyd_fork.Keys.Names.{lookup_keycode, parse_modset}
use keyd_fork.Parser.Sound.Binding.{update_keymap, LayerBelow, set_layer-Sound}
use keyd_fork.Parser.Sections.{
  parse_alias, parse_id_section, parse_global, set_option, add_id, set_number, parse_alias_section,
  alias_key, set_alias, parse_id, parse_global_section, atoi_positive, number_options, is_one_of,
  other_options,
}
use keyd_fork.Config.{Config, Descriptor, Layer, Op, LayerType}
use keyd_fork.Ini.Parse.{Entry}
use keyd_fork.Text.CString.{codes, str_eq, has_prefix, tokens}
use keyd_fork.Parser.Sound.{Sound, OnSome}
use keyd_fork.Parser.Layers.{
  composite_layer, plain_layer, new_layer, config_add_layer, add_constituents, has_type, Added,
}

-- Only the fields that Sound reads matter.
pub same_arrays :
    (c c' : Config)
    → c'.macros ≡ c.macros
    → c'.descriptors ≡ c.descriptors
    → c'.layers ≡ c.layers
    → c'.nr_descriptors ≡ c.nr_descriptors
    → Sound c
    → Sound c'
same_arrays c c' m d l n h = record {
  playable = λ i. rw m (h.playable i);
  nested = λ i. rw d (h.nested i);
  keymaps = λ i q. rw (l, n) (h.keymaps i q);
  chords = λ i. rw (l, n) (h.chords i);
}

new_layer-Below :
    (n : ℕ) (names : List (List ℕ)) (c : Config) (layer : Layer)
    → LayerBelow n layer
    → Ensures (OnSome (LayerBelow n)) (new_layer names c layer)
unfolding new_layer composite_layer plain_layer ◌>>=◌
new_layer-Below n [] c layer h = aborts
new_layer-Below n (name ∷ more) c layer h =
    if_intro (Ensures (OnSome (LayerBelow n))) (elem 43 name)
      (if_intro (Ensures (OnSome (LayerBelow n))) (has_type (get_elem? more 0)) (done tt)
        (composite (add_constituents c [] (tokens 43 name))))
      (done (plain (get_elem? more 0)))
  where
    composite :
        (r : Result (Option (List ℕ)))
        → Ensures (OnSome (LayerBelow n)) (
            r >>= (λ r. elim r [
              | none ↦ ok none
              | some is ↦ ok (
                  some (record layer {
                    name = name;
                    chords = [];
                    type = LayerType.composite;
                    constituents = is;
                  }))
            ]))
    composite (ok none) = done tt
    composite (ok (some is)) = done (h.0, tt)
    composite (aborted e) = aborts
    composite out_of_fuel = starves

    modset :
        (o : Option ℕ)
        → LayerBelow n (elim o [
          | none ↦ record layer { name = name; chords = []; type = LayerType.normal; mods = 0 }
          | some m ↦ record layer { name = name; chords = []; type = LayerType.normal; mods = m }
        ])
    modset none = (h.0, tt)
    modset (some m) = (h.0, tt)

    plain :
        (o : Option (List ℕ))
        → LayerBelow n (plain_layer o (record layer { name = name; chords = [] }))
    plain none = (h.0, tt)
    plain (some t) =
        if_intro (LayerBelow n) (str_eq t (codes "layout")) (h.0, tt) (modset (parse_modset t))

pub config_add_layer-Ensures :
    (c : Config) (s : List ℕ) → Sound c → Ensures (λ r. Sound r.1) (config_add_layer c s)
unfolding config_add_layer ◌>>=◌
config_add_layer-Ensures c s h =
    if_intro (Ensures (λ r. Sound r.1)) (leb 65 (length s)) (done h)
      (known (config_get_layer_index c (get_elem? (tokens 58 s) 0)))
  where
    added :
        (r : Result (Option Layer))
        → Ensures (OnSome (LayerBelow c.nr_descriptors)) r
        → Ensures
            (λ (r : Added × Config). Sound r.1)
            (r >>= (λ r. elim r [
              | none ↦ ok (Added.rejected, c)
              | some layer ↦ ok (
                Added.created,
                record c {
                  layers = update c.layers c.nr_layers layer;
                  nr_layers = suc c.nr_layers;
                },
              )
            ]))
    added (ok none) x = done h
    added (ok (some layer)) (done x) = done (
        same_arrays (record c { layers = update c.layers c.nr_layers layer }) _ refl refl refl refl
          (set_layer-Sound c c.nr_layers layer h x))
    added (aborted e) x = aborts
    added out_of_fuel x = starves

    known :
        (o : Option ℕ)
        → Ensures
            (λ (r : Added × Config). Sound r.1)
            (elim o [
              | some _ ↦ ok (Added.existed, c)
              | none ↦
                  if leb 32 c.nr_layers
                  then ok (Added.rejected, c)
                  else (new_layer (tokens 58 s) c (c.layers c.nr_layers) >>= (λ r. elim r [
                    | none ↦ ok (Added.rejected, c)
                    | some layer ↦ ok (
                      Added.created,
                      record c {
                        layers = update c.layers c.nr_layers layer;
                        nr_layers = suc c.nr_layers;
                      },
                    )
                  ]))
            ])
    known (some _) = done h
    known none =
        if_intro (Ensures (λ (r : Added × Config). Sound r.1)) (leb 32 c.nr_layers) (done h) (
          added (new_layer (tokens 58 s) c (c.layers c.nr_layers)) (
            new_layer-Below c.nr_descriptors (tokens 58 s) c (c.layers c.nr_layers)
              ((λ q. h.keymaps c.nr_layers q), h.chords c.nr_layers)))

add_id-Ensures :
    (c : Config) (id : List ℕ) (flags : ℕ) → Sound c → Ensures Sound (add_id c id flags)
unfolding add_id
add_id-Ensures c id flags h =
    if_intro (Ensures Sound) (ltb (length c.ids) 64) (done (same_arrays c _ refl refl refl refl h))
      aborts

parse_id-Ensures : (c : Config) (s : List ℕ) → Sound c → Ensures Sound (parse_id c s)
unfolding parse_id
parse_id-Ensures c s h =
    if_intro (Ensures Sound) (str_eq s (42 ∷ [])) (done (same_arrays c _ refl refl refl refl h)) (
      if_intro (Ensures Sound) (has_prefix (codes "m:") s) (add_id-Ensures c _ id_mouse h) (
        if_intro (Ensures Sound) (has_prefix (codes "k:") s) (add_id-Ensures c _ id_keyboard h) (
          if_intro (Ensures Sound) (has_prefix (45 ∷ []) s) (add_id-Ensures c _ id_excluded h)
            (if_intro (Ensures Sound) (ltb (length s) 63) (add_id-Ensures c s _ h) (done h)))))

pub parse_id_section-Ensures :
    (c : Config) (es : List Entry) → Sound c → Ensures Sound (parse_id_section c es)
unfolding parse_id_section
parse_id_section-Ensures c [] h = done h
parse_id_section-Ensures c (e ∷ es) h =
    Ensures-bind _ (parse_id-Ensures c e.key h) (λ c' h'. parse_id_section-Ensures c' es h')

set_number-Sound : (c : Config) (key : List ℕ) (n : ℕ) → Sound c → Sound (set_number c key n)
unfolding set_number
set_number-Sound c key n h =
    if_intro Sound (str_eq key (codes "macro_timeout"))
      (same_arrays c (record c { macro_timeout = n }) refl refl refl refl h)
      (if_intro Sound (str_eq key (codes "macro_sequence_timeout"))
        (same_arrays c (record c { macro_sequence_timeout = n }) refl refl refl refl h)
        (if_intro Sound (str_eq key (codes "oneshot_timeout"))
          (same_arrays c (record c { oneshot_timeout = n }) refl refl refl refl h)
          (if_intro Sound (str_eq key (codes "chord_hold_timeout"))
            (same_arrays c (record c { chord_hold_timeout = n }) refl refl refl refl h)
            (if_intro Sound (str_eq key (codes "chord_timeout"))
              (same_arrays c (record c { chord_interkey_timeout = n }) refl refl refl refl h)
              (if_intro Sound (str_eq key (codes "macro_repeat_timeout"))
                (same_arrays c (record c { macro_repeat_timeout = n }) refl refl refl refl h)
                (if_intro Sound (str_eq key (codes "overload_tap_timeout"))
                  (same_arrays c (record c { overload_tap_timeout = n }) refl refl refl refl h)
                  h))))))

set_option-Ensures :
    (c : Config) (key val : List ℕ) → Sound c → Ensures Sound (set_option c key val)
unfolding set_option atoi_positive ◌>>=◌
set_option-Ensures c key val h =
    if_intro (Ensures Sound) (is_one_of key number_options) (number (atoi_positive val)) (
      if_intro (Ensures Sound) (str_eq key (codes "disable_modifier_guard"))
        (done (same_arrays c _ refl refl refl refl h))
        (if_intro (Ensures Sound) (str_eq key (codes "default_layout"))
          (done (same_arrays c _ refl refl refl refl h))
          (if_intro (Ensures Sound) (str_eq key (codes "layer_indicator"))
            (done (same_arrays c _ refl refl refl refl h)) (done h))))
  where
    number : (r : Result ℕ) → Ensures Sound (r >>= (λ n. ok (set_number c key n)))
    number (ok n) = done (set_number-Sound c key n h)
    number (aborted e) = aborts
    number out_of_fuel = starves

parse_global-Ensures : (c : Config) (e : Entry) → Sound c → Ensures Sound (parse_global c e)
unfolding parse_global
parse_global-Ensures c e h = value e.val
  where
    value :
        (o : Option (List ℕ))
        → Ensures Sound (elim o [
          | some val ↦ set_option c e.key val
          | none ↦
              if is_one_of e.key number_options || is_one_of e.key other_options
              then aborted null_pointer
              else ok c
        ])
    value (some val) = set_option-Ensures c e.key val h
    value none =
        if_intro (Ensures Sound) (is_one_of e.key number_options || is_one_of e.key other_options)
          aborts (done h)

pub parse_global_section-Ensures :
    (c : Config) (es : List Entry) → Sound c → Ensures Sound (parse_global_section c es)
unfolding parse_global_section
parse_global_section-Ensures c [] h = done h
parse_global_section-Ensures c (e ∷ es) h =
    Ensures-bind _ (parse_global-Ensures c e h) (λ c' h'. parse_global_section-Ensures c' es h')

alias_key-Below :
    (n : ℕ) (layer : Layer) (code alias_code : ℕ)
    → LayerBelow n layer
    → LayerBelow n (alias_key layer code alias_code)
unfolding alias_key
alias_key-Below n layer code alias_code h =
    let d : Descriptor = record (layer.keymap code) {
      op = Op.keysequence;
      arg0 = alias_code;
      arg1 = 0;
    } in
    let aliased : LayerBelow n (record layer { keymap = update layer.keymap code d }) =
      (update_keymap n code layer.keymap d (quiet_Below n d refl) h.0, h.1) in
    if_intro (LayerBelow n) (alias_code == 0) h aliased

set_alias-Sound : (c : Config) (code : ℕ) (name : List ℕ) → Sound c → Sound (set_alias c code name)
unfolding set_alias
set_alias-Sound c code name h =
    let layer = alias_key (c.layers 0) code (lookup_keycode name) in
    let placed = set_layer-Sound c 0 layer h (
      alias_key-Below c.nr_descriptors (c.layers 0) code (lookup_keycode name)
        ((λ q. h.keymaps 0 q), h.chords 0)) in
    if_intro Sound (leb 32 (length name)) h
      (same_arrays (record c { layers = update c.layers 0 layer }) _ refl refl refl refl placed)

parse_alias-Ensures : (c : Config) (e : Entry) → Sound c → Ensures Sound (parse_alias c e)
unfolding parse_alias
parse_alias-Ensures c e h =
    if_intro (Ensures Sound) (lookup_keycode e.key == 0) (done h) (value e.val)
  where
    value :
        (o : Option (List ℕ))
        → Ensures Sound (elim o [
          | none ↦ aborted null_pointer
          | some name ↦ ok (set_alias c (lookup_keycode e.key) name)
        ])
    value none = aborts
    value (some name) = done (set_alias-Sound c (lookup_keycode e.key) name h)

pub parse_alias_section-Ensures :
    (c : Config) (es : List Entry) → Sound c → Ensures Sound (parse_alias_section c es)
unfolding parse_alias_section
parse_alias_section-Ensures c [] h = done h
parse_alias_section-Ensures c (e ∷ es) h =
    Ensures-bind _ (parse_alias-Ensures c e h) (λ c' h'. parse_alias_section-Ensures c' es h')
