-- ===== src/Config.antt =====
-- src/config.h and src/macro.h: the data of a parsed configuration.
use keyd_fork.Common.{ℕ, Bool, true, false, List}

-- `enum op`; `unset` is the zero value, which no constant of the enum has.
pub data Op : Type 0 where
  unset : Op
  keysequence : Op
  oneshot oneshotm layerm swap swapm layer layout clear clearm overload : Op
  overload_timeout overload_timeout_tap overload_idle_timeout toggle togglem : Op
  macro macro2 command timeout : Op
  scroll_toggle scroll : Op

-- `struct descriptor`. Each argument is the number held by the union's field that the operation
-- uses.
pub record Descriptor : Type 0 where
  pub op : Op
  pub arg0 : ℕ
  pub arg1 : ℕ
  pub arg2 : ℕ

-- `keys[8]` up to `sz`.
pub record Chord : Type 0 where
  pub keys : List ℕ
  pub d : Descriptor

pub data LayerType : Type 0 where
  normal layout composite : LayerType

-- `chords[64]` up to `nr_chords`, `constituents[8]` up to `nr_constituents`; `keymap[256]` is a
-- function of the key code.
pub record Layer : Type 0 where
  pub name : List ℕ
  pub type : LayerType
  pub mods : ℕ
  pub keymap : ℕ → Descriptor
  pub chords : List Chord
  pub constituents : List ℕ

pub data MacroType : Type 0 where
  keysequence hold release unicode timeout : MacroType

pub record MacroEntry : Type 0 where
  pub type : MacroType
  pub data' : ℕ

-- `entries[64]` up to `sz`.
abbrev pub Macro : Type 0
Macro = List MacroEntry

-- An entry of `ids`.
pub record DeviceId : Type 0 where
  pub id : List ℕ
  pub flags : ℕ

-- The arrays of layers, descriptors, macros, commands and aliases are functions of the
-- index; `ids` is the array up to `nr_ids`.
pub record Config : Type 0 where
  pub layers : ℕ → Layer
  pub descriptors : ℕ → Descriptor
  pub macros : ℕ → Macro
  pub commands : ℕ → List ℕ
  pub aliases : ℕ → List ℕ
  pub wildcard : Bool
  pub ids : List DeviceId
  pub nr_layers : ℕ
  pub nr_macros : ℕ
  pub nr_descriptors : ℕ
  pub nr_commands : ℕ
  pub macro_timeout : ℕ
  pub macro_sequence_timeout : ℕ
  pub macro_repeat_timeout : ℕ
  pub oneshot_timeout : ℕ
  pub overload_tap_timeout : ℕ
  pub chord_interkey_timeout : ℕ
  pub chord_hold_timeout : ℕ
  pub layer_indicator : ℕ
  pub disable_modifier_guard : Bool
  pub default_layout : List ℕ

abbrev pub unset_descriptor : Descriptor
unset_descriptor = record { op = Op.unset; arg0 = 0; arg1 = 0; arg2 = 0 }

abbrev pub is_set : Op → Bool
is_set Op.unset = false
is_set _ = true

abbrev pub is_composite : LayerType → Bool
is_composite LayerType.composite = true
is_composite _ = false

abbrev pub is_layout : LayerType → Bool
is_layout LayerType.layout = true
is_layout _ = false

abbrev pub is_normal : LayerType → Bool
is_normal LayerType.normal = true
is_normal _ = false
