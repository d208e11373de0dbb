-- ===== src/Keyboard/State.antt =====
-- src/keyboard.h: the state of a keyboard, and changes to one field of it.
use keyd_fork.Common.{ℕ, Bool, Option, List, ◌∷◌, update}
use keyd_fork.Config.{Descriptor, Chord, Config}
use keyd_fork.Output.{Output, log}

pub record CacheEntry : Type 0 where
  pub code : ℕ
  pub d : Descriptor
  pub dl : ℕ
  pub layer : ℕ

pub record KeyEvent : Type 0 where
  pub code : ℕ
  pub pressed : Bool
  pub timestamp : ℕ

pub record ActiveChord : Type 0 where
  pub active : Bool
  pub chord : Chord
  pub layer : ℕ

pub data ChordState : Type 0 where
  resolving inactive pending_disambiguation pending_hold_timeout : ChordState

-- A pointer to `layers[layer].chords[index]`.
pub record ChordRef : Type 0 where
  pub layer : ℕ
  pub index : ℕ

-- The field `chord`; the queue holds `queue_sz` events.
pub record ChordQueue : Type 0 where
  pub queue : List KeyEvent
  pub match : Option ChordRef
  pub match_layer : ℕ
  pub start_code : ℕ
  pub last_code_time : ℕ
  pub state : ChordState

pub data Behaviour : Type 0 where
  interrupt_action1 interrupt_action2 uninterruptible uninterruptible_tap_action2 : Behaviour

-- The field `pending_key`; nothing is pending where `code` is 0.
pub record PendingKey : Type 0 where
  pub code : ℕ
  pub dl : ℕ
  pub expire : ℕ
  pub tap_expiry : ℕ
  pub behaviour : Behaviour
  pub queue : List KeyEvent
  pub action1 : Descriptor
  pub action2 : Descriptor

pub record LayerState : Type 0 where
  pub activation_time : ℕ
  pub active : ℕ
  pub toggled : Bool
  pub oneshot_depth : ℕ

pub record Scroll : Type 0 where
  pub sensitivity : ℕ
  pub active : Bool

-- `cache` has CACHE_SIZE entries and `active_chords` three. `active_macro` is an index into
-- `config.macros`. `out` is what went out through `output`, newest first, and `clock` the static
-- counter of `get_time`.
pub record Keyboard : Type 0 where
  pub original_config : Config
  pub config : Config
  pub out : List Output
  pub clock : ℕ
  pub cache : List CacheEntry
  pub last_pressed_output_code : ℕ
  pub last_pressed_code : ℕ
  pub oneshot_latch : Bool
  pub inhibit_modifier_guard : Bool
  pub active_macro : Option ℕ
  pub active_macro_layer : ℕ
  pub macro_timeout : ℕ
  pub oneshot_timeout : ℕ
  pub macro_repeat_interval : ℕ
  pub overload_start_time : ℕ
  pub last_simple_key_time : ℕ
  pub timeouts : List ℕ
  pub active_chords : List ActiveChord
  pub chord : ChordQueue
  pub pending_key : PendingKey
  pub layer_state : ℕ → LayerState
  pub keystate : ℕ → Bool
  pub scroll : Scroll

abbrev pub cache_size : ℕ
cache_size = 16

abbrev pub put : Keyboard → Output → Keyboard
put kbd e = record kbd { out = e ∷ kbd.out }

-- Several outputs in order.
abbrev pub put_all : Keyboard → List Output → Keyboard
put_all kbd es = record kbd { out = log es kbd.out }

abbrev pub set_layer_state : Keyboard → ℕ → LayerState → Keyboard
set_layer_state kbd i s = record kbd { layer_state = update kbd.layer_state i s }

abbrev pub set_active : LayerState → ℕ → LayerState
set_active s n = record s { active = n }

abbrev pub set_toggled : LayerState → Bool → LayerState
set_toggled s b = record s { toggled = b }

abbrev pub set_oneshot_depth : LayerState → ℕ → LayerState
set_oneshot_depth s n = record s { oneshot_depth = n }
