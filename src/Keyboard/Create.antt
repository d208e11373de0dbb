-- ===== src/Keyboard/Create.antt =====
-- src/keyboard.c, new_keyboard.
use keyd_fork.Common.{
  ℕ, Bool, true, false, ◌&&◌, Option, none, some, List, [], ◌∷◌, ◌==◌, if◌then◌else◌, replicate,
  update, range,
}
use keyd_fork.Config.{Config, is_layout, unset_descriptor}
use keyd_fork.Keyboard.State.{
  CacheEntry, ActiveChord, ChordState, ChordQueue, Behaviour, PendingKey, LayerState, Keyboard,
  cache_size,
}

pub equal_names : List ℕ → List ℕ → Bool
equal_names [] [] = true
equal_names (x ∷ xs) (y ∷ ys) = x == y && equal_names xs ys
equal_names _ _ = false

-- The loop over the layers: the first layout with the name.
find_layout : Config → List ℕ → Option ℕ
unfolding equal_names
find_layout config [] = none
find_layout config (i ∷ is) =
    let rest = find_layout config is in
    if is_layout (config.layers i).type && equal_names (config.layers i).name config.default_layout
    then some i
    else rest

default_layout : Config → Option ℕ
unfolding find_layout
default_layout config = elim config.default_layout [
  | [] ↦ none
  | _ ∷ _ ↦ find_layout config (range config.nr_layers)
]

-- The zeroed memory of `calloc`, part by part.
abbrev pub empty_entry : CacheEntry
empty_entry = record { code = 0; d = unset_descriptor; dl = 0; layer = 0 }

abbrev empty_chord : ActiveChord
empty_chord = record {
  active = false;
  chord = record { keys = []; d = unset_descriptor };
  layer = 0;
}

abbrev pub off : LayerState
off = record { activation_time = 0; active = 0; toggled = false; oneshot_depth = 0 }

abbrev empty_queue : ChordQueue
empty_queue = record {
  queue = [];
  match = none;
  match_layer = 0;
  start_code = 0;
  last_code_time = 0;
  state = ChordState.inactive;
}

abbrev empty_pending : PendingKey
empty_pending = record {
  code = 0;
  dl = 0;
  expire = 0;
  tap_expiry = 0;
  behaviour = Behaviour.interrupt_action1;
  queue = [];
  action1 = unset_descriptor;
  action2 = unset_descriptor;
}

-- Layer 0 is on, and the default layout if there is one.
initial_states : Option ℕ → ℕ → LayerState
initial_states none = update (λ _. off) 0 (record off { active = 1 })
initial_states (some i) =
    let main = update (λ _. off) 0 (record off { active = 1 }) in
    update main i (record (main i) { active = 1; activation_time = 1 })

-- `clock` is the value of the static counter of `get_time`, 1 when the program starts.
unfoldable pub new_keyboard : Config → ℕ → Keyboard
unfolding initial_states default_layout
new_keyboard config clock = record {
  original_config = config;
  config = config;
  out = [];
  clock = clock;
  cache = replicate cache_size empty_entry;
  last_pressed_output_code = 0;
  last_pressed_code = 0;
  oneshot_latch = false;
  inhibit_modifier_guard = false;
  active_macro = none;
  active_macro_layer = 0;
  macro_timeout = 0;
  oneshot_timeout = 0;
  macro_repeat_interval = 0;
  overload_start_time = 0;
  last_simple_key_time = 0;
  timeouts = [];
  active_chords = replicate 3 empty_chord;
  chord = empty_queue;
  pending_key = empty_pending;
  layer_state = initial_states (default_layout config);
  keystate = λ _. false;
  scroll = record { sensitivity = 0; active = false };
}
