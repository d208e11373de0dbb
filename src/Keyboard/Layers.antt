-- ===== src/Keyboard/Layers.antt =====
-- src/keyboard.c: layers switched on and off, one-shot layers, clear and the layout.
pub mod Oneshot
pub mod Layout
pub mod Paired
use keyd_fork.Common.{
  ℕ, zero, suc, ◌+◌, ◌-◌, ◌%◌, true, false, not, ◌&&◌, none, List, [], ◌∷◌, ltb, ◌==◌,
  if◌then◌else◌, update, range_from, range, Result, ◌>>=◌, ok, aborted, layer_inactive,
}
use keyd_fork.Config.{Config, is_layout}
use keyd_fork.Keyboard.Cache.{update_entry}
use keyd_fork.Keyboard.Send.{reset_keystate}
use keyd_fork.Keyboard.State.{
  LayerState, Keyboard, set_layer_state, set_active, set_toggled, set_oneshot_depth, put,
}
use keyd_fork.Output.{layer_change}

-- `active` is a uint8_t.
unfoldable pub deactivate_layer : Keyboard → ℕ → Result Keyboard
deactivate_layer kbd idx =
    let s = kbd.layer_state idx in
    if ltb 0 s.active
    then ok (put (set_layer_state kbd idx (set_active s (s.active - 1))) (layer_change idx false))
    else aborted layer_inactive

unfoldable pub activate_layer : Keyboard → ℕ → ℕ → Keyboard
activate_layer kbd code idx =
    let s = kbd.layer_state idx in
    let s' = record s { activation_time = kbd.clock; active = (s.active + 1) % 256 } in
    record kbd {
      clock = kbd.clock + 1;
      layer_state = update kbd.layer_state idx s';
      cache = update_entry kbd.cache code (λ e. record e { layer = idx });
      out = layer_change idx true ∷ kbd.out;
    }

-- The inner loop of `clear_oneshot`, over the depth of layer `i`.
unfoldable pub drain_oneshot : Keyboard → ℕ → ℕ → Result Keyboard
drain_oneshot kbd i zero = ok kbd
drain_oneshot kbd i (suc n) = do
  kbd ← deactivate_layer kbd i
  drain_oneshot (set_layer_state kbd i (set_oneshot_depth (kbd.layer_state i) n)) i n

unfoldable pub drain_oneshots : Keyboard → List ℕ → Result Keyboard
unfolding drain_oneshot
drain_oneshots kbd [] = ok kbd
drain_oneshots kbd (i ∷ is) = do
  kbd ← drain_oneshot kbd i (kbd.layer_state i).oneshot_depth
  drain_oneshots kbd is

unfoldable pub clear_oneshot : Keyboard → Result Keyboard
unfolding drain_oneshots
clear_oneshot kbd = do
  kbd ← drain_oneshots kbd (range kbd.config.nr_layers)
  ok (record kbd { oneshot_latch = false; oneshot_timeout = 0 })

-- The loop of `clear`, over the layers of a list.
unfoldable pub clear_toggles : Keyboard → List ℕ → Result Keyboard
clear_toggles kbd [] = ok kbd
clear_toggles kbd (i ∷ is) = do
  kbd ←
      (if not (is_layout (kbd.config.layers i).type) && (kbd.layer_state i).toggled
        then deactivate_layer (set_layer_state kbd i (set_toggled (kbd.layer_state i) false)) i
        else ok kbd)
  clear_toggles kbd is

unfoldable pub clear : Keyboard → Result Keyboard
unfolding clear_toggles
clear kbd = do
  kbd ← clear_oneshot kbd
  kbd ← clear_toggles kbd (range_from 1 (kbd.config.nr_layers - 1))
  ok (reset_keystate (record kbd { active_macro = none }))

-- The loop of `setlayout`.
unfoldable pub leave_layouts : Config → (ℕ → LayerState) → List ℕ → ℕ → LayerState
leave_layouts config states [] = states
leave_layouts config states (i ∷ is) =
    leave_layouts config
      (if is_layout (config.layers i).type
        then update states i (set_active (states i) 0)
        else states)
      is

unfoldable pub setlayout : Keyboard → ℕ → Result Keyboard
unfolding leave_layouts
setlayout kbd idx = do
  kbd ← clear kbd
  let states = leave_layouts kbd.config kbd.layer_state (range kbd.config.nr_layers)
  let chosen = record (states idx) { activation_time = 1; active = 1 }
  let states' = if idx == 0 then states else update states idx chosen
  ok (record kbd { layer_state = states'; out = layer_change idx true ∷ kbd.out })
