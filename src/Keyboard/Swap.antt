-- ===== src/Keyboard/Swap.antt =====
-- src/keyboard.c, the case of process_descriptor for OP_SWAP and OP_SWAPM.
use keyd_fork.Common.{
  ℕ, suc, ◌+◌, ◌-◌, ◌%◌, Bool, true, false, not, ◌&&◌, Option, none, some, List, [], ◌∷◌, ◌==◌,
  if◌then◌else◌, modify, Result, ◌>>=◌, ok,
}
use keyd_fork.Config.{Op, Config, Macro, is_normal}
use keyd_fork.Keyboard.Layers.{activate_layer, deactivate_layer}
use keyd_fork.Keyboard.Send.{send_key, update_mods, execute_macro, key_sequence}
use keyd_fork.Keyboard.State.{CacheEntry, Keyboard, set_layer_state, set_toggled, set_oneshot_depth}
use keyd_fork.Macro.{Env}

-- The slot of the first cached key that holds the layer `dl`, and the key's code.
unfoldable pub find_holder : Config → List CacheEntry → ℕ → ℕ → Option (ℕ × ℕ)
find_holder config [] dl i = none
find_holder config (e ∷ es) dl i =
    let rest = find_holder config es dl (suc i) in
    if not (e.code == 0)
      && e.layer == dl
      && is_normal (config.layers e.layer).type
      && not (e.layer == 0)
    then some (i, e.code)
    else rest

unfoldable pub swap_toggled : Keyboard → ℕ → ℕ → Result Keyboard
swap_toggled kbd dl idx = do
  kbd ← deactivate_layer kbd dl
  let kbd = set_layer_state kbd dl (set_toggled (kbd.layer_state dl) false)
  let kbd = activate_layer kbd 0 idx
  let kbd = set_layer_state kbd idx (set_toggled (kbd.layer_state idx) true)
  ok (update_mods kbd none 0)

unfoldable pub swap_oneshot : Keyboard → ℕ → ℕ → Result Keyboard
swap_oneshot kbd dl idx = do
  kbd ← deactivate_layer kbd dl
  let depth = (kbd.layer_state dl).oneshot_depth
  let kbd = set_layer_state kbd dl (set_oneshot_depth (kbd.layer_state dl) (depth - 1))
  let kbd = activate_layer kbd 0 idx
  let depth = ((kbd.layer_state idx).oneshot_depth + 1) % 256
  let kbd = set_layer_state kbd idx (set_oneshot_depth (kbd.layer_state idx) depth)
  ok (update_mods kbd none 0)

-- The key now holds `idx`: its descriptor becomes OP_LAYER of that layer.
unfoldable pub hold_instead : ℕ → CacheEntry → CacheEntry
hold_instead idx e = record e { d = record e.d { op = Op.layer; arg0 = idx } }

unfoldable pub swap_held : Keyboard → ℕ → ℕ → Result Keyboard
unfolding find_holder hold_instead
swap_held kbd dl idx = elim (find_holder kbd.config kbd.cache dl 0) [
  | none ↦ ok kbd
  | some (i, holder) ↦ (do
    kbd ← deactivate_layer (record kbd { cache = modify kbd.cache i (hold_instead idx) }) dl
    ok (update_mods (activate_layer kbd holder idx) none 0))
]

unfoldable pub swap_down : Keyboard → ℕ → ℕ → Result Keyboard
swap_down kbd dl idx =
    if (kbd.layer_state dl).toggled
    then swap_toggled kbd dl idx
    else if not ((kbd.layer_state dl).oneshot_depth == 0)
    then swap_oneshot kbd dl idx
    else swap_held kbd dl idx

-- On release, a macro that is one key sequence lets go of its key.
unfoldable pub swap_up : Keyboard → Macro → Keyboard
swap_up kbd macro = elim (key_sequence macro) [
  | none ↦ kbd
  | some d ↦ update_mods (send_key kbd (d % 256) false) none 0
]

-- `macro` is `none` for OP_SWAP.
unfoldable pub process_swap : Env → Keyboard → ℕ → ℕ → Option Macro → Bool → Result Keyboard
process_swap env kbd dl idx macro true = do
  kbd ← swap_down kbd dl idx
  ok (elim macro [ none ↦ kbd | some m ↦ execute_macro env kbd dl m ])
process_swap env kbd dl idx macro false = ok (elim macro [ none ↦ kbd | some m ↦ swap_up kbd m ])
