-- ===== src/Daemon/Listeners.antt =====
-- src/daemon.c: add_listener and on_layer_change.
use keyd_fork.Common.{
  ℕ, ◌-◌, Bool, false, not, ◌&&◌, ◌||◌, none, some, List, [], ◌∷◌, ◌++◌, ltb, ◌==◌, if◌then◌else◌,
  length, take, range_from, range, Result, ◌>>=◌, ok, aborted, use_after_free,
}
use keyd_fork.Keyboard.State.{Keyboard}
use keyd_fork.Text.CString.{codes}
use keyd_fork.Config.{Config, Layer, is_layout}
use keyd_fork.Device.{Device}
use keyd_fork.Daemon.{Daemon, World, emit, led, write, close}

-- The three writes for a layer that is on.
unfoldable pub write_layer : Daemon → ℕ → Layer → Daemon
write_layer d con layer =
    emit
      (emit (emit d (write con ((if is_layout layer.type then 47 else 43) ∷ [])))
        (write con layer.name))
      (write con (10 ∷ []))

unfoldable pub write_layers : Daemon → ℕ → Keyboard → List ℕ → Daemon
unfolding write_layer
write_layers d con kbd [] = d
write_layers d con kbd (i ∷ is) =
    write_layers
      (if (kbd.layer_state i).active == 0 then d else write_layer d con (kbd.config.layers i)) con
      kbd is

unfoldable pub greet : Daemon → ℕ → Result Daemon
unfolding write_layers
greet d con = elim d.active_kbd [
  | none ↦ ok d
  | some a ↦ elim (d.kbds a) [
    | none ↦ aborted use_after_free
    | some kbd ↦ ok (write_layers d con kbd (range kbd.config.nr_layers))
  ]
]

-- The message of the 33rd listener goes with the NUL that ends it.
unfoldable pub add_listener : Daemon → ℕ → Result Daemon
unfolding greet
add_listener d con =
    if length d.listeners == 32
    then ok
        (emit (emit d (write con (codes "Max listeners exceeded" ++ (10 ∷ 0 ∷ [])))) (close con))
    else (do d' ← greet d con; ok (record d' { listeners = d'.listeners ++ (con ∷ []) }))

-- `snprintf` into 66 bytes, of which the size that it would need is written.
unfoldable pub change_line : Layer → Bool → List ℕ
change_line layer state =
    let line =
      (if is_layout layer.type then 47 else if state then 43 else 45) ∷ (layer.name ++ (10 ∷ [])) in
    if ltb (length line) 66 then line else take 65 line ++ (0 ∷ [])

-- The loop over the listeners: those that are kept.
unfoldable pub notify : World → Daemon → List ℕ → List ℕ → Daemon × List ℕ
notify w d line [] = (d, [])
notify w d line (con ∷ cons) =
    let written = emit d (write con line) in
    let taken = w.takes d.trace con in
    let (d', keep) = notify w (if taken then written else emit written (close con)) line cons in
    (d', if taken then con ∷ keep else keep)

-- A layer other than the main one that is on, and no layout.
unfoldable pub is_lit : Config → (ℕ → ℕ) → List ℕ → Bool
is_lit config active [] = false
is_lit config active (i ∷ is) =
    (not (is_layout (config.layers i).type) && not (active i == 0)) || is_lit config active is

unfoldable pub set_leds : Daemon → ℕ → ℕ → List Device → Daemon
set_leds d a state [] = d
set_leds d a state (dev ∷ devs) =
    set_leds
      (elim dev.data' [ none ↦ d | some b ↦ if b == a then emit d (led dev.path 1 state) else d ]) a
      state devs

-- `active` is how often each layer of the keyboard is on at the time of the call.
unfoldable pub on_layer_change : World → ℕ → Config → (ℕ → ℕ) → ℕ → Bool → Daemon → Daemon
unfolding is_lit set_leds change_line notify
on_layer_change w a config active idx state d =
    let lit = is_lit config active (range_from 1 (config.nr_layers - 1)) in
    let shown =
      (if config.layer_indicator == 0
        then d
        else set_leds d a (if lit then 1 else 0) d.device_table) in
    let (d', keep) = notify w shown (change_line (config.layers idx) state) d.listeners in
    record d' { listeners = keep }
