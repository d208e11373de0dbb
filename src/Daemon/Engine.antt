-- ===== src/Daemon/Engine.antt =====
-- src/daemon.c and src/keyboard.c: a call of the engine, and the callbacks that it makes.
use keyd_fork.Common.{
  ℕ, ◌+◌, ◌-◌, ◌%◌, none, some, List, [], ◌∷◌, if◌then◌else◌, update, Result, ◌>>=◌, ok, aborted,
  use_after_free,
}
use keyd_fork.Daemon.Listeners.{on_layer_change}
use keyd_fork.Keyboard.Events.{kbd_process_events}
use keyd_fork.Config.{Config}
use keyd_fork.Output.{Output, key, layer_change, sleep, command, log}
use keyd_fork.Keyboard.State.{Keyboard, KeyEvent}
use keyd_fork.Daemon.{Daemon, World, emit, usleep, execute}
use keyd_fork.Daemon.Vkbd.{send_key}

-- The engine's outputs in order. Every change of `active` of a layer that is no layout comes with a
-- notification, so that `active` counts what the callback sees.
unfoldable pub play_outputs : World → ℕ → Config → (ℕ → ℕ) → List Output → Daemon → Daemon
unfolding send_key
play_outputs w a config active [] d = d
play_outputs w a config active (key code state ∷ es) d =
    play_outputs w a config active es (send_key d code state)
play_outputs w a config active (layer_change i state ∷ es) d =
    let active' = update active i (if state then (active i + 1) % 256 else active i - 1) in
    play_outputs w a config active' es (on_layer_change w a config active' i state d)
play_outputs w a config active (sleep n ∷ es) d =
    play_outputs w a config active es (emit d (usleep n))
play_outputs w a config active (command n ∷ es) d =
    play_outputs w a config active es (emit d (execute n))

-- The outputs of a macro: keys and pauses.
unfoldable pub play_macro : Daemon → List Output → Daemon
unfolding send_key
play_macro d [] = d
play_macro d (key code state ∷ es) = play_macro (send_key d code state) es
play_macro d (sleep n ∷ es) = play_macro (emit d (usleep n)) es
play_macro d (_ ∷ es) = play_macro d es

-- The daemon with the keyboard that a call left, and its outputs carried out.
unfoldable pub deliver : World → ℕ → Keyboard → Keyboard → Daemon → Daemon
unfolding play_outputs
deliver w a before kbd d =
    play_outputs w a kbd.config (λ i. (before.layer_state i).active) (log kbd.out [])
      (record d { kbds = update d.kbds a (some kbd); clock = kbd.clock })

-- `kbd_process_events` on the keyboard at an address.
unfoldable pub run_keyboard : World → ℕ → Daemon → ℕ → List KeyEvent → Result (ℕ × Daemon)
unfolding deliver
run_keyboard w fuel d a events = elim (d.kbds a) [
  | none ↦ aborted use_after_free
  | some kbd ↦ (do
    (timeout, kbd') ←
        kbd_process_events w.env fuel (record kbd { out = []; clock = d.clock }) events
    ok (timeout, deliver w a kbd kbd' d))
]
