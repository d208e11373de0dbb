-- ===== src/Daemon/Invariant/Steps.antt =====
-- src/daemon.c: the steps that touch no keyboard, configuration or device.
use keyd_fork.Common.{
  ℕ, ◌+◌, ◌-◌, ◌%◌, ◌≡◌, refl, sym, ◌∙◌, Bool, true, false, Option, none, some, List, [], ◌∷◌, ◌==◌,
  if◌then◌else◌, if_intro, length, update, range, Ensures, Ensures-bind, ok, aborted,
  use_after_free, done, aborts,
}
use keyd_fork.Daemon.Vkbd.{clear_keys, clear_vkbd, send_key}
use keyd_fork.Daemon.Engine.{play_macro, play_outputs}
use keyd_fork.Daemon.Listeners.{
  write_layer, add_listener, set_leds, write_layers, on_layer_change, change_line, greet, notify,
}
use keyd_fork.Config.{Config, Layer}
use keyd_fork.Device.{Device}
use keyd_fork.Output.{Output, key, layer_change, sleep, command}
use keyd_fork.Keyboard.State.{Keyboard}
use keyd_fork.Daemon.{Daemon, Effect, World, led, write, close, emit, usleep, execute}
use keyd_fork.Daemon.Invariant.{Quiet, is_held, Recorded, Quiet-refl, Quiet-trans}

-- An effect on no key.
pub emit-Quiet :
    (d : Daemon) (e : Effect)
    → ((t : List Effect) (c : ℕ) → is_held (e ∷ t) c ≡ is_held t c)
    → Quiet d (emit d e)
emit-Quiet d e h = record {
  kbds_same = refl;
  configs_same = refl;
  devices_same = refl;
  next_same = refl;
  active_same = refl;
  records = λ r c down. r c (sym (h d.trace c) ∙ down);
}

pub send_key-Quiet : (d : Daemon) (code : ℕ) (state : Bool) → Quiet d (send_key d code state)
unfolding send_key
send_key-Quiet d code state = record {
  kbds_same = refl;
  configs_same = refl;
  devices_same = refl;
  next_same = refl;
  active_same = refl;
  records = λ r c. known r c (code == c);
}
  where
    known :
        Recorded d
        → (c : ℕ) (b : Bool) → (if b then state else is_held d.trace c) ≡ true
        → (if b then state else d.keystate c) ≡ true
    known r c true down = down
    known r c false down = r c down

clear_keys-Quiet : (d : Daemon) (is : List ℕ) → Quiet d (clear_keys d is)
unfolding clear_keys
clear_keys-Quiet d [] = Quiet-refl d
clear_keys-Quiet d (i ∷ is) =
    Quiet-trans (if_intro (Quiet d) (d.keystate i) (send_key-Quiet d i false) (Quiet-refl d))
      (clear_keys-Quiet (if d.keystate i then send_key d i false else d) is)

pub clear_vkbd-Quiet : (d : Daemon) → Quiet d (clear_vkbd d)
unfolding clear_vkbd
clear_vkbd-Quiet d = clear_keys-Quiet d (range 256)

write_layer-Quiet : (d : Daemon) (con : ℕ) (layer : Layer) → Quiet d (write_layer d con layer)
unfolding write_layer
write_layer-Quiet d con layer =
    Quiet-trans (emit-Quiet d _ (λ t c. refl))
      (Quiet-trans (emit-Quiet _ _ (λ t c. refl)) (emit-Quiet _ _ (λ t c. refl)))

write_layers-Quiet :
    (d : Daemon) (con : ℕ) (kbd : Keyboard) (is : List ℕ) → Quiet d (write_layers d con kbd is)
unfolding write_layers
write_layers-Quiet d con kbd [] = Quiet-refl d
write_layers-Quiet d con kbd (i ∷ is) =
    Quiet-trans
      (if_intro (Quiet d) ((kbd.layer_state i).active == 0) (Quiet-refl d)
        (write_layer-Quiet d con (kbd.config.layers i)))
      (write_layers-Quiet
        (if (kbd.layer_state i).active == 0 then d else write_layer d con (kbd.config.layers i)) con
        kbd is)

greet-Quiet : (d : Daemon) (con : ℕ) → Ensures (Quiet d) (greet d con)
unfolding greet
greet-Quiet d con = active d.active_kbd
  where
    found :
        (o : Option Keyboard)
        → Ensures (Quiet d) (elim o [
          | none ↦ aborted use_after_free
          | some kbd ↦ ok (write_layers d con kbd (range kbd.config.nr_layers))
        ])
    found none = aborts
    found (some kbd) = done (write_layers-Quiet d con kbd (range kbd.config.nr_layers))

    active :
        (o : Option ℕ)
        → Ensures (Quiet d) (elim o [
          | none ↦ ok d
          | some a ↦ elim (d.kbds a) [
            | none ↦ aborted use_after_free
            | some kbd ↦ ok (write_layers d con kbd (range kbd.config.nr_layers))
          ]
        ])
    active none = done (Quiet-refl d)
    active (some a) = found (d.kbds a)

-- Variables that no part of the invariant reads.
pub listeners-Quiet : (d : Daemon) (cons : List ℕ) → Quiet d (record d { listeners = cons })
listeners-Quiet d cons = record {
  kbds_same = refl;
  configs_same = refl;
  devices_same = refl;
  next_same = refl;
  active_same = refl;
  records = λ h. h;
}

pub add_listener-Quiet : (d : Daemon) (con : ℕ) → Ensures (Quiet d) (add_listener d con)
unfolding add_listener
add_listener-Quiet d con =
    if_intro (Ensures (Quiet d)) (length d.listeners == 32)
      (done (Quiet-trans (emit-Quiet d _ (λ t c. refl)) (emit-Quiet _ _ (λ t c. refl))))
      (Ensures-bind _ (greet-Quiet d con) (λ d' q. done (Quiet-trans q (listeners-Quiet d' _))))

notify-Quiet : (w : World) (d : Daemon) (line cons : List ℕ) → Quiet d (notify w d line cons).0
unfolding notify
notify-Quiet w d line [] = Quiet-refl d
notify-Quiet w d line (con ∷ cons) =
    let written = emit-Quiet d (write con line) (λ t c. refl) in
    Quiet-trans
      (if_intro (Quiet d) (w.takes d.trace con) written
        (Quiet-trans written (emit-Quiet _ (close con) (λ t c. refl))))
      (notify-Quiet w
        (if w.takes d.trace con
          then emit d (write con line)
          else emit (emit d (write con line)) (close con))
        line cons)

set_leds-Quiet : (d : Daemon) (a state : ℕ) (devs : List Device) → Quiet d (set_leds d a state devs)
unfolding set_leds
set_leds-Quiet d a state [] = Quiet-refl d
set_leds-Quiet d a state (dev ∷ devs) = Quiet-trans (one dev.data') (
    set_leds-Quiet
      (elim dev.data' [ none ↦ d | some b ↦ if b == a then emit d (led dev.path 1 state) else d ]) a
      state devs)
  where
    one :
        (o : Option ℕ)
        → Quiet d
            (elim o [ none ↦ d | some b ↦ if b == a then emit d (led dev.path 1 state) else d ])
    one none = Quiet-refl d
    one (some b) = if_intro (Quiet d) (b == a) (emit-Quiet d _ (λ t c. refl)) (Quiet-refl d)

on_layer_change-Quiet :
    (w : World) (a : ℕ) (config : Config) (active : ℕ → ℕ) (idx : ℕ) (state : Bool) (d : Daemon)
    → Quiet d (on_layer_change w a config active idx state d)
unfolding on_layer_change
on_layer_change-Quiet w a config active idx state d =
    Quiet-trans
      (Quiet-trans
        (if_intro (Quiet d) (config.layer_indicator == 0) (Quiet-refl d)
          (set_leds-Quiet d a _ d.device_table))
        (notify-Quiet w _ (change_line (config.layers idx) state) d.listeners))
      (listeners-Quiet _ _)

pub play_outputs-Quiet :
    (w : World) (a : ℕ) (config : Config) (active : ℕ → ℕ) (es : List Output) (d : Daemon)
    → Quiet d (play_outputs w a config active es d)
unfolding play_outputs
play_outputs-Quiet w a config active [] d = Quiet-refl d
play_outputs-Quiet w a config active (key code state ∷ es) d =
    Quiet-trans (send_key-Quiet d code state)
      (play_outputs-Quiet w a config active es (send_key d code state))
play_outputs-Quiet w a config active (layer_change i state ∷ es) d =
    let active' = update active i (if state then (active i + 1) % 256 else active i - 1) in
    Quiet-trans (on_layer_change-Quiet w a config active' i state d)
      (play_outputs-Quiet w a config active' es (on_layer_change w a config active' i state d))
play_outputs-Quiet w a config active (sleep n ∷ es) d =
    Quiet-trans (emit-Quiet d _ (λ t c. refl))
      (play_outputs-Quiet w a config active es (emit d (usleep n)))
play_outputs-Quiet w a config active (command n ∷ es) d =
    Quiet-trans (emit-Quiet d _ (λ t c. refl))
      (play_outputs-Quiet w a config active es (emit d (execute n)))

pub play_macro-Quiet : (d : Daemon) (es : List Output) → Quiet d (play_macro d es)
unfolding play_macro
play_macro-Quiet d [] = Quiet-refl d
play_macro-Quiet d (key code state ∷ es) =
    Quiet-trans (send_key-Quiet d code state) (play_macro-Quiet (send_key d code state) es)
play_macro-Quiet d (layer_change _ _ ∷ es) = play_macro-Quiet d es
play_macro-Quiet d (sleep n ∷ es) =
    Quiet-trans (emit-Quiet d _ (λ t c. refl)) (play_macro-Quiet (emit d (usleep n)) es)
play_macro-Quiet d (command _ ∷ es) = play_macro-Quiet d es
