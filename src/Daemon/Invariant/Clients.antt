-- ===== src/Daemon/Invariant/Clients.antt =====
-- src/daemon.c: calls of the engine and handle_client keep the invariant.
use keyd_fork.Common.{
  ℕ, refl, Bool, true, false, ◌||◌, Option, none, some, List, [], ◌∷◌, ltb, leb, if_intro, update,
  Result, ◌>>=◌, Ensures, Ensures-bind, Ensures-map, ok, aborted, out_of_fuel, use_after_free, done,
  aborts, starves,
}
use keyd_fork.Daemon.Invariant.Typing.{input-Quiet}
use keyd_fork.Macro.{macro_execute}
use keyd_fork.Macro.Parse.{macro_parse}
use keyd_fork.Keyboard.Events.{kbd_process_events}
use keyd_fork.Output.{log}
use keyd_fork.Daemon.Invariant.Steps.{
  play_outputs-Quiet, emit-Quiet, add_listener-Quiet, play_macro-Quiet,
}
use keyd_fork.Keyboard.State.{KeyEvent, Keyboard}
use keyd_fork.Daemon.Invariant.Devices.{update-ConfigsLive, update-IsServed}
use keyd_fork.Daemon.Invariant.Reload.{reload-Inv}
use keyd_fork.Daemon.Client.{bind_each, IpcType, IpcMessage, run_macro, handle_client}
use keyd_fork.Parser.Entry.{kbd_eval}
use keyd_fork.Text.CString.{until_nul}
use keyd_fork.Config.{Config, Descriptor, Macro}
use keyd_fork.Daemon.{Daemon, ConfigEnt, World, close, respond, emit}
use keyd_fork.Daemon.Engine.{deliver, run_keyboard, play_macro}
use keyd_fork.Daemon.Client.{answer, serve, IpcType, IpcMessage, run_macro, handle_client}
use keyd_fork.Daemon.Invariant.{Inv, Quiet-Inv, Quiet, Quiet-trans}

-- A keyboard that is stored, where one may have been before.
pub stored-Inv :
    (d : Daemon) (a : ℕ) (k : Keyboard) (clock : ℕ)
    → Inv d
    → Inv (record d { kbds = update d.kbds a (some k); clock = clock })
stored-Inv d a k clock v = record {
  recorded = v.recorded;
  configs_live = update-ConfigsLive d.kbds a k d.configs v.configs_live;
  devices_served = update-IsServed d.kbds a k d.device_table v.devices_served;
}

deliver-Inv :
    (w : World) (a : ℕ) (before kbd : Keyboard) (d : Daemon)
    → Inv d
    → Inv (deliver w a before kbd d)
unfolding deliver
deliver-Inv w a before kbd d v =
    Quiet-Inv (play_outputs-Quiet w a kbd.config _ (log kbd.out []) _)
      (stored-Inv d a kbd kbd.clock v)

pub run_keyboard-Inv :
    (w : World) (fuel : ℕ) (d : Daemon) (a : ℕ) (events : List KeyEvent)
    → Inv d
    → Ensures (λ r. Inv r.1) (run_keyboard w fuel d a events)
unfolding run_keyboard ◌>>=◌
run_keyboard-Inv w fuel d a events v = at (d.kbds a)
  where
    after :
        (kbd : Keyboard) (r : Result (ℕ × Keyboard))
        → Ensures
            (λ (r : ℕ × Daemon). Inv r.1)
            (r >>= (λ (timeout, kbd'). ok (timeout, deliver w a kbd kbd' d)))
    after kbd (ok (timeout, kbd')) = done (deliver-Inv w a kbd kbd' d v)
    after kbd (aborted e) = aborts
    after kbd out_of_fuel = starves

    at :
        (o : Option Keyboard)
        → Ensures
            (λ (r : ℕ × Daemon). Inv r.1)
            (elim o [
              | none ↦ aborted use_after_free
              | some kbd ↦ (do
                (timeout, kbd') ←
                    kbd_process_events w.env fuel (record kbd { out = []; clock = d.clock }) events
                ok (timeout, deliver w a kbd kbd' d))
            ])
    at none = aborts
    at (some kbd) =
        after kbd (kbd_process_events w.env fuel (record kbd { out = []; clock = d.clock }) events)

bind_each-Inv :
    (w : World) (junk : Descriptor) (d : Daemon) (s : List ℕ) (es : List ConfigEnt)
    → Inv d
    → Ensures (λ r. Inv r.1) (bind_each w junk d s es)
unfolding bind_each ◌>>=◌
bind_each-Inv w junk d s [] v = done v
bind_each-Inv w junk d s (e ∷ es) v = at (d.kbds e.kbd) (λ d' v'. bind_each-Inv w junk d' s es v')
  where
    after :
        (kbd : Keyboard) (r : Result (Bool × Config))
        → ((d' : Daemon) → Inv d' → Ensures (λ r. Inv r.1) (bind_each w junk d' s es))
        → Ensures
            (λ (r : Bool × Daemon). Inv r.1)
            (r >>= (λ (taken, config).
              bind_each w junk
                (record d { kbds = update d.kbds e.kbd (some (record kbd { config = config })) })
                s
                es
              >>= (λ (more, d'). ok (taken || more, d'))))
    after kbd (ok (taken, config)) ih =
        Ensures-bind _ (ih _ (stored-Inv d e.kbd (record kbd { config = config }) d.clock v))
          (λ r v'. done v')
    after kbd (aborted e) ih = aborts
    after kbd out_of_fuel ih = starves

    at :
        (o : Option Keyboard)
        → ((d' : Daemon) → Inv d' → Ensures (λ r. Inv r.1) (bind_each w junk d' s es))
        → Ensures
            (λ (r : Bool × Daemon). Inv r.1)
            (elim o [
              | none ↦ aborted use_after_free
              | some kbd ↦
                  kbd_eval w.env junk kbd.original_config kbd.config s >>= (λ (taken, config).
                    bind_each w junk
                      (record d {
                        kbds = update d.kbds e.kbd (some (record kbd { config = config }));
                      })
                      s
                      es
                    >>= (λ (more, d'). ok (taken || more, d')))
            ])
    at none ih = aborts
    at (some kbd) ih = after kbd (kbd_eval w.env junk kbd.original_config kbd.config s) ih

answer-Quiet : (d : Daemon) (con : ℕ) (b : Bool) → Quiet d (answer d con b)
unfolding answer
answer-Quiet d con b =
    Quiet-trans (emit-Quiet d (respond con b) (λ t c. refl))
      (emit-Quiet (emit d (respond con b)) (close con) (λ t c. refl))

answer-Inv : (d : Daemon) (con : ℕ) (b : Bool) → Inv d → Inv (answer d con b)
answer-Inv d con b v = Quiet-Inv (answer-Quiet d con b) v

run_macro-Inv :
    (w : World) (junk : Descriptor) (d : Daemon) (con timeout : ℕ) (s : List ℕ)
    → Inv d
    → Ensures Inv (run_macro w junk d con timeout s)
unfolding run_macro ◌>>=◌
run_macro-Inv w junk d con timeout s v = parsed (macro_parse w.env s)
  where
    result :
        (o : Option Macro)
        → Ensures Inv (elim o [
          | none ↦ ok (answer d con false)
          | some m ↦ ok (answer (play_macro d (macro_execute w.env m timeout)) con true)
        ])
    result none = done (answer-Inv d con false v)
    result (some m) = done (answer-Inv _ con true (Quiet-Inv (play_macro-Quiet d _) v))

    parsed :
        (r : Result (Option Macro))
        → Ensures Inv (
            r >>= (λ o. elim o [
              | none ↦ ok (answer d con false)
              | some m ↦ ok (answer (play_macro d (macro_execute w.env m timeout)) con true)
            ]))
    parsed (ok o) = result o
    parsed (aborted e) = aborts
    parsed out_of_fuel = starves

serve-Inv :
    (w : World) (junk : Descriptor) (d : Daemon) (con : ℕ) (type : IpcType) (timeout : ℕ)
    (s : List ℕ)
    → Inv d
    → Ensures Inv (serve w junk d con type timeout s)
unfolding serve
serve-Inv w junk d con IpcType.ipc_macro timeout s v = run_macro-Inv w junk d con timeout _ v
serve-Inv w junk d con IpcType.ipc_input timeout s v =
    Ensures-bind _ (input-Quiet w timeout d (until_nul s))
      (λ (typed, d') q. done (answer-Inv d' con typed (Quiet-Inv q v)))
serve-Inv w junk d con IpcType.ipc_reload timeout s v =
    Ensures-bind _ (reload-Inv w d v) (λ d' v'. done (answer-Inv d' con true v'))
serve-Inv w junk d con IpcType.ipc_layer_listen timeout s v =
    Ensures-map _ (add_listener-Quiet d con) (λ d' q. Quiet-Inv q v)
serve-Inv w junk d con IpcType.ipc_bind timeout s v =
    Ensures-bind _ (bind_each-Inv w junk d (until_nul s) d.configs v)
      (λ (bound, d') v'. done (answer-Inv d' con bound v'))
serve-Inv w junk d con IpcType.ipc_success timeout s v = done (answer-Inv d con false v)
serve-Inv w junk d con IpcType.ipc_fail timeout s v = done (answer-Inv d con false v)
serve-Inv w junk d con IpcType.ipc_other timeout s v = done (answer-Inv d con false v)

pub handle_client-Inv :
    (w : World) (junk : Descriptor) (d : Daemon) (con : ℕ) (msg : IpcMessage)
    → Inv d
    → Ensures Inv (handle_client w junk d con msg)
unfolding handle_client
handle_client-Inv w junk d con msg v =
    if_intro (Ensures Inv) (leb 4096 msg.sz) (done (answer-Inv d con false v)) (
      if_intro (Ensures Inv) (ltb 1000000 msg.timeout) (done (answer-Inv d con false v))
        (serve-Inv w junk d con msg.type msg.timeout _ v))
