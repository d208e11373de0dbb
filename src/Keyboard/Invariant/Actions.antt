-- ===== src/Keyboard/Invariant/Actions.antt =====
-- src/keyboard.c: the invariant under the cases of process_descriptor.
use keyd_fork.Common.{
  ℕ, refl, sym, subst, Bool, true, false, none, some, if_intro, Ensures, Ensures-bind, done,
}
use keyd_fork.Config.{Descriptor, Config}
use keyd_fork.Keyboard.Actions.{
  Process, key_sequence_down, process_keysequence, process_overload_idle, process_overload_timeout,
  process_timeout, process_layer, latch_oneshot, process_oneshot, process_toggle, process_command,
  process_clearm, tap_action, process_overload, start_macro, update_mods_inhibited, process_scroll,
  process_scroll_toggle, is_tap,
}
use keyd_fork.Keyboard.Invariant.{Inv, HasReleasedMacros}
use keyd_fork.Keyboard.Invariant.Send.{update_mods-Inv, send_key-Inv, execute_macro-Inv}
use keyd_fork.Keyboard.Invariant.Layers.{
  clear-Inv, update_entry-IsDistinct, deactivate_layer-Inv, activate_layer-Inv, clear_oneshot-Inv,
  schedule_timeout-Inv,
}
use keyd_fork.Keyboard.State.{Keyboard, Behaviour, put}
use keyd_fork.Keyboard.Send.{execute_macro, update_mods}
use keyd_fork.Macro.{Env}
use keyd_fork.Macro.Released.{IsReleased}
use keyd_fork.Output.{command}

-- A function like process_descriptor keeps the invariant.
abbrev pub Keeps : Config → Process → Type 0
Keeps cfg process =
    (kbd : Keyboard) (code : ℕ) (d : Descriptor) (dl : ℕ) (pressed : Bool) (time : ℕ)
    → Inv cfg kbd
    → Ensures (Inv cfg) (process kbd code d dl pressed time)

module _ {cfg : Config} where
  key_sequence_down-Inv :
      (kbd : Keyboard) (code mods dl : ℕ)
      → Inv cfg kbd
      → Ensures (Inv cfg) (key_sequence_down kbd code mods dl)
  unfolding key_sequence_down
  key_sequence_down-Inv kbd code mods dl v = clear_oneshot-Inv (
      send_key-Inv code true
        (update_mods-Inv (some dl) mods (if_intro (Inv cfg) _ (send_key-Inv code false v) v)))

  pub process_keysequence-Inv :
      (kbd : Keyboard) (d : Descriptor) (dl : ℕ) (pressed : Bool) (time : ℕ)
      → Inv cfg kbd
      → Ensures (Inv cfg) (process_keysequence kbd d dl pressed time)
  unfolding process_keysequence
  process_keysequence-Inv kbd d dl pressed time v =
      Ensures-bind _
        (if_intro (Ensures (Inv cfg)) pressed (key_sequence_down-Inv kbd _ _ dl v)
          (done (update_mods-Inv none 0 (send_key-Inv _ false v))))
        λ k w.
          let timed : Inv cfg (record k { last_simple_key_time = time }) = record {
            coherent = w.coherent;
          } in
          done (if_intro (Inv cfg) _ timed w)

  pub process_scroll-Inv :
      (kbd : Keyboard) (d : Descriptor) (pressed : Bool)
      → Inv cfg kbd
      → Inv cfg (process_scroll kbd d pressed)
  unfolding process_scroll
  process_scroll-Inv kbd d pressed v = record { coherent = v.coherent }

  pub process_scroll_toggle-Inv :
      (kbd : Keyboard) (d : Descriptor) (pressed : Bool)
      → Inv cfg kbd
      → Inv cfg (process_scroll_toggle kbd d pressed)
  unfolding process_scroll_toggle
  process_scroll_toggle-Inv kbd d pressed v = record { coherent = v.coherent }

  pub process_overload_idle-Inv :
      (process : Process) → Keeps cfg process → Keeps cfg (process_overload_idle process)
  unfolding process_overload_idle
  process_overload_idle-Inv process keeps kbd code d dl pressed time v =
      if_intro (Ensures (Inv cfg)) pressed
        (Ensures-bind _ (keeps kbd code _ dl true time v) λ k w. done (record {
          coherent = record {
            recorded = w.recorded;
            distinct = update_entry-IsDistinct k.cache code _ (λ e. refl) w.distinct;
            config_is = w.config_is;
          };
        }))
        (done v)

  pub process_overload_timeout-Inv :
      (behaviour : Behaviour) → Keeps cfg (process_overload_timeout behaviour)
  unfolding process_overload_timeout
  process_overload_timeout-Inv behaviour kbd code d dl pressed time v =
      if_intro (Ensures (Inv cfg)) pressed
        (schedule_timeout-Inv _ (record { coherent = v.coherent })) (done v)

  pub process_timeout-Inv : Keeps cfg process_timeout
  unfolding process_timeout
  process_timeout-Inv kbd code d dl pressed time v =
      if_intro (Ensures (Inv cfg)) pressed
        (schedule_timeout-Inv _ (record { coherent = v.coherent })) (done v)

  update_mods_inhibited-Inv : {kbd : Keyboard} → Inv cfg kbd → Inv cfg (update_mods_inhibited kbd)
  unfolding update_mods_inhibited
  update_mods_inhibited-Inv {kbd} v =
      let inhibited : Inv cfg (record kbd { inhibit_modifier_guard = true }) = record {
        coherent = v.coherent;
      } in
      record { coherent = (update_mods-Inv none 0 inhibited).coherent }

  pub process_layer-Inv :
      (kbd : Keyboard) (code idx : ℕ) (pressed : Bool)
      → Inv cfg kbd
      → Ensures (Inv cfg) (process_layer kbd code idx pressed)
  unfolding process_layer
  process_layer-Inv kbd code idx pressed v =
      Ensures-bind _
        (if_intro (Ensures (Inv cfg)) pressed (done (activate_layer-Inv code idx v))
          (deactivate_layer-Inv idx v))
        λ k w. done (if_intro (Inv cfg) _ (update_mods_inhibited-Inv w) (update_mods-Inv none 0 w))

  latch_oneshot-Inv :
      (kbd : Keyboard) (idx time : ℕ) → Inv cfg kbd → Ensures (Inv cfg) (latch_oneshot kbd idx time)
  unfolding latch_oneshot
  latch_oneshot-Inv kbd idx time v =
      if_intro (Ensures (Inv cfg)) _ (done (record { coherent = v.coherent }))
        (schedule_timeout-Inv _ (record { coherent = v.coherent }))

  pub process_oneshot-Inv :
      (kbd : Keyboard) (code idx dl : ℕ) (pressed : Bool) (time : ℕ)
      → Inv cfg kbd
      → Ensures (Inv cfg) (process_oneshot kbd code idx dl pressed time)
  unfolding process_oneshot
  process_oneshot-Inv kbd code idx dl pressed time v =
      let on = update_mods-Inv (some dl) 0 (activate_layer-Inv code idx v) in
      if_intro (Ensures (Inv cfg)) pressed (done (record { coherent = on.coherent })) (
        if_intro (Ensures (Inv cfg)) _ (latch_oneshot-Inv kbd idx time v)
          (Ensures-bind _ (deactivate_layer-Inv idx v) λ k w. done (update_mods-Inv none 0 w)))

  pub process_toggle-Inv :
      (kbd : Keyboard) (code idx : ℕ) (pressed : Bool)
      → Inv cfg kbd
      → Ensures (Inv cfg) (process_toggle kbd code idx pressed)
  unfolding process_toggle
  process_toggle-Inv kbd code idx pressed v =
      if_intro (Ensures (Inv cfg)) pressed
        (Ensures-bind _
          (if_intro (Ensures (Inv cfg)) _
            (deactivate_layer-Inv idx (record { coherent = v.coherent }))
            (done (activate_layer-Inv code idx (record { coherent = v.coherent }))))
          λ k w. clear_oneshot-Inv (update_mods-Inv none 0 w))
        (done v)

  pub process_command-Inv :
      (kbd : Keyboard) (idx : ℕ) (pressed : Bool)
      → Inv cfg kbd
      → Ensures (Inv cfg) (process_command kbd idx pressed)
  unfolding process_command
  process_command-Inv kbd idx pressed v =
      let sent : Inv cfg (put kbd (command idx)) = record {
        coherent = record { recorded = v.recorded; distinct = v.distinct; config_is = v.config_is };
      } in
      if_intro (Ensures (Inv cfg)) pressed
        (Ensures-bind _ (clear_oneshot-Inv sent) λ k w. done (update_mods-Inv none 0 w)) (done v)

module _ {cfg : Config} (env : Env) (macros : HasReleasedMacros cfg) where
  pub config_macro-Inv :
      {kbd : Keyboard} (dl i : ℕ)
      → Inv cfg kbd
      → Inv cfg (execute_macro env kbd dl (kbd.config.macros i))
  config_macro-Inv dl i v =
      execute_macro-Inv env dl _
        (subst (λ (c : Config). IsReleased false (c.macros i)) (sym v.config_is) (macros i)) v

  pub process_clearm-Inv :
      (kbd : Keyboard) (d : Descriptor) (dl : ℕ) (pressed : Bool)
      → Inv cfg kbd
      → Ensures (Inv cfg) (process_clearm env kbd d dl pressed)
  unfolding process_clearm
  process_clearm-Inv kbd d dl pressed v =
      if_intro (Ensures (Inv cfg)) pressed
        (Ensures-bind _ (clear-Inv v) λ k w. done (config_macro-Inv dl _ w)) (done v)

  tap_action-Inv :
      (process : Process)
      → Keeps cfg process
      → (kbd : Keyboard) (code : ℕ) (action : Descriptor) (dl time : ℕ) → Inv cfg kbd
      → Ensures (Inv cfg) (tap_action env process kbd code action dl time)
  unfolding tap_action
  tap_action-Inv process keeps kbd code action dl time v =
      if_intro (Ensures (Inv cfg)) _ (done (config_macro-Inv dl _ v)) (
        Ensures-bind _ (keeps kbd code action dl true time v)
          λ k w. keeps k code action dl false time w)

  pub process_overload-Inv :
      (process : Process) → Keeps cfg process → Keeps cfg (process_overload env process)
  unfolding process_overload
  process_overload-Inv process keeps kbd code d dl pressed time v =
      let started : Inv cfg (record kbd { overload_start_time = time }) = record {
        coherent = v.coherent;
      } in
      if_intro (Ensures (Inv cfg)) pressed
        (done (update_mods-Inv none 0 (activate_layer-Inv code d.arg0 started)))
        (Ensures-bind _ (deactivate_layer-Inv _ v) λ k w.
          let updated = update_mods-Inv none 0 w in
          if_intro (Ensures (Inv cfg)) (is_tap (update_mods k none 0) code time)
            (tap_action-Inv process keeps _ code _ dl time updated) (done updated))

  pub start_macro-Inv :
      (kbd : Keyboard) (idx timeout interval dl time : ℕ)
      → Inv cfg kbd
      → Ensures (Inv cfg) (start_macro env kbd idx timeout interval dl time)
  unfolding start_macro
  start_macro-Inv kbd idx timeout interval dl time v =
      Ensures-bind _ (clear_oneshot-Inv (record { coherent = v.coherent })) λ k w.
        let played = config_macro-Inv dl idx w in
        schedule_timeout-Inv _ (record { coherent = played.coherent })
