-- ===== src/Keyboard/Invariant/Descriptors.antt =====
-- src/keyboard.c: the invariant under process_descriptor.
use keyd_fork.Common.{
  ℕ, zero, suc, ◌≡◌, sym, subst, Bool, true, false, none, some, if_intro, Ensures, Ensures-bind,
  done, starves,
}
use mathlib.Core.Option.{some-injective}
use keyd_fork.Config.{Op, Descriptor, Config, Macro}
use keyd_fork.Keyboard.Actions.{Process}
use keyd_fork.Keyboard.Descriptors.{process_descriptor, entry_macro, process_macro, process_op}
use keyd_fork.Keyboard.Invariant.{Inv, HasReleasedMacros}
use keyd_fork.Keyboard.Invariant.Actions.{
  Keeps, process_keysequence-Inv, process_scroll-Inv, process_scroll_toggle-Inv,
  process_overload_idle-Inv, process_overload_timeout-Inv, process_timeout-Inv, process_layer-Inv,
  process_oneshot-Inv, process_toggle-Inv, process_command-Inv, config_macro-Inv,
  process_clearm-Inv, process_overload-Inv, start_macro-Inv,
}
use keyd_fork.Keyboard.Invariant.Layers.{clear-Inv, setlayout-Inv}
use keyd_fork.Keyboard.Invariant.Swap.{process_swap-Inv}
use keyd_fork.Keyboard.State.{Keyboard}
use keyd_fork.Macro.{Env}
use keyd_fork.Macro.Released.{IsReleased}

module _ {cfg : Config} (env : Env) (macros : HasReleasedMacros cfg) where
  pub entry_macro-Inv :
      (kbd : Keyboard) (d : Descriptor) (dl : ℕ) (pressed : Bool)
      → Inv cfg kbd
      → Inv cfg (entry_macro env kbd d dl pressed)
  unfolding entry_macro
  entry_macro-Inv kbd d dl pressed v =
      if_intro (Inv cfg) _ (config_macro-Inv env macros dl d.arg1 v) v

  process_macro-Inv : (op : Op) → Keeps cfg (process_macro env op)
  unfolding process_macro
  process_macro-Inv op kbd code d dl false time v = done v
  process_macro-Inv Op.macro2 kbd code d dl true time v =
      start_macro-Inv env macros kbd _ _ _ dl time v
  process_macro-Inv _ kbd code d dl true time v = start_macro-Inv env macros kbd _ _ _ dl time v

  swap_macro :
      {kbd : Keyboard} (i : ℕ) (m : Macro)
      → Inv cfg kbd
      → some (kbd.config.macros i) ≡ some m
      → IsReleased false m
  swap_macro {kbd} i m v e =
      subst (IsReleased false) (some-injective _ m e)
        (subst (λ (c : Config). IsReleased false (c.macros i)) (sym v.config_is) (macros i))

  process_op-Inv :
      (process : Process) (op : Op) → Keeps cfg process → Keeps cfg (process_op env process op)
  unfolding process_op
  process_op-Inv process Op.unset h kbd code d dl pressed time v = done v
  process_op-Inv process Op.keysequence h kbd code d dl pressed time v =
      process_keysequence-Inv kbd d dl pressed time v
  process_op-Inv process Op.scroll h kbd code d dl pressed time v =
      done (process_scroll-Inv kbd d pressed v)
  process_op-Inv process Op.scroll_toggle h kbd code d dl pressed time v =
      done (process_scroll_toggle-Inv kbd d pressed v)
  process_op-Inv process Op.overload_idle_timeout h kbd code d dl pressed time v =
      process_overload_idle-Inv process h kbd code d dl pressed time v
  process_op-Inv process Op.overload_timeout_tap h kbd code d dl pressed time v =
      process_overload_timeout-Inv _ kbd code d dl pressed time v
  process_op-Inv process Op.overload_timeout h kbd code d dl pressed time v =
      process_overload_timeout-Inv _ kbd code d dl pressed time v
  process_op-Inv process Op.layout h kbd code d dl pressed time v =
      if_intro (Ensures (Inv cfg)) pressed (setlayout-Inv _ v) (done v)
  process_op-Inv process Op.layerm h kbd code d dl pressed time v =
      process_layer-Inv kbd code d.arg0 pressed v
  process_op-Inv process Op.layer h kbd code d dl pressed time v =
      process_layer-Inv kbd code d.arg0 pressed v
  process_op-Inv process Op.clearm h kbd code d dl pressed time v =
      process_clearm-Inv env macros kbd d dl pressed v
  process_op-Inv process Op.clear h kbd code d dl pressed time v =
      if_intro (Ensures (Inv cfg)) pressed (clear-Inv v) (done v)
  process_op-Inv process Op.overload h kbd code d dl pressed time v =
      process_overload-Inv env macros process h kbd code d dl pressed time v
  process_op-Inv process Op.oneshotm h kbd code d dl pressed time v =
      process_oneshot-Inv kbd code d.arg0 dl pressed time v
  process_op-Inv process Op.oneshot h kbd code d dl pressed time v =
      process_oneshot-Inv kbd code d.arg0 dl pressed time v
  process_op-Inv process Op.macro2 h kbd code d dl pressed time v =
      process_macro-Inv Op.macro2 kbd code d dl pressed time v
  process_op-Inv process Op.macro h kbd code d dl pressed time v =
      process_macro-Inv Op.macro kbd code d dl pressed time v
  process_op-Inv process Op.togglem h kbd code d dl pressed time v =
      process_toggle-Inv kbd code d.arg0 pressed v
  process_op-Inv process Op.toggle h kbd code d dl pressed time v =
      process_toggle-Inv kbd code d.arg0 pressed v
  process_op-Inv process Op.timeout h kbd code d dl pressed time v =
      process_timeout-Inv kbd code d dl pressed time v
  process_op-Inv process Op.command h kbd code d dl pressed time v =
      process_command-Inv kbd d.arg0 pressed v
  process_op-Inv process Op.swap h kbd code d dl pressed time v =
      process_swap-Inv env kbd dl d.arg0 none pressed (λ m e. cc) v
  process_op-Inv process Op.swapm h kbd code d dl pressed time v =
      process_swap-Inv env kbd dl d.arg0 _ pressed (λ m e. swap_macro d.arg1 m v e) v

  pub process_descriptor-Inv : (fuel : ℕ) → Keeps cfg (process_descriptor env fuel)
  unfolding process_descriptor
  process_descriptor-Inv zero kbd code d dl pressed time v = starves
  process_descriptor-Inv (suc fuel) kbd code d dl pressed time v =
      Ensures-bind _
        (process_op-Inv (process_descriptor env fuel) d.op (process_descriptor-Inv fuel) _ code d dl
          pressed time (entry_macro-Inv kbd d dl pressed v))
        λ k w.
          let marked : Inv cfg (record k { last_pressed_code = code }) = record {
            coherent = w.coherent;
          } in
          done (if_intro (Inv cfg) _ marked w)
