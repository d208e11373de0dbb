-- ===== src/Keyboard/Invariant/Send.antt =====
-- src/keyboard.c: the invariant under send_key, set_mods, update_mods, execute_macro and
-- reset_keystate.
use keyd_fork.Common.{
  ℕ, ◌/◌, ◌%◌, inl, inr, Bool, true, false, Option, some, List, [], ◌∷◌, arith, Option-cases,
  if_intro, range,
}
use keyd_fork.Config.{Config, Macro}
use keyd_fork.Keys.{Modifier, modifiers, keyd_leftctrl}
use keyd_fork.Keyboard.Invariant.{Inv}
use keyd_fork.Keyboard.Send.{
  send_key, reset_key, reset_keys, reset_keystate, clear_mod, set_mod, set_mods_loop, set_mods,
  update_mods, key_sequence, execute_macro,
}
use keyd_fork.Keyboard.State.{Keyboard, put_all}
use keyd_fork.Macro.{Env}
use keyd_fork.Macro.Released.{IsReleased, macro_execute-Releases}
use keyd_fork.Output.{Output, Releases}

module _ {cfg : Config} where
  pub send_key-Inv :
      {kbd : Keyboard} (code : ℕ) (pressed : Bool)
      → Inv cfg kbd
      → Inv cfg (send_key kbd code pressed)
  unfolding send_key
  send_key-Inv code true v = record {
    coherent = record {
      recorded = λ c d. ground (arith, v.recorded c);
      distinct = ground (arith, v.distinct);
      config_is = ground (arith, v.config_is);
    };
  }
  send_key-Inv code false v = record {
    coherent = record {
      recorded = λ c d. ground (arith, v.recorded c);
      distinct = ground (arith, v.distinct);
      config_is = ground (arith, v.config_is);
    };
  }

  clear_mod-Inv : {kbd : Keyboard} (code : ℕ) → Inv cfg kbd → Inv cfg (clear_mod kbd code)
  unfolding clear_mod
  clear_mod-Inv code v =
      if_intro (Inv cfg) _
        (send_key-Inv keyd_leftctrl false
          (send_key-Inv code false (send_key-Inv keyd_leftctrl true v)))
        (send_key-Inv code false v)

  set_mod-Inv :
      {kbd : Keyboard} (mods : ℕ) (m : Modifier) → Inv cfg kbd → Inv cfg (set_mod kbd mods m)
  unfolding set_mod
  set_mod-Inv mods m v =
      if_intro (Inv cfg) _ (if_intro (Inv cfg) _ v (send_key-Inv m.key true v))
        (if_intro (Inv cfg) _ (clear_mod-Inv m.key v) v)

  set_mods_loop-Inv :
      (kbd : Keyboard) (mods : ℕ) (ms : List Modifier)
      → Inv cfg kbd
      → Inv cfg (set_mods_loop kbd mods ms)
  unfolding set_mods_loop
  set_mods_loop-Inv kbd mods [] v = v
  set_mods_loop-Inv kbd mods (m ∷ ms) v =
      set_mods_loop-Inv (set_mod kbd mods m) mods ms (set_mod-Inv mods m v)

  set_mods-Inv : {kbd : Keyboard} (mods : ℕ) → Inv cfg kbd → Inv cfg (set_mods kbd mods)
  unfolding set_mods
  set_mods-Inv {kbd} mods v = set_mods_loop-Inv kbd mods modifiers v

  pub update_mods-Inv :
      {kbd : Keyboard} (excluded : Option ℕ) (mods : ℕ)
      → Inv cfg kbd
      → Inv cfg (update_mods kbd excluded mods)
  unfolding update_mods
  update_mods-Inv excluded mods v = set_mods-Inv _ v

  put_all-Inv :
      {kbd : Keyboard} (xs : List Output) → Releases xs → Inv cfg kbd → Inv cfg (put_all kbd xs)
  put_all-Inv {kbd} xs h v = record {
    coherent = record {
      recorded = λ c d. v.recorded c (h kbd.out c d);
      distinct = v.distinct;
      config_is = v.config_is;
    };
  }

  pub execute_macro-Inv :
      (env : Env) {kbd : Keyboard} (dl : ℕ) (macro : Macro)
      → IsReleased false macro
      → Inv cfg kbd
      → Inv cfg (execute_macro env kbd dl macro)
  unfolding execute_macro
  execute_macro-Inv env dl macro h v = elim (Option-cases (key_sequence macro)) [
    | inl long ↦
        rw (long, execute_macro)
          (put_all-Inv _ (macro_execute-Releases env macro _ h) (update_mods-Inv (some dl) 0 v))
    | inr (d, single) ↦
        rw (single, execute_macro)
          (send_key-Inv (d % 256) false
            (send_key-Inv (d % 256) true (update_mods-Inv (some dl) (d / 256) v)))
  ]

  reset_key-Inv : {kbd : Keyboard} (i : ℕ) → Inv cfg kbd → Inv cfg (reset_key kbd i)
  unfolding reset_key
  reset_key-Inv i v = record {
    coherent = record {
      recorded = λ c d. ground (arith, v.recorded c);
      distinct = ground (arith, v.distinct);
      config_is = ground (arith, v.config_is);
    };
  }

  reset_keys-Inv : (kbd : Keyboard) (is : List ℕ) → Inv cfg kbd → Inv cfg (reset_keys kbd is)
  unfolding reset_keys
  reset_keys-Inv kbd [] v = v
  reset_keys-Inv kbd (i ∷ is) v = reset_keys-Inv (reset_key kbd i) is (reset_key-Inv i v)

  pub reset_keystate-Inv : {kbd : Keyboard} → Inv cfg kbd → Inv cfg (reset_keystate kbd)
  unfolding reset_keystate
  reset_keystate-Inv {kbd} v = reset_keys-Inv kbd (range 256) v
