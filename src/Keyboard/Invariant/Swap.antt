-- ===== src/Keyboard/Invariant/Swap.antt =====
-- src/keyboard.c: the invariant under OP_SWAP and OP_SWAPM.
use keyd_fork.Common.{
  ℕ, zero, suc, ◌-◌, ◌%◌, ◌≡◌, refl, ◌⊎◌, inl, inr, Bool, true, false, Option, none, some, List, [],
  ◌∷◌, Option-cases, if_intro, modify, Ensures, Ensures-bind, done,
}
use keyd_fork.Config.{Config, Macro}
use keyd_fork.Keyboard.Cache.Laws.{IsDistinct, Absent}
use keyd_fork.Keyboard.Invariant.{Inv}
use keyd_fork.Keyboard.Invariant.Send.{update_mods-Inv, send_key-Inv, execute_macro-Inv}
use keyd_fork.Keyboard.Invariant.Layers.{deactivate_layer-Inv, activate_layer-Inv}
use keyd_fork.Keyboard.Send.{key_sequence}
use keyd_fork.Keyboard.State.{Keyboard, CacheEntry, set_layer_state, set_toggled, set_oneshot_depth}
use keyd_fork.Keyboard.Swap.{
  process_swap, find_holder, swap_toggled, swap_oneshot, hold_instead, swap_held, swap_down,
  swap_up,
}
use keyd_fork.Macro.{Env}
use keyd_fork.Macro.Released.{IsReleased}

Absent-hold_instead :
    (es : List CacheEntry) (c i idx : ℕ) → Absent c es → Absent c (modify es i (hold_instead idx))
unfolding hold_instead
Absent-hold_instead [] c i idx a = tt
Absent-hold_instead (e ∷ es) c zero idx a = (a.0, a.1)
Absent-hold_instead (e ∷ es) c (suc i) idx a = (a.0, Absent-hold_instead es c i idx a.1)

hold_instead-IsDistinct :
    (es : List CacheEntry) (i idx : ℕ) → IsDistinct es → IsDistinct (modify es i (hold_instead idx))
unfolding hold_instead
hold_instead-IsDistinct [] i idx v = tt
hold_instead-IsDistinct (e ∷ es) zero idx v = (v.0, v.1)
hold_instead-IsDistinct (e ∷ es) (suc i) idx v = (keep v.0, hold_instead-IsDistinct es i idx v.1)
  where
    keep :
        (e.code ≡ 0) ⊎ Absent e.code es
        → (e.code ≡ 0) ⊎ Absent e.code (modify es i (hold_instead idx))
    keep (inl z) = inl z
    keep (inr a) = inr (Absent-hold_instead es e.code i idx a)

module _ {cfg : Config} where
  swap_toggled-Inv :
      (kbd : Keyboard) (dl idx : ℕ) → Inv cfg kbd → Ensures (Inv cfg) (swap_toggled kbd dl idx)
  unfolding swap_toggled
  swap_toggled-Inv kbd dl idx v = Ensures-bind _ (deactivate_layer-Inv dl v) λ k w.
      let off : Inv cfg (set_layer_state k dl (set_toggled (k.layer_state dl) false)) = record {
        coherent = w.coherent;
      } in
      let on = activate_layer-Inv 0 idx off in
      done (update_mods-Inv none 0 (record { coherent = on.coherent }))

  swap_oneshot-Inv :
      (kbd : Keyboard) (dl idx : ℕ) → Inv cfg kbd → Ensures (Inv cfg) (swap_oneshot kbd dl idx)
  unfolding swap_oneshot
  swap_oneshot-Inv kbd dl idx v = Ensures-bind _ (deactivate_layer-Inv dl v) λ k w.
      let depth = (k.layer_state dl).oneshot_depth in
      let off : Inv cfg (set_layer_state k dl (set_oneshot_depth (k.layer_state dl) (depth - 1))) =
        record { coherent = w.coherent } in
      let on = activate_layer-Inv 0 idx off in
      done (update_mods-Inv none 0 (record { coherent = on.coherent }))

  swap_held-Inv :
      (kbd : Keyboard) (dl idx : ℕ) → Inv cfg kbd → Ensures (Inv cfg) (swap_held kbd dl idx)
  unfolding swap_held
  swap_held-Inv kbd dl idx v = elim (Option-cases (find_holder kbd.config kbd.cache dl 0)) [
    | inl missing ↦ rw (missing, swap_held) (done v)
    | inr ((i, holder), found) ↦
        let held : Inv cfg (record kbd { cache = modify kbd.cache i (hold_instead idx) }) = record {
          coherent = record {
            recorded = v.recorded;
            distinct = hold_instead-IsDistinct kbd.cache i idx v.distinct;
            config_is = v.config_is;
          };
        } in
        rw (found, swap_held)
          (Ensures-bind _ (deactivate_layer-Inv dl held)
            λ k w. done (update_mods-Inv none 0 (activate_layer-Inv holder idx w)))
  ]

  swap_down-Inv :
      (kbd : Keyboard) (dl idx : ℕ) → Inv cfg kbd → Ensures (Inv cfg) (swap_down kbd dl idx)
  unfolding swap_down
  swap_down-Inv kbd dl idx v =
      if_intro (Ensures (Inv cfg)) _ (swap_toggled-Inv kbd dl idx v) (
        if_intro (Ensures (Inv cfg)) _ (swap_oneshot-Inv kbd dl idx v) (swap_held-Inv kbd dl idx v))

  swap_up-Inv : (kbd : Keyboard) (macro : Macro) → Inv cfg kbd → Inv cfg (swap_up kbd macro)
  unfolding swap_up
  swap_up-Inv kbd macro v = elim (Option-cases (key_sequence macro)) [
    | inl long ↦ rw (long, swap_up) v
    | inr (d, single) ↦
        rw (single, swap_up) (update_mods-Inv none 0 (send_key-Inv (d % 256) false v))
  ]

  pub process_swap-Inv :
      (env : Env) (kbd : Keyboard) (dl idx : ℕ) (macro : Option Macro) (pressed : Bool)
      → ((m : Macro) → macro ≡ some m → IsReleased false m)
      → Inv cfg kbd
      → Ensures (Inv cfg) (process_swap env kbd dl idx macro pressed)
  unfolding process_swap
  process_swap-Inv env kbd dl idx none true h v =
      Ensures-bind _ (swap_down-Inv kbd dl idx v) λ k w. done w
  process_swap-Inv env kbd dl idx (some m) true h v =
      Ensures-bind _ (swap_down-Inv kbd dl idx v)
        λ k w. done (execute_macro-Inv env dl m (h m refl) w)
  process_swap-Inv env kbd dl idx none false h v = done v
  process_swap-Inv env kbd dl idx (some m) false h v = done (swap_up-Inv kbd m v)
