-- ===== src/Keyboard/Fuel/Actions.antt =====
-- src/keyboard.c: the cases of process_descriptor that refer to no descriptor need no fuel.
use keyd_fork.Common.{
  ℕ, inl, inr, Bool, true, false, Option, Option-cases, if_intro, IsFueled, IsFueled-bind, returned,
}
use keyd_fork.Config.{Descriptor, Macro}
use keyd_fork.Keyboard.Actions.{
  key_sequence_down, process_keysequence, process_overload_timeout, process_timeout, process_layer,
  latch_oneshot, process_oneshot, process_toggle, process_command, process_clearm, start_macro,
}
use keyd_fork.Keyboard.Fuel.Layers.{
  deactivate_layer-IsFueled, schedule_timeout-IsFueled, clear_oneshot-IsFueled, clear-IsFueled,
}
use keyd_fork.Keyboard.State.{Keyboard, Behaviour}
use keyd_fork.Keyboard.Swap.{
  swap_toggled, swap_oneshot, swap_held, swap_down, process_swap, find_holder,
}
use keyd_fork.Macro.{Env}

key_sequence_down-IsFueled :
    (kbd : Keyboard) (code mods dl : ℕ) → IsFueled (key_sequence_down kbd code mods dl)
unfolding key_sequence_down
key_sequence_down-IsFueled kbd code mods dl = clear_oneshot-IsFueled _

pub process_keysequence-IsFueled :
    (kbd : Keyboard) (d : Descriptor) (dl : ℕ) (pressed : Bool) (time : ℕ)
    → IsFueled (process_keysequence kbd d dl pressed time)
unfolding process_keysequence
process_keysequence-IsFueled kbd d dl pressed time =
    IsFueled-bind _ (if_intro IsFueled pressed (clear_oneshot-IsFueled _) (returned _))
      λ k. returned _

pub process_overload_timeout-IsFueled :
    (behaviour : Behaviour) (kbd : Keyboard) (code : ℕ) (d : Descriptor) (dl : ℕ) (pressed : Bool)
    (time : ℕ)
    → IsFueled (process_overload_timeout behaviour kbd code d dl pressed time)
unfolding process_overload_timeout
process_overload_timeout-IsFueled behaviour kbd code d dl pressed time =
    if_intro IsFueled pressed (schedule_timeout-IsFueled _ _) (returned _)

pub process_timeout-IsFueled :
    (kbd : Keyboard) (code : ℕ) (d : Descriptor) (dl : ℕ) (pressed : Bool) (time : ℕ)
    → IsFueled (process_timeout kbd code d dl pressed time)
unfolding process_timeout
process_timeout-IsFueled kbd code d dl pressed time =
    if_intro IsFueled pressed (schedule_timeout-IsFueled _ _) (returned _)

pub process_layer-IsFueled :
    (kbd : Keyboard) (code idx : ℕ) (pressed : Bool) → IsFueled (process_layer kbd code idx pressed)
unfolding process_layer
process_layer-IsFueled kbd code idx pressed =
    IsFueled-bind _ (if_intro IsFueled pressed (returned _) (deactivate_layer-IsFueled kbd idx))
      λ k. returned _

latch_oneshot-IsFueled : (kbd : Keyboard) (idx time : ℕ) → IsFueled (latch_oneshot kbd idx time)
unfolding latch_oneshot
latch_oneshot-IsFueled kbd idx time =
    if_intro IsFueled _ (returned _) (schedule_timeout-IsFueled _ _)

pub process_oneshot-IsFueled :
    (kbd : Keyboard) (code idx dl : ℕ) (pressed : Bool) (time : ℕ)
    → IsFueled (process_oneshot kbd code idx dl pressed time)
unfolding process_oneshot
process_oneshot-IsFueled kbd code idx dl pressed time = if_intro IsFueled pressed (returned _) (
    if_intro IsFueled kbd.oneshot_latch (latch_oneshot-IsFueled kbd idx time)
      (IsFueled-bind _ (deactivate_layer-IsFueled kbd idx) λ k. returned _))

pub process_toggle-IsFueled :
    (kbd : Keyboard) (code idx : ℕ) (pressed : Bool)
    → IsFueled (process_toggle kbd code idx pressed)
unfolding process_toggle
process_toggle-IsFueled kbd code idx pressed =
    if_intro IsFueled pressed
      (IsFueled-bind _ (if_intro IsFueled _ (deactivate_layer-IsFueled _ idx) (returned _))
        λ k. clear_oneshot-IsFueled _)
      (returned _)

pub process_command-IsFueled :
    (kbd : Keyboard) (idx : ℕ) (pressed : Bool) → IsFueled (process_command kbd idx pressed)
unfolding process_command
process_command-IsFueled kbd idx pressed =
    if_intro IsFueled pressed (IsFueled-bind _ (clear_oneshot-IsFueled _) λ k. returned _)
      (returned _)

pub process_clearm-IsFueled :
    (env : Env) (kbd : Keyboard) (d : Descriptor) (dl : ℕ) (pressed : Bool)
    → IsFueled (process_clearm env kbd d dl pressed)
unfolding process_clearm
process_clearm-IsFueled env kbd d dl pressed =
    if_intro IsFueled pressed (IsFueled-bind _ (clear-IsFueled kbd) λ k. returned _) (returned _)

pub start_macro-IsFueled :
    (env : Env) (kbd : Keyboard) (idx timeout interval dl time : ℕ)
    → IsFueled (start_macro env kbd idx timeout interval dl time)
unfolding start_macro
start_macro-IsFueled env kbd idx timeout interval dl time =
    IsFueled-bind _ (clear_oneshot-IsFueled _) λ k. schedule_timeout-IsFueled _ _

swap_held-IsFueled : (kbd : Keyboard) (dl idx : ℕ) → IsFueled (swap_held kbd dl idx)
unfolding swap_held
swap_held-IsFueled kbd dl idx = elim (Option-cases (find_holder kbd.config kbd.cache dl 0)) [
  | inl missing ↦ rw (missing, swap_held) (returned _)
  | inr ((i, holder), found) ↦
      rw (found, swap_held) (IsFueled-bind _ (deactivate_layer-IsFueled _ dl) λ k. returned _)
]

swap_toggled-IsFueled : (kbd : Keyboard) (dl idx : ℕ) → IsFueled (swap_toggled kbd dl idx)
unfolding swap_toggled
swap_toggled-IsFueled kbd dl idx =
    IsFueled-bind _ (deactivate_layer-IsFueled kbd dl) λ k. returned _

swap_oneshot-IsFueled : (kbd : Keyboard) (dl idx : ℕ) → IsFueled (swap_oneshot kbd dl idx)
unfolding swap_oneshot
swap_oneshot-IsFueled kbd dl idx =
    IsFueled-bind _ (deactivate_layer-IsFueled kbd dl) λ k. returned _

swap_down-IsFueled : (kbd : Keyboard) (dl idx : ℕ) → IsFueled (swap_down kbd dl idx)
unfolding swap_down
swap_down-IsFueled kbd dl idx =
    if_intro IsFueled (kbd.layer_state dl).toggled (swap_toggled-IsFueled kbd dl idx)
      (if_intro IsFueled _ (swap_oneshot-IsFueled kbd dl idx) (swap_held-IsFueled kbd dl idx))

pub process_swap-IsFueled :
    (env : Env) (kbd : Keyboard) (dl idx : ℕ) (macro : Option Macro) (pressed : Bool)
    → IsFueled (process_swap env kbd dl idx macro pressed)
unfolding process_swap
process_swap-IsFueled env kbd dl idx macro true =
    IsFueled-bind _ (swap_down-IsFueled kbd dl idx) λ k. returned _
process_swap-IsFueled env kbd dl idx macro false = returned _
