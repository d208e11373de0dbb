-- ===== src/Keyboard/Fuel/Layers.antt =====
-- src/keyboard.c: the operations on layers need no fuel.
use keyd_fork.Common.{
  ℕ, zero, suc, List, [], ◌∷◌, if_intro, IsFueled, IsFueled-bind, returned, failed,
}
use keyd_fork.Keyboard.Layers.{
  deactivate_layer, drain_oneshot, drain_oneshots, clear_oneshot, clear_toggles, clear, setlayout,
}
use keyd_fork.Keyboard.State.{Keyboard}
use keyd_fork.Keyboard.Timeouts.{schedule_timeout}

pub deactivate_layer-IsFueled : (kbd : Keyboard) (i : ℕ) → IsFueled (deactivate_layer kbd i)
unfolding deactivate_layer
deactivate_layer-IsFueled kbd i = if_intro IsFueled _ (returned _) (failed _)

pub schedule_timeout-IsFueled : (kbd : Keyboard) (t : ℕ) → IsFueled (schedule_timeout kbd t)
unfolding schedule_timeout
schedule_timeout-IsFueled kbd t = if_intro IsFueled _ (returned _) (failed _)

drain_oneshot-IsFueled : (i n : ℕ) (kbd : Keyboard) → IsFueled (drain_oneshot kbd i n)
unfolding drain_oneshot
drain_oneshot-IsFueled i zero kbd = returned _
drain_oneshot-IsFueled i (suc n) kbd =
    IsFueled-bind _ (deactivate_layer-IsFueled kbd i) λ k. drain_oneshot-IsFueled i n _

drain_oneshots-IsFueled : (kbd : Keyboard) (is : List ℕ) → IsFueled (drain_oneshots kbd is)
unfolding drain_oneshots
drain_oneshots-IsFueled kbd [] = returned _
drain_oneshots-IsFueled kbd (i ∷ is) =
    IsFueled-bind _ (drain_oneshot-IsFueled i _ kbd) λ k. drain_oneshots-IsFueled k is

pub clear_oneshot-IsFueled : (kbd : Keyboard) → IsFueled (clear_oneshot kbd)
unfolding clear_oneshot
clear_oneshot-IsFueled kbd = IsFueled-bind _ (drain_oneshots-IsFueled kbd _) λ k. returned _

clear_toggles-IsFueled : (kbd : Keyboard) (is : List ℕ) → IsFueled (clear_toggles kbd is)
unfolding clear_toggles
clear_toggles-IsFueled kbd [] = returned _
clear_toggles-IsFueled kbd (i ∷ is) =
    IsFueled-bind _ (if_intro IsFueled _ (deactivate_layer-IsFueled _ i) (returned _))
      λ k. clear_toggles-IsFueled k is

pub clear-IsFueled : (kbd : Keyboard) → IsFueled (clear kbd)
unfolding clear
clear-IsFueled kbd =
    IsFueled-bind _ (clear_oneshot-IsFueled kbd)
      λ k. IsFueled-bind _ (clear_toggles-IsFueled k _) λ l. returned _

pub setlayout-IsFueled : (kbd : Keyboard) (idx : ℕ) → IsFueled (setlayout kbd idx)
unfolding setlayout
setlayout-IsFueled kbd idx = IsFueled-bind _ (clear-IsFueled kbd) λ k. returned _
