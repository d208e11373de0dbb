-- ===== src/Keyboard/Timeouts.antt =====
-- src/keyboard.c, schedule_timeout and calculate_main_loop_timeout.
pub mod Earliest
use keyd_fork.Common.{
  ℕ, ◌-◌, ◌&&◌, ◌||◌, List, [], ◌∷◌, ◌++◌, ltb, ◌==◌, if◌then◌else◌, length, Result, ok, aborted,
  timeouts_full,
}
use keyd_fork.Keyboard.State.{Keyboard}

unfoldable pub schedule_timeout : Keyboard → ℕ → Result Keyboard
schedule_timeout kbd timeout =
    if ltb (length kbd.timeouts) 64
    then ok (record kbd { timeouts = kbd.timeouts ++ (timeout ∷ []) })
    else aborted timeouts_full

-- The entries that the loop keeps.
pub pending : ℕ → List ℕ → List ℕ
pending time [] = []
pending time (t ∷ ts) = if ltb time t then t ∷ pending time ts else pending time ts

-- The loop's variable `timeout`; 0 is none yet.
pub earliest : ℕ → ℕ → List ℕ → ℕ
earliest time timeout [] = timeout
earliest time timeout (t ∷ ts) =
    earliest time (if ltb time t && (timeout == 0 || ltb t timeout) then t else timeout) ts

unfoldable pub calculate_main_loop_timeout : Keyboard → ℕ → ℕ × Keyboard
unfolding pending earliest
calculate_main_loop_timeout kbd time =
    let timeout = earliest time 0 kbd.timeouts in
    (
      if timeout == 0 then 0 else timeout - time,
      record kbd { timeouts = pending time kbd.timeouts },
    )
