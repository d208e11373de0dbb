-- ===== src/Keyboard/Events/Pending.antt =====
-- src/keyboard.c, handle_pending_key: a key whose meaning waits for time or for another key.
use keyd_fork.Common.{
  ℕ, Bool, true, false, not, ◌&&◌, ◌||◌, Option, none, some, List, [], ◌∷◌, ◌++◌, ltb, leb, ◌==◌,
  if◌then◌else◌, length, Result, ◌>>=◌, ok, aborted, pending_queue_full,
}
use keyd_fork.Config.{Op, Descriptor, is_set, unset_descriptor}
use keyd_fork.Keys.{keyd_noop}
use keyd_fork.Keyboard.Cache.{cache_set}
use keyd_fork.Keyboard.Descriptors.{process_descriptor}
use keyd_fork.Keyboard.Events.Queue.{Step, process_events}
use keyd_fork.Keyboard.State.{CacheEntry, KeyEvent, PendingKey, Behaviour, Keyboard}
use keyd_fork.Macro.{Env}

unfoldable pub is_queued : ℕ → List KeyEvent → Bool
is_queued code [] = false
is_queued code (e ∷ es) = e.code == code || is_queued code es

-- A release of a key that was struck before the pending key: it is not held back.
unfoldable pub is_earlier_release : PendingKey → ℕ → Bool → Bool
unfolding is_queued
is_earlier_release p code pressed =
    not (code == 0) && not pressed && not (is_queued code p.queue) && not (code == p.code)

unfoldable pub enqueue : PendingKey → ℕ → Bool → ℕ → PendingKey
enqueue p code pressed time =
    let event : KeyEvent = record { code = code; pressed = pressed; timestamp = time } in
    if code == 0 then p else record p { queue = p.queue ++ (event ∷ []) }

abbrev noop_action : Descriptor
noop_action = record { op = Op.keysequence; arg0 = keyd_noop; arg1 = 0; arg2 = 0 }

-- The branches on the behaviour.
unfoldable pub interrupted : PendingKey → Behaviour → ℕ → Bool → Descriptor
unfolding is_queued
interrupted p Behaviour.interrupt_action1 code pressed =
    if not (code == 0) && pressed then p.action1 else unset_descriptor
interrupted p Behaviour.interrupt_action2 code pressed =
    if not (code == 0) && pressed then p.action2 else unset_descriptor
interrupted p Behaviour.uninterruptible code pressed = unset_descriptor
interrupted p Behaviour.uninterruptible_tap_action2 code pressed =
    if not pressed && is_queued code p.queue then p.action2 else unset_descriptor

-- The action that the event decides on, unset if it decides nothing. The queue has the event.
unfoldable pub decide_action : PendingKey → ℕ → Bool → ℕ → Descriptor
unfolding interrupted
decide_action p code pressed time =
    if leb p.expire time
    then p.action2
    else if code == p.code
    then (if not (p.tap_expiry == 0) && leb p.tap_expiry time then noop_action else p.action1)
    else interrupted p p.behaviour code pressed

-- `cache_set` with its result ignored.
unfoldable pub try_cache_set : Keyboard → ℕ → Option CacheEntry → Keyboard
try_cache_set kbd code ent = elim (cache_set kbd code ent) [ none ↦ kbd | some kbd' ↦ kbd' ]

-- The decided action takes place, and the events held back are replayed.
unfoldable pub carry_out : Env → ℕ → Step → Keyboard → PendingKey → Descriptor → ℕ → Result Keyboard
carry_out env fuel step kbd p action time = do
  let kbd = record kbd { pending_key = record p { code = 0; queue = []; tap_expiry = 0 } }
  let entry : CacheEntry = record { code = 0; d = action; dl = p.dl; layer = 0 }
  let kbd = try_cache_set kbd p.code (some entry)
  kbd ← process_descriptor env fuel kbd p.code action p.dl true time
  (_, kbd) ← process_events fuel step kbd p.queue 0 0
  ok kbd

unfoldable pub decide_pending :
    Env → ℕ → Step → Keyboard → PendingKey → ℕ → Bool → ℕ → Result Keyboard
decide_pending env fuel step kbd p code pressed time =
    let action = decide_action p code pressed time in
    if is_set action.op
    then carry_out env fuel step kbd p action time
    else ok (record kbd { pending_key = p })

-- Whether the event was taken, and the keyboard.
unfoldable pub handle_pending_key :
    Env → ℕ → Step → Keyboard → ℕ → Bool → ℕ → Result (Bool × Keyboard)
handle_pending_key env fuel step kbd code pressed time =
    let p = kbd.pending_key in
    if p.code == 0
    then ok (false, kbd)
    else if not (code == 0) && not (ltb (length p.queue) 32)
    then aborted pending_queue_full
    else if is_earlier_release p code pressed
    then ok (false, kbd)
    else (do
      kbd ← decide_pending env fuel step kbd (enqueue p code pressed time) code pressed time
      ok (true, kbd))
