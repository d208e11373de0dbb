-- ===== src/Keyboard/Invariant/Events/Pending.antt =====
-- src/keyboard.c: the invariant under handle_pending_key.
use keyd_fork.Common.{
  ℕ, ◌≡◌, sym, subst, ◌≢◌, inl, inr, Bool, true, Option, some, arith, ◌==◌, ==_ne, Option-cases,
  if_intro, if_split, Ensures, Ensures-bind, done, aborts,
}
use keyd_fork.Config.{Config, Descriptor}
use keyd_fork.Keyboard.Cache.{cache_set}
use keyd_fork.Keyboard.Cache.Laws.{cache_set-IsDistinct, cache_set_frame}
use keyd_fork.Keyboard.Events.Pending.{
  handle_pending_key, enqueue, try_cache_set, carry_out, decide_pending,
}
use keyd_fork.Keyboard.Events.Queue.{Step}
use keyd_fork.Keyboard.Invariant.{Inv, HasReleasedMacros}
use keyd_fork.Keyboard.Invariant.Events.Queue.{StepKeeps, ResultInv, process_events-Inv}
use keyd_fork.Keyboard.Invariant.Descriptors.{process_descriptor-Inv}
use keyd_fork.Keyboard.State.{Keyboard, CacheEntry, PendingKey}
use keyd_fork.Macro.{Env}

module _ {cfg : Config} where
  -- The keyboard after a successful `cache_set` of a key's code.
  pub cache_set-Inv :
      (kbd : Keyboard) {kbd' : Keyboard} (code : ℕ) (ent : Option CacheEntry)
      → code ≢ 0
      → cache_set kbd code ent ≡ some kbd'
      → Inv cfg kbd
      → Inv cfg kbd'
  cache_set-Inv kbd {kbd'} code ent h e v =
      subst (Inv cfg) (sym (cache_set_frame kbd code ent e)) (record {
        coherent = record {
          recorded = v.recorded;
          distinct = cache_set-IsDistinct kbd code ent v.distinct e h;
          config_is = v.config_is;
        };
      })

  -- Where `cache_set` may fail and its result is not looked at.
  pub try_cache_set-Inv :
      (kbd : Keyboard) (code : ℕ) (ent : Option CacheEntry)
      → code ≢ 0
      → Inv cfg kbd
      → Inv cfg (try_cache_set kbd code ent)
  unfolding try_cache_set
  try_cache_set-Inv kbd code ent h v = elim (Option-cases (cache_set kbd code ent)) [
    | inl full ↦ rw (full, try_cache_set) v
    | inr (k, stored) ↦ rw (stored, try_cache_set) (cache_set-Inv kbd code ent h stored v)
  ]

module _ {cfg : Config} (env : Env) (macros : HasReleasedMacros cfg) (fuel : ℕ) (step : Step)
    (h : StepKeeps cfg step) where
  carry_out-Inv :
      (kbd : Keyboard) (p : PendingKey) (action : Descriptor) (time : ℕ)
      → p.code ≢ 0
      → Inv cfg kbd
      → Ensures (Inv cfg) (carry_out env fuel step kbd p action time)
  unfolding carry_out
  carry_out-Inv kbd p action time hc v =
      Ensures-bind _
        (process_descriptor-Inv env macros fuel _ p.code action p.dl true time
          (try_cache_set-Inv _ p.code _ hc (record { coherent = v.coherent })))
        λ k w. Ensures-bind _ (process_events-Inv fuel step h k p.queue 0 0 w) λ r u. done u

  decide_pending-Inv :
      (kbd : Keyboard) (p : PendingKey) (code : ℕ) (pressed : Bool) (time : ℕ)
      → p.code ≢ 0
      → Inv cfg kbd
      → Ensures (Inv cfg) (decide_pending env fuel step kbd p code pressed time)
  unfolding decide_pending
  decide_pending-Inv kbd p code pressed time hc v =
      if_intro (Ensures (Inv cfg)) _ (carry_out-Inv kbd p _ time hc v)
        (done (record { coherent = v.coherent }))

  enqueue-code :
      (p : PendingKey) (code : ℕ) (pressed : Bool) (time : ℕ)
      → (enqueue p code pressed time).code ≡ p.code
  unfolding enqueue
  enqueue-code p code pressed time = ground arith

  pub handle_pending_key-Inv :
      (kbd : Keyboard) (code : ℕ) (pressed : Bool) (time : ℕ)
      → Inv cfg kbd
      → Ensures (ResultInv cfg) (handle_pending_key env fuel step kbd code pressed time)
  unfolding handle_pending_key
  handle_pending_key-Inv kbd code pressed time v =
      if_split (Ensures (ResultInv cfg)) (kbd.pending_key.code == 0) (λ _. done v)
        λ some_key. if_intro (Ensures (ResultInv cfg)) _ aborts (
          if_intro (Ensures (ResultInv cfg)) _ (done v) (
            Ensures-bind _
              (decide_pending-Inv kbd _ code pressed time
                (rw (enqueue-code kbd.pending_key code pressed time) (==_ne _ 0 some_key)) v)
              λ k w. done w))
