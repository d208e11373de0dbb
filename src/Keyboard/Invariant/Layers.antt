-- ===== src/Keyboard/Invariant/Layers.antt =====
-- src/keyboard.c: the invariant under the operations on layers, timeouts and the cache.
use keyd_fork.Common.{
  ℕ, zero, suc, ◌≡◌, refl, ◌⊎◌, inl, inr, Bool, true, false, List, [], ◌∷◌, ◌==◌, if_intro, Ensures,
  Ensures-bind, done, aborts,
}
use keyd_fork.Config.{Config}
use keyd_fork.Keyboard.Cache.{update_entry}
use keyd_fork.Keyboard.Cache.Laws.{IsDistinct, Absent}
use keyd_fork.Keyboard.Invariant.{Inv}
use keyd_fork.Keyboard.Invariant.Send.{reset_keystate-Inv}
use keyd_fork.Keyboard.Layers.{
  activate_layer, deactivate_layer, drain_oneshot, drain_oneshots, clear_oneshot, clear_toggles,
  clear, setlayout,
}
use keyd_fork.Keyboard.Timeouts.{schedule_timeout}
use keyd_fork.Keyboard.State.{Keyboard, CacheEntry, put, set_layer_state, set_oneshot_depth}
use keyd_fork.Output.{layer_change}

Absent-update_entry :
    (es : List CacheEntry) (c code : ℕ) (f : CacheEntry → CacheEntry)
    → ((e : CacheEntry) → (f e).code ≡ e.code)
    → Absent c es
    → Absent c (update_entry es code f)
unfolding update_entry
Absent-update_entry [] c code f h a = tt
Absent-update_entry (e ∷ es) c code f h a =
    let changed : Absent c (f e ∷ es) = (rw (h e) a.0, a.1) in
    let kept : Absent c (e ∷ update_entry es code f) =
      (a.0, Absent-update_entry es c code f h a.1) in
    if_intro (Absent c) (e.code == code) changed kept

-- A write to an entry that leaves its code alone.
pub update_entry-IsDistinct :
    (es : List CacheEntry) (code : ℕ) (f : CacheEntry → CacheEntry)
    → ((e : CacheEntry) → (f e).code ≡ e.code)
    → IsDistinct es
    → IsDistinct (update_entry es code f)
unfolding update_entry
update_entry-IsDistinct [] code f h v = tt
update_entry-IsDistinct (e ∷ es) code f h v =
    let changed : IsDistinct (f e ∷ es) = (rw (h e) v.0, v.1) in
    let kept : IsDistinct (e ∷ update_entry es code f) =
      (keep v.0, update_entry-IsDistinct es code f h v.1) in
    if_intro IsDistinct (e.code == code) changed kept
  where
    keep : (e.code ≡ 0) ⊎ Absent e.code es → (e.code ≡ 0) ⊎ Absent e.code (update_entry es code f)
    keep (inl z) = inl z
    keep (inr a) = inr (Absent-update_entry es e.code code f h a)

module _ {cfg : Config} where
  pub put-Inv :
      {kbd : Keyboard} (idx : ℕ) (b : Bool) → Inv cfg kbd → Inv cfg (put kbd (layer_change idx b))
  put-Inv idx b v = record {
    coherent = record { recorded = v.recorded; distinct = v.distinct; config_is = v.config_is };
  }

  pub deactivate_layer-Inv :
      {kbd : Keyboard} (idx : ℕ) → Inv cfg kbd → Ensures (Inv cfg) (deactivate_layer kbd idx)
  unfolding deactivate_layer
  deactivate_layer-Inv idx v =
      if_intro (Ensures (Inv cfg)) _ (done (put-Inv idx false (record { coherent = v.coherent })))
        aborts

  pub activate_layer-Inv :
      {kbd : Keyboard} (code idx : ℕ) → Inv cfg kbd → Inv cfg (activate_layer kbd code idx)
  unfolding activate_layer
  activate_layer-Inv {kbd} code idx v = record {
    coherent = record {
      recorded = v.recorded;
      distinct = update_entry-IsDistinct kbd.cache code _ (λ e. refl) v.distinct;
      config_is = v.config_is;
    };
  }

  drain_oneshot-Inv :
      (kbd : Keyboard) (i n : ℕ) → Inv cfg kbd → Ensures (Inv cfg) (drain_oneshot kbd i n)
  unfolding drain_oneshot
  drain_oneshot-Inv kbd i zero v = done v
  drain_oneshot-Inv kbd i (suc n) v = Ensures-bind _ (deactivate_layer-Inv i v) λ k w.
      drain_oneshot-Inv (set_layer_state k i (set_oneshot_depth (k.layer_state i) n)) i n
        (record { coherent = w.coherent })

  drain_oneshots-Inv :
      (kbd : Keyboard) (is : List ℕ) → Inv cfg kbd → Ensures (Inv cfg) (drain_oneshots kbd is)
  unfolding drain_oneshots
  drain_oneshots-Inv kbd [] v = done v
  drain_oneshots-Inv kbd (i ∷ is) v =
      Ensures-bind _ (drain_oneshot-Inv kbd i _ v) λ k w. drain_oneshots-Inv k is w

  pub clear_oneshot-Inv : {kbd : Keyboard} → Inv cfg kbd → Ensures (Inv cfg) (clear_oneshot kbd)
  unfolding clear_oneshot
  clear_oneshot-Inv {kbd} v =
      Ensures-bind _ (drain_oneshots-Inv kbd _ v) λ k w. done (record { coherent = w.coherent })

  clear_toggles-Inv :
      (kbd : Keyboard) (is : List ℕ) → Inv cfg kbd → Ensures (Inv cfg) (clear_toggles kbd is)
  unfolding clear_toggles
  clear_toggles-Inv kbd [] v = done v
  clear_toggles-Inv kbd (i ∷ is) v =
      Ensures-bind _
        (if_intro (Ensures (Inv cfg)) _ (deactivate_layer-Inv i (record { coherent = v.coherent }))
          (done v))
        λ k w. clear_toggles-Inv k is w

  pub clear-Inv : {kbd : Keyboard} → Inv cfg kbd → Ensures (Inv cfg) (clear kbd)
  unfolding clear
  clear-Inv v = Ensures-bind _ (clear_oneshot-Inv v) λ k w.
      Ensures-bind _ (clear_toggles-Inv k _ w)
        λ k' w'. done (reset_keystate-Inv (record { coherent = w'.coherent }))

  pub setlayout-Inv :
      {kbd : Keyboard} (idx : ℕ) → Inv cfg kbd → Ensures (Inv cfg) (setlayout kbd idx)
  unfolding setlayout
  setlayout-Inv idx v =
      Ensures-bind _ (clear-Inv v) λ k w. done (put-Inv idx true (record { coherent = w.coherent }))

  pub schedule_timeout-Inv :
      {kbd : Keyboard} (t : ℕ) → Inv cfg kbd → Ensures (Inv cfg) (schedule_timeout kbd t)
  unfolding schedule_timeout
  schedule_timeout-Inv t v =
      if_intro (Ensures (Inv cfg)) _ (done (record { coherent = v.coherent })) aborts
