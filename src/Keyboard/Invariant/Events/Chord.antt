-- ===== src/Keyboard/Invariant/Events/Chord.antt =====
-- src/keyboard.c: the invariant under handle_chord.
use keyd_fork.Common.{
  ℕ, ◌+◌, inl, inr, Bool, true, false, Option, none, some, ltb, ◌==◌, Option-cases, if_intro,
  length, Ensures, Ensures-bind, ok, done, aborts,
}
use keyd_fork.Config.{Config, Chord}
use keyd_fork.Keys.{keyd_chord_1}
use keyd_fork.Keyboard.Chords.{ChordMatch, check_chord_match, enqueue_chord_event}
use keyd_fork.Keyboard.Events.Chord.{
  Handled, set_chord_state, free_slot, activate_chord, resolve_chord, abort_chord,
  release_chord_key, await_next_key, hold_match, follow_match, start_chord, disambiguate_timeout,
  disambiguate_key, hold_key, in_state, handle_chord, pending_match, interkey_expired,
}
use keyd_fork.Keyboard.Events.Queue.{Step}
use keyd_fork.Keyboard.Invariant.{Inv}
use keyd_fork.Keyboard.Invariant.Events.Queue.{StepKeeps, ResultInv, process_events-Inv}
use keyd_fork.Keyboard.Invariant.Layers.{schedule_timeout-Inv}
use keyd_fork.Keyboard.State.{Keyboard, ActiveChord, ChordState, ChordRef}

module _ {cfg : Config} where
  set_chord_state-Inv :
      {kbd : Keyboard} (s : ChordState) → Inv cfg kbd → Inv cfg (set_chord_state kbd s)
  unfolding set_chord_state
  set_chord_state-Inv s v = record { coherent = v.coherent }

  enqueue_chord_event-Inv :
      (kbd : Keyboard) (code : ℕ) (pressed : Bool) (time : ℕ)
      → Inv cfg kbd
      → Ensures (Inv cfg) (enqueue_chord_event kbd code pressed time)
  unfolding enqueue_chord_event
  enqueue_chord_event-Inv kbd code pressed time v =
      if_intro (Ensures (Inv cfg)) (code == 0) (done v) (
        if_intro (Ensures (Inv cfg)) (ltb (length kbd.chord.queue) 32)
          (done (record { coherent = v.coherent })) aborts)

  check_chord_match-Inv : {kbd : Keyboard} → Inv cfg kbd → Inv cfg (check_chord_match kbd).1
  unfolding check_chord_match
  check_chord_match-Inv v = record { coherent = v.coherent }

  await_next_key-Inv :
      (kbd : Keyboard) (time : ℕ) → Inv cfg kbd → Ensures (ResultInv cfg) (await_next_key kbd time)
  unfolding await_next_key
  await_next_key-Inv kbd time v =
      Ensures-bind _ (schedule_timeout-Inv _ (record { coherent = v.coherent })) λ k w. done w

module _ {cfg : Config} (fuel : ℕ) (step : Step) (h : StepKeeps cfg step) where
  activate_chord-Inv :
      (kbd : Keyboard) (chord : Chord)
      → Inv cfg kbd
      → Ensures (Inv cfg) (activate_chord step kbd chord)
  unfolding activate_chord
  activate_chord-Inv kbd chord v = elim (Option-cases (free_slot kbd.active_chords 0)) [
    | inl full ↦ rw (full, activate_chord) aborts
    | inr (i, free) ↦
        rw (free, activate_chord)
          (Ensures-bind _ (h _ (keyd_chord_1 + i) true _ (record { coherent = v.coherent }))
            λ r w. done w)
  ]

  activate_pending-Inv :
      (chord : Option Chord) (kbd : Keyboard)
      → Inv cfg kbd
      → Ensures (Inv cfg) (elim chord [ none ↦ ok kbd | some c ↦ activate_chord step kbd c ])
  activate_pending-Inv none kbd v = done v
  activate_pending-Inv (some c) kbd v = activate_chord-Inv kbd c v

  resolve_chord-Inv :
      (kbd : Keyboard) → Inv cfg kbd → Ensures (ResultInv cfg) (resolve_chord fuel step kbd)
  unfolding resolve_chord
  resolve_chord-Inv kbd v =
      Ensures-bind _
        (activate_pending-Inv (pending_match kbd) _ (set_chord_state-Inv ChordState.resolving v))
        λ k w.
          Ensures-bind _ (process_events-Inv fuel step h k _ 0 0 w)
            λ r u. done (set_chord_state-Inv ChordState.inactive u)

  abort_chord-Inv :
      (kbd : Keyboard) → Inv cfg kbd → Ensures (ResultInv cfg) (abort_chord fuel step kbd)
  unfolding abort_chord
  abort_chord-Inv kbd v = resolve_chord-Inv _ (record { coherent = v.coherent })

  release_chord_key-Inv :
      (kbd : Keyboard) (code i : ℕ) (ac : ActiveChord) (time : ℕ)
      → Inv cfg kbd
      → Ensures (ResultInv cfg) (release_chord_key step kbd code i ac time)
  unfolding release_chord_key
  release_chord_key-Inv kbd code i ac time v =
      if_intro (Ensures (ResultInv cfg)) _
        (Ensures-bind _ (h _ (keyd_chord_1 + i) false time (record { coherent = v.coherent }))
          λ r w. done w)
        (done (record { coherent = v.coherent }))

  hold_match-Inv :
      (kbd : Keyboard) (time : ℕ)
      → Inv cfg kbd
      → Ensures (ResultInv cfg) (hold_match fuel step kbd time)
  unfolding hold_match
  hold_match-Inv kbd time v =
      if_intro (Ensures (ResultInv cfg)) _ (resolve_chord-Inv _ (record { coherent = v.coherent }))
        (Ensures-bind _ (schedule_timeout-Inv _ (record { coherent = v.coherent })) λ k w. done w)

  follow_match-Inv :
      (m : ChordMatch) (kbd : Keyboard) (time : ℕ) (otherwise : Handled)
      → Inv cfg kbd
      → Ensures (ResultInv cfg) otherwise
      → Ensures (ResultInv cfg) (follow_match fuel step m kbd time otherwise)
  unfolding follow_match
  follow_match-Inv ChordMatch.no_match kbd time otherwise v o = o
  follow_match-Inv ChordMatch.partial_match kbd time otherwise v o = await_next_key-Inv kbd time v
  follow_match-Inv ChordMatch.ambiguous_match kbd time otherwise v o = await_next_key-Inv kbd time v
  follow_match-Inv ChordMatch.full_match kbd time otherwise v o = hold_match-Inv kbd time v

  start_chord-Inv :
      (kbd : Keyboard) (code : ℕ) (pressed : Bool) (time : ℕ)
      → Inv cfg kbd
      → Ensures (ResultInv cfg) (start_chord fuel step kbd code pressed time)
  unfolding start_chord
  start_chord-Inv kbd code pressed time v =
      Ensures-bind _
        (enqueue_chord_event-Inv _ code pressed time (record { coherent = v.coherent }))
        λ k w.
          let checked = check_chord_match-Inv w in
          follow_match-Inv _ _ time _ checked (done checked)

  interkey_expired-Inv :
      (match : Option ChordRef) (kbd : Keyboard) (time : ℕ)
      → Inv cfg kbd
      → Ensures (ResultInv cfg) (interkey_expired fuel step match kbd time)
  unfolding interkey_expired
  interkey_expired-Inv none kbd time v = abort_chord-Inv kbd v
  interkey_expired-Inv (some r) kbd time v =
      if_intro (Ensures (ResultInv cfg)) _
        (Ensures-bind _ (schedule_timeout-Inv _ v)
          λ k w. done (set_chord_state-Inv ChordState.pending_hold_timeout w))
        (resolve_chord-Inv kbd v)

  disambiguate_timeout-Inv :
      (kbd : Keyboard) (time : ℕ)
      → Inv cfg kbd
      → Ensures (ResultInv cfg) (disambiguate_timeout fuel step kbd time)
  unfolding disambiguate_timeout
  disambiguate_timeout-Inv kbd time v =
      if_intro (Ensures (ResultInv cfg)) _ (interkey_expired-Inv kbd.chord.match kbd time v)
        (done v)

  disambiguate_key-Inv :
      (kbd : Keyboard) (code : ℕ) (pressed : Bool) (time : ℕ)
      → Inv cfg kbd
      → Ensures (ResultInv cfg) (disambiguate_key fuel step kbd code pressed time)
  unfolding disambiguate_key
  disambiguate_key-Inv kbd code pressed time v =
      Ensures-bind _ (enqueue_chord_event-Inv kbd code pressed time v) λ k w.
        let checked = check_chord_match-Inv w in
        if_intro (Ensures (ResultInv cfg)) pressed
          (follow_match-Inv _ _ time _ checked (abort_chord-Inv _ checked)) (abort_chord-Inv k w)

  hold_key-Inv :
      (kbd : Keyboard) (code : ℕ) (pressed : Bool) (time : ℕ)
      → Inv cfg kbd
      → Ensures (ResultInv cfg) (hold_key fuel step kbd code pressed time)
  unfolding hold_key
  hold_key-Inv kbd code pressed time v =
      Ensures-bind _ (enqueue_chord_event-Inv kbd code pressed time v)
        λ k w. if_intro (Ensures (ResultInv cfg)) _ (abort_chord-Inv k w) (done w)

  in_state-Inv :
      (s : ChordState) (kbd : Keyboard) (code : ℕ) (pressed : Bool) (time : ℕ)
      → Inv cfg kbd
      → Ensures (ResultInv cfg) (in_state fuel step s kbd code pressed time)
  unfolding in_state
  in_state-Inv ChordState.resolving kbd code pressed time v = done v
  in_state-Inv ChordState.inactive kbd code pressed time v = start_chord-Inv kbd code pressed time v
  in_state-Inv ChordState.pending_disambiguation kbd code pressed time v =
      if_intro (Ensures (ResultInv cfg)) _ (disambiguate_timeout-Inv kbd time v)
        (disambiguate_key-Inv kbd code pressed time v)
  in_state-Inv ChordState.pending_hold_timeout kbd code pressed time v =
      if_intro (Ensures (ResultInv cfg)) _ (hold_key-Inv kbd code pressed time v)
        (if_intro (Ensures (ResultInv cfg)) _ (resolve_chord-Inv kbd v) (done v))

  held_chord-Inv :
      (held : Option (ℕ × ActiveChord)) (kbd : Keyboard) (code : ℕ) (pressed : Bool) (time : ℕ)
      → Inv cfg kbd
      → Ensures (ResultInv cfg) (elim held [
        | some (i, ac) ↦ release_chord_key step kbd code i ac time
        | none ↦ in_state fuel step kbd.chord.state kbd code pressed time
      ])
  held_chord-Inv none kbd code pressed time v = in_state-Inv kbd.chord.state kbd code pressed time v
  held_chord-Inv (some (i, ac)) kbd code pressed time v = release_chord_key-Inv kbd code i ac time v

  pub handle_chord-Inv :
      (kbd : Keyboard) (code : ℕ) (pressed : Bool) (time : ℕ)
      → Inv cfg kbd
      → Ensures (ResultInv cfg) (handle_chord fuel step kbd code pressed time)
  unfolding handle_chord
  handle_chord-Inv kbd code pressed time v = held_chord-Inv _ kbd code pressed time v
