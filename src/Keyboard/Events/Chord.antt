-- ===== src/Keyboard/Events/Chord.antt =====
-- src/keyboard.c, resolve_chord, abort_chord and handle_chord. Each returns whether the event was
-- taken, and the keyboard.
use keyd_fork.Common.{
  ℕ, suc, ◌+◌, ◌-◌, Bool, true, false, not, ◌&&◌, ◌||◌, Option, none, some, List, [], ◌∷◌, ltb, leb,
  ◌==◌, if◌then◌else◌, length, get_elem?, modify, drop, elem, Result, ◌>>=◌, ok, aborted,
  no_free_chord,
}
use keyd_fork.Config.{Chord, Config}
use keyd_fork.Keys.{keyd_chord_1}
use keyd_fork.Keyboard.Chords.{ChordMatch, check_chord_match, enqueue_chord_event}
use keyd_fork.Keyboard.Events.Queue.{Step, process_events}
use keyd_fork.Keyboard.State.{ActiveChord, ChordState, ChordRef, Keyboard}
use keyd_fork.Keyboard.Timeouts.{schedule_timeout}

abbrev pub Handled : Type 0
Handled = Result (Bool × Keyboard)

unfoldable pub set_chord_state : Keyboard → ChordState → Keyboard
set_chord_state kbd s = record kbd { chord = record kbd.chord { state = s } }

-- The chord that a pointer points at.
unfoldable pub deref : Config → ChordRef → Option Chord
deref config r = get_elem? (config.layers r.layer).chords r.index

unfoldable pub pending_match : Keyboard → Option Chord
unfolding deref
pending_match kbd = elim kbd.chord.match [ none ↦ none | some r ↦ deref kbd.config r ]

-- `queue_offset` of `resolve_chord`.
unfoldable pub chord_size : Option Chord → ℕ
chord_size none = 0
chord_size (some c) = length c.keys

unfoldable pub is_key_of : ℕ → Option Chord → Bool
is_key_of code none = false
is_key_of code (some c) = elem code c.keys

-- The first slot that is not active, from slot `i` on.
unfoldable pub free_slot : List ActiveChord → ℕ → Option ℕ
free_slot [] i = none
free_slot (ac ∷ acs) i = let rest = free_slot acs (suc i) in if ac.active then rest else some i

-- The branch of `resolve_chord` with a match: the chord becomes active, and its code goes down.
unfoldable pub activate_chord : Step → Keyboard → Chord → Result Keyboard
activate_chord step kbd chord = elim (free_slot kbd.active_chords 0) [
  | none ↦ aborted no_free_chord
  | some i ↦ (do
    let ac : ActiveChord = record { active = true; chord = chord; layer = kbd.chord.match_layer }
    let kbd = record kbd { active_chords = modify kbd.active_chords i (λ _. ac) }
    (_, kbd) ← step kbd (keyd_chord_1 + i) true kbd.chord.last_code_time
    ok kbd)
]

-- The pending match is read before the state changes; then what follows the chord is replayed.
unfoldable pub resolve_chord : ℕ → Step → Keyboard → Handled
resolve_chord fuel step kbd = do
  let chord = pending_match kbd
  let kbd = set_chord_state kbd ChordState.resolving
  kbd ← elim chord [ none ↦ ok kbd | some c ↦ activate_chord step kbd c ]
  (_, kbd) ← process_events fuel step kbd (drop (chord_size chord) kbd.chord.queue) 0 0
  ok (true, set_chord_state kbd ChordState.inactive)

unfoldable pub abort_chord : ℕ → Step → Keyboard → Handled
abort_chord fuel step kbd =
    resolve_chord fuel step (record kbd { chord = record kbd.chord { match = none } })

-- A key of an active chord goes up: its places in the chord are zeroed.
unfoldable pub zero_key : List ℕ → ℕ → List ℕ
zero_key [] code = []
zero_key (k ∷ ks) code = (if k == code then 0 else k) ∷ zero_key ks code

unfoldable pub all_zero : List ℕ → Bool
all_zero [] = true
all_zero (k ∷ ks) = k == 0 && all_zero ks

-- The first active chord that holds the key, from slot `i` on.
unfoldable pub holding_slot : List ActiveChord → ℕ → ℕ → Option (ℕ × ActiveChord)
holding_slot [] code i = none
holding_slot (ac ∷ acs) code i =
    let rest = holding_slot acs code (suc i) in
    if ac.active && elem code ac.chord.keys then some (i, ac) else rest

-- The loop at the head of `handle_chord`; the chord's code goes up with its last key.
unfoldable pub release_chord_key : Step → Keyboard → ℕ → ℕ → ActiveChord → ℕ → Handled
release_chord_key step kbd code i ac time =
    let keys = zero_key ac.chord.keys code in
    let ac' = record ac { active = not (all_zero keys); chord = record ac.chord { keys = keys } } in
    let kbd' = record kbd { active_chords = modify kbd.active_chords i (λ _. ac') } in
    if all_zero keys
    then (do (_, kbd) ← step kbd' (keyd_chord_1 + i) false time; ok (true, kbd))
    else ok (true, kbd')

-- After a verdict with a chord still possible: wait for the next key.
unfoldable pub await_next_key : Keyboard → ℕ → Handled
await_next_key kbd time = do
  let chord = record kbd.chord { state = ChordState.pending_disambiguation; last_code_time = time }
  kbd ← schedule_timeout (record kbd { chord = chord }) (time + kbd.config.chord_interkey_timeout)
  ok (true, kbd)

-- After an unambiguous match: hold it, or resolve it at once.
unfoldable pub hold_match : ℕ → Step → Keyboard → ℕ → Handled
hold_match fuel step kbd time =
    let chord = record kbd.chord { last_code_time = time } in
    let held = record chord { state = ChordState.pending_hold_timeout } in
    if kbd.config.chord_hold_timeout == 0
    then resolve_chord fuel step (record kbd { chord = chord })
    else (do
      kbd ← schedule_timeout (record kbd { chord = held }) (time + kbd.config.chord_hold_timeout)
      ok (true, kbd))

-- The `switch` on `check_chord_match`; `otherwise` is its case 0.
unfoldable pub follow_match : ℕ → Step → ChordMatch → Keyboard → ℕ → Handled → Handled
follow_match fuel step ChordMatch.no_match kbd time otherwise = otherwise
follow_match fuel step ChordMatch.partial_match kbd time otherwise = await_next_key kbd time
follow_match fuel step ChordMatch.ambiguous_match kbd time otherwise = await_next_key kbd time
follow_match fuel step ChordMatch.full_match kbd time otherwise = hold_match fuel step kbd time

unfoldable pub start_chord : ℕ → Step → Keyboard → ℕ → Bool → ℕ → Handled
start_chord fuel step kbd code pressed time = do
  let chord = record kbd.chord { queue = []; match = none; start_code = code }
  kbd ← enqueue_chord_event (record kbd { chord = chord }) code pressed time
  let (verdict, kbd) = check_chord_match kbd
  follow_match fuel step verdict kbd time (ok (false, kbd))

-- CHORD_PENDING_DISAMBIGUATION once no further key came in time.
unfoldable pub interkey_expired : ℕ → Step → Option ChordRef → Keyboard → ℕ → Handled
interkey_expired fuel step none kbd time = abort_chord fuel step kbd
interkey_expired fuel step (some _) kbd time =
    let interkey = kbd.config.chord_interkey_timeout in
    let hold = kbd.config.chord_hold_timeout in
    if ltb interkey hold
    then (do
      kbd ← schedule_timeout kbd (time + (hold - interkey))
      ok (true, set_chord_state kbd ChordState.pending_hold_timeout))
    else resolve_chord fuel step kbd

-- CHORD_PENDING_DISAMBIGUATION on a timeout.
unfoldable pub disambiguate_timeout : ℕ → Step → Keyboard → ℕ → Handled
disambiguate_timeout fuel step kbd time =
    if leb (kbd.config.chord_interkey_timeout + kbd.chord.last_code_time) time
    then interkey_expired fuel step kbd.chord.match kbd time
    else ok (false, kbd)

-- CHORD_PENDING_DISAMBIGUATION on a key.
unfoldable pub disambiguate_key : ℕ → Step → Keyboard → ℕ → Bool → ℕ → Handled
disambiguate_key fuel step kbd code pressed time = do
  kbd ← enqueue_chord_event kbd code pressed time
  let (verdict, kbd') = check_chord_match kbd
  if pressed
      then follow_match fuel step verdict kbd' time (abort_chord fuel step kbd')
      else abort_chord fuel step kbd

-- CHORD_PENDING_HOLD_TIMEOUT on a key: a key of the pending chord that goes up aborts it.
unfoldable pub hold_key : ℕ → Step → Keyboard → ℕ → Bool → ℕ → Handled
hold_key fuel step kbd code pressed time = do
  kbd ← enqueue_chord_event kbd code pressed time
  if not pressed && is_key_of code (pending_match kbd)
      then abort_chord fuel step kbd
      else ok (true, kbd)

unfoldable pub in_state : ℕ → Step → ChordState → Keyboard → ℕ → Bool → ℕ → Handled
in_state fuel step ChordState.resolving kbd code pressed time = ok (false, kbd)
in_state fuel step ChordState.inactive kbd code pressed time =
    start_chord fuel step kbd code pressed time
in_state fuel step ChordState.pending_disambiguation kbd code pressed time =
    if code == 0
    then disambiguate_timeout fuel step kbd time
    else disambiguate_key fuel step kbd code pressed time
in_state fuel step ChordState.pending_hold_timeout kbd code pressed time =
    if not (code == 0)
    then hold_key fuel step kbd code pressed time
    else if leb (kbd.config.chord_hold_timeout + kbd.chord.last_code_time) time
    then resolve_chord fuel step kbd
    else ok (false, kbd)

unfoldable pub handle_chord : ℕ → Step → Keyboard → ℕ → Bool → ℕ → Handled
handle_chord fuel step kbd code pressed time =
    let held = if code == 0 || pressed then none else holding_slot kbd.active_chords code 0 in
    elim held [
      | some (i, ac) ↦ release_chord_key step kbd code i ac time
      | none ↦ in_state fuel step kbd.chord.state kbd code pressed time
    ]
