-- ===== src/Keyboard/Chords.antt =====
-- src/keyboard.c: matching the queued key events against the chords of the active layers.
pub mod Matching
use keyd_fork.Common.{
  ℕ, suc, Bool, true, false, Option, none, some, List, [], ◌∷◌, ◌++◌, ltb, leb, ◌==◌, if◌then◌else◌,
  length, range, elem, Result, ok, aborted, chord_queue_full,
}
use keyd_fork.Config.{Chord, Config}
use keyd_fork.Keyboard.State.{KeyEvent, ChordRef, LayerState, Keyboard}

pub data ChordMatch : Type 0 where
  no_match partial_match full_match ambiguous_match : ChordMatch

-- The loop of `chord_event_match`: the number of pressed events, unless one is not in the chord.
pub count_pressed : List ℕ → List KeyEvent → Option ℕ
count_pressed keys [] = some 0
count_pressed keys (e ∷ es) =
    let rest = count_pressed keys es in
    if e.pressed
    then (if elem e.code keys then (elim rest [ none ↦ none | some n ↦ some (suc n) ]) else none)
    else rest

-- `n` is the number of pressed events.
classify : ℕ → Option ℕ → ChordMatch
classify sz none = ChordMatch.no_match
classify sz (some n) =
    if n == 0
    then ChordMatch.no_match
    else if n == sz
    then ChordMatch.full_match
    else ChordMatch.partial_match

unfoldable pub chord_event_match : Chord → List KeyEvent → ChordMatch
unfolding count_pressed classify
chord_event_match chord events = classify (length chord.keys) (count_pressed chord.keys events)

unfoldable pub enqueue_chord_event : Keyboard → ℕ → Bool → ℕ → Result Keyboard
enqueue_chord_event kbd code pressed time =
    let event : KeyEvent = record { code = code; pressed = pressed; timestamp = time } in
    let chord = kbd.chord in
    if code == 0
    then ok kbd
    else if ltb (length chord.queue) 32
    then ok (record kbd { chord = record chord { queue = chord.queue ++ (event ∷ []) } })
    else aborted chord_queue_full

-- The variables of `check_chord_match`. `maxts` starts at 0 for the source's -1: times are at least 0.
pub record Scan : Type 0 where
  pub full : Bool
  pub partial : Bool
  pub maxts : ℕ
  pub match : Option ChordRef
  pub layer : ℕ

take_match : ChordMatch → ℕ → ℕ → ℕ → Scan → Scan
take_match ChordMatch.full_match idx i time s =
    if leb s.maxts time
    then record {
      full = true;
      partial = s.partial;
      maxts = time;
      match = some (record { layer = idx; index = i });
      layer = idx;
    }
    else s
take_match ChordMatch.partial_match idx i time s = record s { partial = true }
take_match _ idx i time s = s

-- The inner loop, over the chords of layer `idx`.
scan_chords : List KeyEvent → ℕ → ℕ → ℕ → Scan → List Chord → Scan
unfolding take_match
scan_chords queue idx time i s [] = s
scan_chords queue idx time i s (c ∷ cs) =
    scan_chords queue idx time (suc i) (take_match (chord_event_match c queue) idx i time s) cs

scan_chord_layers : Config → (ℕ → LayerState) → List KeyEvent → Scan → List ℕ → Scan
unfolding scan_chords
scan_chord_layers config states queue s [] = s
scan_chord_layers config states queue s (idx ∷ is) =
    scan_chord_layers config states queue
      (if (states idx).active == 0
        then s
        else scan_chords queue idx (states idx).activation_time 0 s (config.layers idx).chords)
      is

verdict : Scan → ChordMatch
verdict s =
    if s.full
    then (if s.partial then ChordMatch.ambiguous_match else ChordMatch.full_match)
    else if s.partial
    then ChordMatch.partial_match
    else ChordMatch.no_match

-- The verdict, and the keyboard with `chord.match` and `chord.match_layer` set on a full match.
unfoldable pub check_chord_match : Keyboard → ChordMatch × Keyboard
unfolding scan_chord_layers verdict
check_chord_match kbd =
    let start : Scan = record {
      full = false;
      partial = false;
      maxts = 0;
      match = kbd.chord.match;
      layer = kbd.chord.match_layer;
    } in
    let s =
      scan_chord_layers kbd.config kbd.layer_state kbd.chord.queue start
        (range kbd.config.nr_layers) in
    (verdict s, record kbd { chord = record kbd.chord { match = s.match; match_layer = s.layer } })
