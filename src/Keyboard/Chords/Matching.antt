-- ===== src/Keyboard/Chords/Matching.antt =====
-- src/keyboard.c: chord_event_match against the list of the keys that were pressed.
use keyd_fork.Common.{
  ℕ, ◌≡◌, refl, Bool, true, false, not, ◌||◌, none, some, List, [], ◌∷◌, arith, ◌==◌, if◌then◌else◌,
  length, elem,
}
use keyd_fork.Config.{Chord}
use keyd_fork.Keyboard.Chords.{ChordMatch, count_pressed, chord_event_match}
use keyd_fork.Keyboard.State.{KeyEvent}

-- The codes of the events that are presses, in order.
abbrev pub presses : List KeyEvent → List ℕ
presses [] = []
presses (e ∷ es) = if e.pressed then e.code ∷ presses es else presses es

abbrev pub all_in : List ℕ → List ℕ → Bool
all_in [] keys = true
all_in (c ∷ cs) keys = if elem c keys then all_in cs keys else false

count_pressed-presses :
    (keys : List ℕ) (es : List KeyEvent)
    → count_pressed keys es
      ≡ (if all_in (presses es) keys then some (length (presses es)) else none)
unfolding count_pressed
count_pressed-presses keys [] = refl
count_pressed-presses keys (e ∷ es) = ground (arith, count_pressed-presses keys es)

-- chord_event_match finds a chord where a key was pressed and every key pressed is one of the
-- chord's: in full where as many were pressed as the chord has keys.
pub chord_event_match-presses :
    (chord : Chord) (es : List KeyEvent)
    → chord_event_match chord es ≡ (
        if length (presses es) == 0 || not (all_in (presses es) chord.keys)
        then ChordMatch.no_match
        else if length (presses es) == length chord.keys
        then ChordMatch.full_match
        else ChordMatch.partial_match)
unfolding chord_event_match
chord_event_match-presses chord es = ground (arith, count_pressed-presses chord.keys es)
