-- ===== src/Macro/Trace.antt =====
-- src/macro.c: the parts of one entry's output let go of every key that they press.
use keyd_fork.Common.{
  ℕ, ◌/◌, ◌%◌, bit_and, ◌≡◌, refl, Bool, true, false, not, ◌&&◌, ◌||◌, List, [], ◌∷◌, ◌++◌, arith,
  ◌==◌, if◌then◌else◌,
}
use keyd_fork.Keys.{Modifier, modifiers}
use keyd_fork.Macro.{mod_keys, pause, tap_each, execute_keysequence, tap}
use keyd_fork.Output.{Output, key, log, is_down, Releases, log-append}

-- Whether a modifier of the list is asked for and has this key.
abbrev has_key : List Modifier → ℕ → ℕ → Bool
has_key [] mods c = false
has_key (m ∷ ms) mods c = (not (bit_and mods m.mask == 0) && m.key == c) || has_key ms mods c

mod_keys-is_down :
    (ms : List Modifier) (mods : ℕ) (state : Bool) (out : List Output) (c : ℕ)
    → is_down (log (mod_keys ms mods state) out) c
      ≡ (if has_key ms mods c then state else is_down out c)
unfolding mod_keys log
mod_keys-is_down [] mods state out c = refl
mod_keys-is_down (m ∷ ms) mods state out c = ground (
  arith,
  mod_keys-is_down ms mods state out c,
  mod_keys-is_down ms mods state (key m.key state ∷ out) c,
)

pause-Releases : (timeout : ℕ) → Releases (pause timeout)
unfolding pause log
pause-Releases timeout out c d = ground arith

pub pause-is_down :
    (timeout : ℕ) (out : List Output) (c : ℕ) → is_down (log (pause timeout) out) c ≡ is_down out c
unfolding pause log
pause-is_down timeout out c = ground arith

pub tap_each-Releases : (codes : List ℕ) → Releases (tap_each codes)
unfolding tap_each log
tap_each-Releases [] out c d = d
tap_each-Releases (k ∷ ks) out c d =
    ground (arith, tap_each-Releases ks (key k false ∷ key k true ∷ out) c d)

-- Modifiers down, a pause, the key, modifiers up: the key and the modifiers are up, and every other
-- key is as it was.
wrapped-is_down :
    (ms : List Modifier) (mods code : ℕ) (quiet out : List Output) (c : ℕ)
    → ((o : List Output) → is_down (log quiet o) c ≡ is_down o c)
    → is_down (log (mod_keys ms mods true ++ (quiet ++ (tap code ++ mod_keys ms mods false))) out) c
      ≡ (if has_key ms mods c || code == c then false else is_down out c)
unfolding log
wrapped-is_down ms mods code quiet out c h =
    let down = log (mod_keys ms mods true) out in
    let paused = log quiet down in
    let tapped = log (tap code) paused in
    ground (
      arith,
      log-append (mod_keys ms mods true) (quiet ++ (tap code ++ mod_keys ms mods false)) out,
      log-append quiet (tap code ++ mod_keys ms mods false) down,
      log-append (tap code) (mod_keys ms mods false) paused,
      mod_keys-is_down ms mods false tapped c,
      h down,
      mod_keys-is_down ms mods true out c,
    )

optional_pause-is_down :
    (b : Bool) (timeout : ℕ) (c : ℕ) (out : List Output)
    → is_down (log (if b then [] else pause timeout) out) c ≡ is_down out c
unfolding log
optional_pause-is_down true timeout c out = refl
optional_pause-is_down false timeout c out = pause-is_down timeout out c

releases_of_if : (b : Bool) {x y : Bool} → x ≡ (if b then false else y) → x ≡ true → y ≡ true
releases_of_if true e h = cc
releases_of_if false e h = cc

pub execute_keysequence-Releases : (timeout d : ℕ) → Releases (execute_keysequence timeout d)
unfolding execute_keysequence
execute_keysequence-Releases timeout d out c h =
    releases_of_if _
      (wrapped-is_down modifiers (d / 256) (d % 256) (if d / 256 == 0 then [] else pause timeout)
        out c (optional_pause-is_down (d / 256 == 0) timeout c))
      h
