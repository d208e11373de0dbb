-- ===== src/Daemon/Invariant/Typing.antt =====
-- src/daemon.c: input lets go of every key that it presses.
use keyd_fork.Common.{
  ℕ, zero, suc, bit_and, ◌≡◌, refl, Bool, true, false, Option, none, some, List, [], ◌∷◌, ◌++◌,
  arith, ◌==◌, if◌then◌else◌, if_intro, length, take, drop, Ensures, Ensures-map, ok, aborted,
  truncated_utf8, done, aborts, starves,
}
use keyd_fork.Keys.Names.{parse_key_sequence}
use keyd_fork.Daemon.Invariant.Steps.{emit-Quiet}
use keyd_fork.Keys.{keyd_tab, keyd_enter, keyd_space, mod_shift, keyd_leftshift}
use keyd_fork.Text.Utf8.{Utf8, end, char, truncated, utf8_read_char}
use keyd_fork.Daemon.{Daemon, Effect, World, vkbd_key, usleep, emit}
use keyd_fork.Daemon.Input.{
  input, stroke, strokes, type_keys, ascii_keys, unicode_keys, char_keys, input_chars,
}
use keyd_fork.Daemon.Invariant.{Quiet, is_held, Quiet-refl, Quiet-trans}

-- The trace with key events put before it.
abbrev typed : List (ℕ × Bool) → List Effect → List Effect
typed [] t = t
typed ((code, state) ∷ ks) t = typed ks (vkbd_key code state ∷ t)

-- Whatever went before, the events leave no key down that was not down before.
abbrev Settled : List (ℕ × Bool) → Type 0
Settled ks = (t : List Effect) (c : ℕ) → is_held (typed ks t) c ≡ true → is_held t c ≡ true

typed-append :
    (xs ys : List (ℕ × Bool)) (t : List Effect) → typed (xs ++ ys) t ≡ typed ys (typed xs t)
typed-append [] ys t = refl
typed-append ((code, state) ∷ xs) ys t = typed-append xs ys (vkbd_key code state ∷ t)

Settled-append : (xs ys : List (ℕ × Bool)) → Settled xs → Settled ys → Settled (xs ++ ys)
Settled-append xs ys h k t c down = h t c (k (typed xs t) c (rw (typed-append xs ys t) at down))

Settled-stroke : (code : ℕ) → Settled (stroke code)
Settled-stroke code t c down = ground arith

Settled-shifted :
    (shift code : ℕ) → Settled ((shift, true) ∷ (stroke code ++ ((shift, false) ∷ [])))
Settled-shifted shift code t c down = ground arith

Settled-strokes : (cs : List ℕ) → Settled (strokes cs)
unfolding strokes
Settled-strokes [] t c down = down
Settled-strokes (x ∷ cs) t c down =
    Settled-append (stroke x) (strokes cs) (Settled-stroke x) (Settled-strokes cs) t c down

abbrev AllSettled : Option (List (ℕ × Bool)) → Type 0
AllSettled none = Unit {0}
AllSettled (some ks) = Settled ks

ascii_keys-Settled : (c : ℕ) → AllSettled (ascii_keys c)
unfolding ascii_keys
ascii_keys-Settled c = named (parse_key_sequence (if c == 0 then [] else c ∷ []))
  where
    named :
        (o : Option (ℕ × ℕ))
        → AllSettled (elim o [
          | some (code, mods) ↦ some (
              if bit_and mods mod_shift == 0
              then stroke code
              else (keyd_leftshift, true) ∷ (stroke code ++ ((keyd_leftshift, false) ∷ [])))
          | none ↦
              if c == 32
              then some (stroke keyd_space)
              else if c == 10
              then some (stroke keyd_enter)
              else if c == 9
              then some (stroke keyd_tab)
              else none
        ])
    named (some (code, mods)) =
        if_intro Settled (bit_and mods mod_shift == 0) (Settled-stroke code)
          (Settled-shifted keyd_leftshift code)
    named none = if_intro AllSettled (c == 32) (Settled-stroke keyd_space) (
        if_intro AllSettled (c == 10) (Settled-stroke keyd_enter)
          (if_intro AllSettled (c == 9) (Settled-stroke keyd_tab) tt))

unicode_keys-Settled : (w : World) (codepoint : ℕ) → AllSettled (unicode_keys w codepoint)
unfolding unicode_keys
unicode_keys-Settled w codepoint = found (w.env.unicode_lookup_index codepoint)
  where
    found :
        (o : Option ℕ)
        → AllSettled (elim o [
          | none ↦ none
          | some idx ↦ some (strokes (take 4 (w.env.unicode_get_sequence idx)))
        ])
    found none = tt
    found (some idx) = Settled-strokes (take 4 (w.env.unicode_get_sequence idx))

char_keys-Settled : (w : World) (size codepoint : ℕ) → AllSettled (char_keys w size codepoint)
unfolding char_keys
char_keys-Settled w size codepoint =
    if_intro AllSettled (size == 1) (either (ascii_keys codepoint) (ascii_keys-Settled codepoint))
      (unicode_keys-Settled w codepoint)
  where
    either :
        (o : Option (List (ℕ × Bool)))
        → AllSettled o
        → AllSettled (elim o [ some ks ↦ some ks | none ↦ unicode_keys w codepoint ])
    either none h = unicode_keys-Settled w codepoint
    either (some ks) h = h

type_keys-trace : (d : Daemon) (ks : List (ℕ × Bool)) → (type_keys d ks).trace ≡ typed ks d.trace
unfolding type_keys
type_keys-trace d [] = refl
type_keys-trace d ((code, state) ∷ ks) = type_keys-trace (emit d (vkbd_key code state)) ks

-- What typing leaves alone.
abbrev Same : Daemon → Daemon → Type 0
Same d d' =
    (d'.kbds ≡ d.kbds)
    × (d'.configs ≡ d.configs)
    × (d'.device_table ≡ d.device_table)
    × (d'.keystate ≡ d.keystate)
    × (d'.next_kbd ≡ d.next_kbd)
    × (d'.active_kbd ≡ d.active_kbd)

type_keys-Same : (d : Daemon) (ks : List (ℕ × Bool)) → Same d (type_keys d ks)
unfolding type_keys
type_keys-Same d [] = (refl, refl, refl, refl, refl, refl)
type_keys-Same d ((code, state) ∷ ks) = type_keys-Same (emit d (vkbd_key code state)) ks

type_keys-Quiet : (d : Daemon) (ks : List (ℕ × Bool)) → Settled ks → Quiet d (type_keys d ks)
type_keys-Quiet d ks h =
    let (kbds, configs, devices, keystate, next, active) = type_keys-Same d ks in
    record {
      kbds_same = kbds;
      configs_same = configs;
      devices_same = devices;
      next_same = next;
      active_same = active;
      records = λ r c down. rw keystate (r c (h d.trace c (rw (type_keys-trace d ks) at down)));
    }

-- The state behind the flag of input.
input_chars-Quiet :
    (w : World) (fuel timeout : ℕ) (d : Daemon) (s : List ℕ)
    → Ensures (λ r. Quiet d r.1) (input_chars w fuel timeout d s)
unfolding input_chars
input_chars-Quiet w zero timeout d s = starves
input_chars-Quiet w (suc fuel) timeout d s = read (utf8_read_char s) (λ d' n.
    input_chars-Quiet w fuel timeout (if timeout == 0 then d' else emit d' (usleep timeout))
      (drop n s))
  where
    next :
        (d' : Daemon)
        → Quiet d d'
        → (n : ℕ)
        → Ensures
            (λ (r : Bool × Daemon).
              Quiet (if timeout == 0 then d' else emit d' (usleep timeout)) r.1)
            (input_chars w fuel timeout
              (if timeout == 0 then d' else emit d' (usleep timeout))
              (drop n s))
        → Ensures
            (λ (r : Bool × Daemon). Quiet d r.1)
            (input_chars w fuel timeout
              (if timeout == 0 then d' else emit d' (usleep timeout))
              (drop n s))
    next d' q n ih = Ensures-map _ ih (λ r q'. Quiet-trans q (
        Quiet-trans
          (if_intro (Quiet d') (timeout == 0) (Quiet-refl d') (emit-Quiet d' _ (λ t c. refl))) q'))

    chosen :
        (o : Option (List (ℕ × Bool)))
        → AllSettled o
        → (n : ℕ)
        → ((d' : Daemon) (n : ℕ)
            → Ensures
                (λ (r : Bool × Daemon).
                  Quiet (if timeout == 0 then d' else emit d' (usleep timeout)) r.1)
                (input_chars w fuel timeout
                  (if timeout == 0 then d' else emit d' (usleep timeout))
                  (drop n s)))
        → Ensures
            (λ (r : Bool × Daemon). Quiet d r.1)
            (elim o [
              | none ↦ ok (false, d)
              | some ks ↦
                  input_chars w fuel timeout
                    (if timeout == 0
                      then type_keys d ks
                      else emit (type_keys d ks) (usleep timeout))
                    (drop n s)
            ])
    chosen none h n ih = done (Quiet-refl d)
    chosen (some ks) h n ih =
        next (type_keys d ks) (type_keys-Quiet d ks h) n (ih (type_keys d ks) n)

    read :
        (u : Utf8)
        → ((d' : Daemon) (n : ℕ)
            → Ensures
                (λ (r : Bool × Daemon).
                  Quiet (if timeout == 0 then d' else emit d' (usleep timeout)) r.1)
                (input_chars w fuel timeout
                  (if timeout == 0 then d' else emit d' (usleep timeout))
                  (drop n s)))
        → Ensures
            (λ (r : Bool × Daemon). Quiet d r.1)
            (elim u [
              | end ↦ ok (true, d)
              | truncated ↦ aborted truncated_utf8
              | char size codepoint ↦ elim (char_keys w size codepoint) [
                | none ↦ ok (false, d)
                | some ks ↦
                    input_chars w fuel timeout
                      (if timeout == 0
                        then type_keys d ks
                        else emit (type_keys d ks) (usleep timeout))
                      (drop size s)
              ]
            ])
    read end ih = done (Quiet-refl d)
    read truncated ih = aborts
    read (char n codepoint) ih =
        chosen (char_keys w n codepoint) (char_keys-Settled w n codepoint) n ih

pub input-Quiet :
    (w : World) (timeout : ℕ) (d : Daemon) (s : List ℕ)
    → Ensures (λ r. Quiet d r.1) (input w timeout d s)
unfolding input
input-Quiet w timeout d s = input_chars-Quiet w (suc (length s)) timeout d s
