-- ===== src/Keyboard/Send/Keystate.antt =====
-- src/keyboard.c: which keys are down after send_key, clear_mod, set_mods and reset_keystate.
use keyd_fork.Common.{
  ℕ, zero, suc, ◌+◌, ◌≤◌, ◌<◌, ◌≡◌, refl, ap, ◌∙◌, ◌≢◌, Bool, true, false, List, [], ◌∷◌, arith,
  ◌==◌, if◌then◌else◌, range_from, range, elem,
}
use keyd_fork.Keys.{
  Modifier, keyd_noop, keyd_external_mouse_button, mod_alt_gr, mod_ctrl, mod_shift, mod_super,
  mod_alt, keyd_leftctrl, keyd_leftshift, keyd_leftalt, keyd_rightalt, keyd_leftmeta, modifiers,
}
use keyd_fork.Keyboard.Send.{
  send_key, clear_mod, has_mod, set_mod, reset_keys, reset_keystate, set_mods, set_mods_loop,
  reset_key,
}
use keyd_fork.Keyboard.State.{Keyboard}

-- A code that `send_key` does not ignore.
abbrev pub IsSent : ℕ → Type 0
IsSent code = (code ≢ keyd_noop) × (code ≢ keyd_external_mouse_button)

pub send_key-keystate :
    (kbd : Keyboard) (code : ℕ) (pressed : Bool) (c : ℕ)
    → IsSent code
    → (send_key kbd code pressed).keystate c ≡ (if code == c then pressed else kbd.keystate c)
unfolding send_key
send_key-keystate kbd code true c h = ground arith
send_key-keystate kbd code false c h = ground arith

-- After clear_mod of a key that send_key does not ignore, that key is up and no other has moved: the
-- control tap that guards a lone modifier leaves control up, as it was.
pub clear_mod-keystate :
    (kbd : Keyboard) (code c : ℕ)
    → IsSent code
    → (clear_mod kbd code).keystate c ≡ (if code == c then false else kbd.keystate c)
unfolding clear_mod
clear_mod-keystate kbd code c h = ground (
  arith,
  send_key-keystate kbd code false c h,
  send_key-keystate kbd keyd_leftctrl true c,
  send_key-keystate (send_key kbd keyd_leftctrl true) code false c h,
  send_key-keystate (send_key (send_key kbd keyd_leftctrl true) code false) keyd_leftctrl false c,
)

set_mod-keystate :
    (kbd : Keyboard) (mods : ℕ) (m : Modifier) (c : ℕ)
    → IsSent m.key
    → (set_mod kbd mods m).keystate c ≡ (if m.key == c then has_mod m.mask mods else kbd.keystate c)
unfolding set_mod
set_mod-keystate kbd mods m c h =
    ground (arith, send_key-keystate kbd m.key true c h, clear_mod-keystate kbd m.key c h)

-- The state of a key once the modifiers are `mods`, from the state before.
abbrev pub modifier_state : ℕ → (ℕ → Bool) → ℕ → Bool
modifier_state mods states c =
    if c == keyd_leftctrl
    then has_mod mod_ctrl mods
    else if c == keyd_leftmeta
    then has_mod mod_super mods
    else if c == keyd_leftshift
    then has_mod mod_shift mods
    else if c == keyd_rightalt
    then has_mod mod_alt_gr mods
    else if c == keyd_leftalt
    then has_mod mod_alt mods
    else states c

abbrev AllSent : List Modifier → Type 0
AllSent [] = Unit {0}
AllSent (m ∷ ms) = IsSent m.key × AllSent ms

-- What the loop makes of the state `b` of the key `c`.
abbrev wanted : ℕ → List Modifier → Bool → ℕ → Bool
wanted mods [] b c = b
wanted mods (m ∷ ms) b c = wanted mods ms (if m.key == c then has_mod m.mask mods else b) c

set_mods_loop-keystate :
    (kbd : Keyboard) (mods : ℕ) (ms : List Modifier) (c : ℕ)
    → AllSent ms
    → (set_mods_loop kbd mods ms).keystate c ≡ wanted mods ms (kbd.keystate c) c
unfolding set_mods_loop
set_mods_loop-keystate kbd mods [] c h = refl
set_mods_loop-keystate kbd mods (m ∷ ms) c h =
    set_mods_loop-keystate (set_mod kbd mods m) mods ms c h.1
    ∙ ap (λ b. wanted mods ms b c) (set_mod-keystate kbd mods m c h.0)

wanted-modifiers :
    (mods : ℕ) (states : ℕ → Bool) (c : ℕ)
    → wanted mods modifiers (states c) c ≡ modifier_state mods states c
wanted-modifiers mods states c = ground arith

-- After set_mods a modifier's key is down exactly where its bit is set, and no other key has moved.
pub set_mods-keystate :
    (kbd : Keyboard) (mods c : ℕ)
    → (set_mods kbd mods).keystate c ≡ modifier_state mods kbd.keystate c
unfolding set_mods
set_mods-keystate kbd mods c =
    set_mods_loop-keystate kbd mods modifiers c (omega arith) ∙ wanted-modifiers mods kbd.keystate c

reset_keys-keystate :
    (kbd : Keyboard) (is : List ℕ) (c : ℕ)
    → (reset_keys kbd is).keystate c ≡ (if elem c is then false else kbd.keystate c)
unfolding reset_keys
reset_keys-keystate kbd [] c = refl
reset_keys-keystate kbd (i ∷ is) c = ground (arith, reset_keys-keystate (reset_key kbd i) is c)

elem-range_from : (c i n : ℕ) → i ≤ c → c < i + n → elem c (range_from i n) ≡ true
elem-range_from c i zero h k = absurd (omega arith)
elem-range_from c i (suc n) h k = ground (arith, elem-range_from c (suc i) n)

reset_keys-range :
    (kbd : Keyboard) (n c : ℕ) → c < n → (reset_keys kbd (range n)).keystate c ≡ false
reset_keys-range kbd n c h =
    rw (reset_keys-keystate kbd (range n) c, elem-range_from c 0 n (omega arith) (omega arith)) refl

-- After reset_keystate no key below 256 is down in keystate.
pub reset_keystate-keystate :
    (kbd : Keyboard) (c : ℕ) → c < 256 → (reset_keystate kbd).keystate c ≡ false
unfolding reset_keystate
reset_keystate-keystate kbd c h = reset_keys-range kbd 256 c h
