-- ===== src/Vkbd/Gadget/Held.antt =====
-- src/vkbd/usb-gadget.c: the keys that the host sees held.
use keyd_fork.Common.{
  ℕ, ◌≡◌, refl, ap, ◌≢◌, Bool, true, false, not, ◌&&◌, ◌||◌, List, [], ◌∷◌, arith, ◌==◌,
  if◌then◌else◌, elem,
}
use keyd_fork.Vkbd.HidTable.{hid_table}
use keyd_fork.Vkbd.Gadget.{
  release_slots, take_slot, Gadget, update_key_state, send_hid_report, get_modifier,
  update_modifier_state, vkbd_send_key,
}

elem-release_slots :
    (hid : ℕ) (state : Bool) (ks : List ℕ) (c : ℕ)
    → c ≢ 0
    → elem c (release_slots hid state ks) ≡ (if hid == c then state && elem c ks else elem c ks)
unfolding release_slots
elem-release_slots hid state [] c h = ground arith
elem-release_slots hid state (k ∷ ks) c h =
    let ih = elem-release_slots hid state ks c h in ground arith

elem-take_slot :
    (hid : ℕ) (ks : List ℕ) (c : ℕ)
    → c ≢ 0
    → elem c (take_slot hid ks) ≡ (if hid == c then elem 0 ks || elem c ks else elem c ks)
unfolding take_slot
elem-take_slot hid [] c h = ground arith
elem-take_slot hid (k ∷ ks) c h = let ih = elem-take_slot hid ks c h in ground arith

-- A free element is not taken by a press.
release_slots-press : (hid : ℕ) (ks : List ℕ) → release_slots hid true ks ≡ ks
unfolding release_slots
release_slots-press hid [] = refl
release_slots-press hid (k ∷ ks) = let ih = release_slots-press hid ks in ground arith

elem-same : (a b : ℕ) (ks : List ℕ) → (a == b) ≡ true → elem a ks ≡ elem b ks
elem-same a b ks e = let same : a ≡ b = ground arith in ap (λ x. elem x ks) same

if_known :
    (b : Bool) {x y k : Bool}
    → x ≡ (if b then y else y)
    → k ≡ true
    → (b ≡ true → k ≡ y)
    → x ≡ (if b then true else y)
if_known true r e same = let q = same refl in cc
if_known false r e same = r

if_free :
    (b z : Bool) {x y k : Bool}
    → x ≡ (if b then z || y else y)
    → k ≡ false
    → (b ≡ true → k ≡ y)
    → x ≡ (if b then z else y)
if_free true true r e same = r
if_free true false r e same = let q = same refl in cc
if_free false z r e same = r

update_key_state-elem :
    (g : Gadget) (code : ℕ) (state : Bool) (c : ℕ)
    → c ≢ 0
    → elem c (update_key_state g code state).keys ≡ (
        if hid_table code == c
        then state && (elem (hid_table code) g.keys || elem 0 g.keys)
        else elem c g.keys)
unfolding update_key_state
update_key_state-elem g code state c h = split state (elem (hid_table code) g.keys) refl
  where
    hid : ℕ
    hid = hid_table code

    split :
        (s b : Bool)
        → elem hid g.keys ≡ b
        → elem c (
            if s && not b
            then take_slot hid (release_slots hid s g.keys)
            else release_slots hid s g.keys)
          ≡ (if hid == c then s && (b || elem 0 g.keys) else elem c g.keys)
    split false b e = let r = elem-release_slots hid false g.keys c h in ground arith
    split true true e =
        let r = elem-release_slots hid true g.keys c h in
        let same : (hid == c) ≡ true → elem hid g.keys ≡ elem c g.keys = elem-same hid c g.keys in
        if_known (hid == c) r e same
    split true false e = rw (release_slots-press hid g.keys) (
        if_free (hid == c) (elem 0 g.keys) (elem-take_slot hid g.keys c h) e
          (elem-same hid c g.keys))

vkbd_send_key-plain :
    (g : Gadget) (code : ℕ) (state : Bool)
    → get_modifier code ≡ 0
    → vkbd_send_key g code state ≡ send_hid_report (update_key_state g code state)
unfolding vkbd_send_key update_modifier_state
vkbd_send_key-plain g code state plain = rw (vkbd_send_key, update_modifier_state, plain) refl

-- The codes that the host gets last.
abbrev pub last_codes : Gadget → List ℕ
last_codes g = elim g.reports [ [] ↦ [] | r ∷ rs ↦ r.hid_code ]

-- A key that is no modifier is reported at once: in the report that vkbd_send_key writes, its code is
-- held exactly where it is pressed, if it was held before or one of the six places was free, and every
-- other code exactly where it was held before. The modifiers stay. (Code 0 is no key.)
pub vkbd_send_key-held :
    (g : Gadget) (code : ℕ) (state : Bool) (c : ℕ)
    → get_modifier code ≡ 0
    → c ≢ 0
    → (elem c (last_codes (vkbd_send_key g code state)) ≡ (
        if hid_table code == c
        then state && (elem (hid_table code) g.keys || elem 0 g.keys)
        else elem c g.keys))
      × ((vkbd_send_key g code state).mods ≡ g.mods)
unfolding send_hid_report update_key_state
vkbd_send_key-held g code state c plain h =
    rw (vkbd_send_key-plain g code state plain) (update_key_state-elem g code state c h, refl)
