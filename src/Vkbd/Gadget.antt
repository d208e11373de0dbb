-- ===== src/Vkbd/Gadget.antt =====
-- src/vkbd/usb-gadget.c: the reports to a USB host.
pub mod Held
use keyd_fork.Common.{
  ℕ, ◌-◌, bit_and, bit_or, Bool, not, ◌&&◌, Option, none, some, List, [], ◌∷◌, ◌==◌, if◌then◌else◌,
  replicate, elem,
}
use keyd_fork.Keys.{
  keyd_leftshift, keyd_leftalt, keyd_rightalt, keyd_leftctrl, keyd_leftmeta, keyd_rightshift,
  keyd_rightctrl, keyd_rightmeta,
}
use keyd_fork.Vkbd.HidTable.{hid_table}

abbrev pub hid_ctrl : ℕ
hid_ctrl = 1

abbrev pub hid_rightctrl : ℕ
hid_rightctrl = 16

abbrev pub hid_shift : ℕ
hid_shift = 2

abbrev pub hid_rightshift : ℕ
hid_rightshift = 32

abbrev pub hid_alt : ℕ
hid_alt = 4

abbrev pub hid_alt_gr : ℕ
hid_alt_gr = 64

abbrev pub hid_rightsuper : ℕ
hid_rightsuper = 128

abbrev pub hid_super : ℕ
hid_super = 8

-- `struct hid_report`, but for its reserved byte, which is not set.
pub record HidReport : Type 0 where
  pub hid_mods : ℕ
  pub hid_code : List ℕ

-- The static variables, `keys` with 6 elements, and the reports that were written, newest first.
pub record Gadget : Type 0 where
  pub mods : ℕ
  pub keys : List ℕ
  pub reports : List HidReport

abbrev pub zero_gadget : Gadget
zero_gadget = record { mods = 0; keys = replicate 6 0; reports = [] }

unfoldable pub send_hid_report : Gadget → Gadget
send_hid_report g = record g {
  reports = record { hid_mods = g.mods; hid_code = g.keys } ∷ g.reports;
}

unfoldable pub get_modifier : ℕ → ℕ
get_modifier code =
    if code == keyd_leftshift
    then hid_shift
    else if code == keyd_rightshift
    then hid_rightshift
    else if code == keyd_leftctrl
    then hid_ctrl
    else if code == keyd_rightctrl
    then hid_rightctrl
    else if code == keyd_leftalt
    then hid_alt
    else if code == keyd_rightalt
    then hid_alt_gr
    else if code == keyd_leftmeta
    then hid_super
    else if code == keyd_rightmeta
    then hid_rightsuper
    else 0

-- `none` is -1. `mods` is a byte.
unfoldable pub update_modifier_state : Gadget → ℕ → Bool → Option Gadget
unfolding get_modifier
update_modifier_state g code state =
    let mask = get_modifier code in
    if mask == 0
    then none
    else some
        (record g { mods = if state then bit_or g.mods mask else bit_and g.mods (255 - mask) })

-- The first loop: the elements, those with the code set to 0 where it is released.
unfoldable pub release_slots : ℕ → Bool → List ℕ → List ℕ
release_slots hid state [] = []
release_slots hid state (k ∷ ks) =
    (if k == hid && not state then 0 else k) ∷ release_slots hid state ks

-- The second loop: the first element that is 0 takes the code.
unfoldable pub take_slot : ℕ → List ℕ → List ℕ
take_slot hid [] = []
take_slot hid (k ∷ ks) = let rest = take_slot hid ks in if k == 0 then hid ∷ ks else k ∷ rest

unfoldable pub update_key_state : Gadget → ℕ → Bool → Gadget
unfolding release_slots take_slot
update_key_state g code state =
    let hid = hid_table code in
    let set = elem hid g.keys in
    let keys = release_slots hid state g.keys in
    record g { keys = if state && not set then take_slot hid keys else keys }

unfoldable pub vkbd_send_key : Gadget → ℕ → Bool → Gadget
unfolding update_modifier_state update_key_state send_hid_report
vkbd_send_key g code state = elim (update_modifier_state g code state) [
  | some g' ↦ send_hid_report g'
  | none ↦ send_hid_report (update_key_state g code state)
]
