-- ===== src/Keys.antt =====
-- src/keys.h and the modifier table of src/keys.c.
pub mod Table
pub mod Names
use keyd_fork.Common.{ℕ, List, [], ◌∷◌}

abbrev pub mod_alt_gr : ℕ
mod_alt_gr = 0x10

abbrev pub mod_ctrl : ℕ
mod_ctrl = 0x8

abbrev pub mod_shift : ℕ
mod_shift = 0x4

abbrev pub mod_super : ℕ
mod_super = 0x2

abbrev pub mod_alt : ℕ
mod_alt = 0x1

abbrev pub keyd_leftctrl : ℕ
keyd_leftctrl = 29

abbrev pub keyd_leftshift : ℕ
keyd_leftshift = 42

abbrev pub keyd_leftalt : ℕ
keyd_leftalt = 56

abbrev pub keyd_rightalt : ℕ
keyd_rightalt = 100

abbrev pub keyd_leftmeta : ℕ
keyd_leftmeta = 125

abbrev pub keyd_esc : ℕ
keyd_esc = 1

abbrev pub keyd_backspace : ℕ
keyd_backspace = 14

abbrev pub keyd_tab : ℕ
keyd_tab = 15

abbrev pub keyd_enter : ℕ
keyd_enter = 28

abbrev pub keyd_space : ℕ
keyd_space = 57

abbrev pub keyd_zoom : ℕ
keyd_zoom = 177

abbrev pub keyd_mouse_back : ℕ
keyd_mouse_back = 178

abbrev pub keyd_voicecommand : ℕ
keyd_voicecommand = 222

abbrev pub keyd_left_mouse : ℕ
keyd_left_mouse = 249

abbrev pub keyd_middle_mouse : ℕ
keyd_middle_mouse = 250

abbrev pub keyd_right_mouse : ℕ
keyd_right_mouse = 251

abbrev pub keyd_mouse_1 : ℕ
keyd_mouse_1 = 252

abbrev pub keyd_mouse_2 : ℕ
keyd_mouse_2 = 253

abbrev pub keyd_fn : ℕ
keyd_fn = 254

abbrev pub keyd_mouse_forward : ℕ
keyd_mouse_forward = 255

abbrev pub keyd_rightshift : ℕ
keyd_rightshift = 54

abbrev pub keyd_rightctrl : ℕ
keyd_rightctrl = 97

abbrev pub keyd_rightmeta : ℕ
keyd_rightmeta = 126

abbrev pub keyd_noop : ℕ
keyd_noop = 195

abbrev pub keyd_external_mouse_button : ℕ
keyd_external_mouse_button = 196

abbrev pub keyd_chord_1 : ℕ
keyd_chord_1 = 197

abbrev pub keyd_chord_max : ℕ
keyd_chord_max = 199

pub record Modifier : Type 0 where
  pub mask : ℕ
  pub key : ℕ

abbrev pub modifiers : List Modifier
modifiers =
    record { mask = mod_alt; key = keyd_leftalt }
    ∷ record { mask = mod_alt_gr; key = keyd_rightalt }
    ∷ record { mask = mod_shift; key = keyd_leftshift }
    ∷ record { mask = mod_super; key = keyd_leftmeta }
    ∷ record { mask = mod_ctrl; key = keyd_leftctrl }
    ∷ []
