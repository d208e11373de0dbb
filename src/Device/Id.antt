-- ===== src/Device/Id.antt =====
-- src/device.c: resolve_device_capabilities, generate_uid and the id of a device.
use keyd_fork.Common.{
  ℕ, zero, suc, ◌+◌, ◌*◌, ◌/◌, ◌%◌, Bool, true, ◌&&◌, ◌||◌, Option, none, some, List, [], ◌∷◌, ◌++◌,
  ltb, ◌==◌, if◌then◌else◌, length, elem,
}
use keyd_fork.Device.{cap_mouse, cap_mouse_abs, cap_keyboard}

-- What the kernel says of a device: the keys that it has, by code below BTN_LEFT + 32, the low byte of
-- its relative and of its absolute axes, its vendor and its product.
pub record Probe : Type 0 where
  pub keys : List ℕ
  pub relmask : ℕ
  pub absmask : ℕ
  pub vendor : ℕ
  pub product : ℕ

-- The keys 1 to 0 and q to y, that a keyboard has.
abbrev keyboard_keys : List ℕ
keyboard_keys = 2 ∷ 3 ∷ 4 ∷ 5 ∷ 6 ∷ 7 ∷ 8 ∷ 9 ∷ 10 ∷ 11 ∷ 16 ∷ 17 ∷ 18 ∷ 19 ∷ 20 ∷ 21 ∷ []

abbrev has_keys : List ℕ → List ℕ → Bool
has_keys [] keys = true
has_keys (k ∷ ks) keys = elem k keys && has_keys ks keys

abbrev key_brightnessup : ℕ
key_brightnessup = 225

-- The three flags do not overlap, so that they are added.
abbrev capabilities_of : Probe → ℕ
capabilities_of p =
    (if p.relmask == 0 && p.absmask == 0 then 0 else cap_mouse)
    + ((if p.absmask == 0 then 0 else cap_mouse_abs)
        + (if has_keys keyboard_keys p.keys || elem key_brightnessup p.keys
            then cap_keyboard
            else 0))

-- `none` where one of the questions fails.
unfoldable pub resolve_device_capabilities : Option Probe → ℕ
resolve_device_capabilities none = 0
resolve_device_capabilities (some p) = capabilities_of p

abbrev hash_step : ℕ → ℕ → ℕ
hash_step hash byte = (hash * 33 + byte) % 4294967296

-- A char is signed: a byte from 128 on counts as negative.
abbrev char_word : ℕ → ℕ
char_word c = if ltb c 128 then c else c + 4294967040

unfoldable pub hash_name : ℕ → List ℕ → ℕ
hash_name hash [] = hash
hash_name hash (c ∷ s) = hash_name (hash_step hash (char_word c)) s

unfoldable pub generate_uid : ℕ → ℕ → ℕ → List ℕ → ℕ
unfolding hash_name
generate_uid num_keys absmask relmask name =
    let h1 = hash_step 5183 (num_keys / 16777216 % 256) in
    let h2 = hash_step h1 (num_keys / 65536 % 256) in
    let h3 = hash_step h2 (num_keys / 256 % 256) in
    let h4 = hash_step h3 (num_keys % 256) in
    hash_name (hash_step (hash_step h4 absmask) relmask) name

-- A digit of `%x`.
unfoldable pub hex_digit : ℕ → ℕ
hex_digit d = if ltb d 10 then 48 + d else 87 + d

-- `%0nx` of a number with n digits at most: the last digits of the number.
unfoldable pub hex : ℕ → ℕ → List ℕ
unfolding hex_digit
hex zero x = []
hex (suc n) x = hex n (x / 16) ++ (hex_digit (x % 16) ∷ [])

-- The id that device_init prints.
unfoldable pub device_id : Probe → List ℕ → List ℕ
unfolding hex generate_uid
device_id p name =
    hex 4 p.vendor
    ++ (58
        ∷ (hex 4 p.product ++ (58 ∷ hex 8 (generate_uid (length p.keys) p.absmask p.relmask name))))
