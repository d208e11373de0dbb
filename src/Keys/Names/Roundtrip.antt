-- ===== src/Keys/Names/Roundtrip.antt =====
-- src/keys.c: the parsers read back what modstring and the table write.
use keyd_fork.Common.{
  ℕ, zero, suc, ◌%◌, ◌<◌, bit_and, bit_or, ◌≡◌, refl, ap, subst, ◌∙◌, inl, inr, Bool, true, false,
  not, ◌&&◌, Option, none, some, List, [], ◌∷◌, ◌++◌, arith, ◌==◌, if◌then◌else◌, ==_eq, Bool-cases,
  get_elem?,
}
use keyd_fork.Keys.Table.{Keycode, keycode_table}
use keyd_fork.Keys.{mod_alt, mod_super, mod_shift, mod_ctrl, mod_alt_gr}
use keyd_fork.Keys.Names.{
  mod_letter, mod_mask, modstring, parse_modset, parse_prefix, mod_letters, find_key, find_sequence,
  parse_key_sequence,
}

-- Over a small range, every value is checked by evaluation.
pub all_below : ℕ → (ℕ → Bool) → Bool
all_below zero p = true
all_below (suc n) p = p n && all_below n p

pub all_below-true : (n : ℕ) (p : ℕ → Bool) (x : ℕ) → all_below n p ≡ true → x < n → p x ≡ true
unfolding all_below
all_below-true zero p x h lt = absurd (omega arith)
all_below-true (suc n) p x h lt = ground (arith, all_below-true n p x)

abbrev is_some_of : Option ℕ → ℕ → Bool
is_some_of none n = false
is_some_of (some m) n = m == n

is_some_of-eq : (o : Option ℕ) (n : ℕ) → is_some_of o n ≡ true → o ≡ some n
is_some_of-eq none n h = cc
is_some_of-eq (some m) n h = ap some (==_eq m n h)

-- The modifiers have five bits.
modset_table : all_below 256 (λ m. is_some_of (parse_modset (modstring m)) (m % 32)) ≡ true
unfolding all_below parse_modset modstring
modset_table = refl

-- parse_modset reads back what modstring writes: the five modifier bits of a byte.
pub parse_modset-modstring : (m : ℕ) → m < 256 → parse_modset (modstring m) ≡ some (m % 32)
parse_modset-modstring m h =
    is_some_of-eq (parse_modset (modstring m)) (m % 32) (all_below-true 256 _ m modset_table h)

-- The modifiers once a letter has been read, if it stands there.
abbrev read_letter : ℕ → ℕ → ℕ → ℕ
read_letter acc mods mask = if bit_and mask mods == 0 then acc else bit_or acc mask

parse_prefix-step :
    (acc letter mask : ℕ) (s : List ℕ)
    → mod_mask letter ≡ some mask
    → parse_prefix acc (letter ∷ 45 ∷ s) ≡ parse_prefix (bit_or acc mask) s
unfolding parse_prefix
parse_prefix-step acc letter mask s h = rw (h, parse_prefix) refl

parse_prefix-letter :
    (acc mods mask letter : ℕ) (s : List ℕ)
    → mod_mask letter ≡ some mask
    → parse_prefix acc (mod_letter mods mask letter ++ s)
      ≡ parse_prefix (read_letter acc mods mask) s
unfolding mod_letter
parse_prefix-letter acc mods mask letter s h = elim (Bool-cases (bit_and mask mods == 0)) [
  | inl unset ↦ rw unset refl
  | inr set ↦ rw set (parse_prefix-step acc letter mask s h)
]

abbrev read_letters : ℕ → ℕ
read_letters m =
    read_letter
      (read_letter (read_letter (read_letter (read_letter 0 m mod_ctrl) m mod_super) m mod_alt_gr) m
        mod_shift)
      m mod_alt

append_assoc : (xs ys zs : List ℕ) → (xs ++ ys) ++ zs ≡ xs ++ (ys ++ zs)
append_assoc [] ys zs = refl
append_assoc (x ∷ xs) ys zs = ap (λ t. x ∷ t) (append_assoc xs ys zs)

parse_prefix-mod_letters :
    (m : ℕ) (s : List ℕ) → parse_prefix 0 (mod_letters m ++ s) ≡ parse_prefix (read_letters m) s
unfolding mod_letters mod_mask
parse_prefix-mod_letters m s =
    let ctrl = mod_letter m mod_ctrl 67 in
    let super = mod_letter m mod_super 77 in
    let alt_gr = mod_letter m mod_alt_gr 71 in
    let shift = mod_letter m mod_shift 83 in
    let alt = mod_letter m mod_alt 65 in
    ap (parse_prefix 0) (
      append_assoc ctrl (super ++ (alt_gr ++ (shift ++ alt))) s
      ∙ ap (λ t. ctrl ++ t)
          (append_assoc super (alt_gr ++ (shift ++ alt)) s
            ∙ ap (λ t. super ++ t)
                (append_assoc alt_gr (shift ++ alt) s
                  ∙ ap (λ t. alt_gr ++ t) (append_assoc shift alt s))))
    ∙ parse_prefix-letter 0 m mod_ctrl 67 _ refl
    ∙ parse_prefix-letter _ m mod_super 77 _ refl
    ∙ parse_prefix-letter _ m mod_alt_gr 71 _ refl
    ∙ parse_prefix-letter _ m mod_shift 83 _ refl
    ∙ parse_prefix-letter _ m mod_alt 65 s refl

letters_table : all_below 32 (λ m. read_letters m == m) ≡ true
unfolding all_below
letters_table = refl

read_letters-eq : (m : ℕ) → m < 32 → read_letters m ≡ m
read_letters-eq m h = ==_eq (read_letters m) m (all_below-true 32 _ m letters_table h)

-- A name that no dash follows, read after a prefix.
abbrev is_plain : List ℕ → Bool
is_plain [] = false
is_plain (c ∷ []) = true
is_plain (c ∷ d ∷ s) = not (d == 45)

parse_prefix-plain : (m : ℕ) (s : List ℕ) → is_plain s ≡ true → parse_prefix m s ≡ some (m, s)
unfolding parse_prefix
parse_prefix-plain m [] h = cc
parse_prefix-plain m (c ∷ []) h = refl
parse_prefix-plain m (c ∷ d ∷ s) h = ground arith

abbrev is_found : Option (ℕ × Bool) → ℕ → Bool
is_found (some (c, false)) code = c == code
is_found _ code = false

is_found-eq : (o : Option (ℕ × Bool)) (c : ℕ) → is_found o c ≡ true → o ≡ some (c, false)
is_found-eq none c h = cc
is_found-eq (some (d, true)) c h = cc
is_found-eq (some (d, false)) c h = ap (λ d. some (d, false)) (==_eq d c h)

-- Every entry's name is plain, and the search finds that entry by it.
abbrev all_keys : List Keycode → Bool
all_keys [] = true
all_keys (k ∷ ks) =
    is_plain k.name && is_found (find_key k.name keycode_table) k.code && all_keys ks

names_table : all_keys keycode_table ≡ true
unfolding keycode_table find_key
names_table = refl

and_cases : (a : Bool) {b : Bool} → (a && b) ≡ true → (a ≡ true) × (b ≡ true)
and_cases true h = (refl, h)
and_cases false h = cc

all_keys-get :
    (ks : List Keycode) (i : ℕ) (k : Keycode)
    → all_keys ks ≡ true
    → get_elem? ks i ≡ some k
    → (is_plain k.name ≡ true) × (is_found (find_key k.name keycode_table) k.code ≡ true)
all_keys-get [] i k h e = cc
all_keys-get (x ∷ ks) zero k h e =
    let (first, _) =
      and_cases (is_plain x.name && is_found (find_key x.name keycode_table) x.code) h in
    let same : x ≡ k = cc in
    subst
      (λ (k : Keycode).
        (is_plain k.name ≡ true) × (is_found (find_key k.name keycode_table) k.code ≡ true))
      same (and_cases (is_plain x.name) first)
all_keys-get (x ∷ ks) (suc i) k h e =
    all_keys-get ks i k
      (and_cases (is_plain x.name && is_found (find_key x.name keycode_table) x.code) h).1 e

find_sequence-found :
    (m code : ℕ) (name : List ℕ)
    → find_key name keycode_table ≡ some (code, false)
    → find_sequence m name ≡ some (code, m)
unfolding find_sequence
find_sequence-found m code name e = rw (e, find_sequence) refl

empty_plain :
    (m : ℕ) (name : List ℕ) → is_plain name ≡ true → parse_prefix 0 [] ≡ some (m, name) → ⊥
unfolding parse_prefix
empty_plain m [] h e = cc
empty_plain m (c ∷ s) h e = cc

parse_key_sequence-prefix :
    (s : List ℕ) (m : ℕ) (name : List ℕ)
    → is_plain name ≡ true
    → parse_prefix 0 s ≡ some (m, name)
    → parse_key_sequence s ≡ find_sequence m name
unfolding parse_key_sequence
parse_key_sequence-prefix [] m name h e = absurd (empty_plain m name h e)
parse_key_sequence-prefix (c ∷ s) m name h e = rw (e, parse_key_sequence) refl

-- parse_key_sequence reads back the key of an entry of the table under any of the modifiers, written
-- as their letters, each with a dash, and the entry's name.
pub parse_key_sequence-print :
    (i m : ℕ) (k : Keycode)
    → get_elem? keycode_table i ≡ some k
    → m < 32
    → parse_key_sequence (mod_letters m ++ k.name) ≡ some (k.code, m)
parse_key_sequence-print i m k e h =
    let (plain, found) = all_keys-get keycode_table i k names_table e in
    let prefix =
      parse_prefix-mod_letters m k.name
      ∙ ap (λ n. parse_prefix n k.name) (read_letters-eq m h)
      ∙ parse_prefix-plain m k.name plain in
    parse_key_sequence-prefix (mod_letters m ++ k.name) m k.name plain prefix
    ∙ find_sequence-found m k.code k.name (is_found-eq _ k.code found)
