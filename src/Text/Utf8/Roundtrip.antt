-- ===== src/Text/Utf8/Roundtrip.antt =====
-- src/strutil.c: utf8_read_char and utf8_strlen read back the UTF-8 encoding.
use keyd_fork.Common.{
  ℕ, zero, suc, ◌+◌, ◌/◌, ◌%◌, ◌≤◌, ◌<◌, ◌≡◌, refl, ap, ◌∙◌, some, List, [], ◌∷◌, ◌++◌, arith, ltb,
  if◌then◌else◌, length, drop, length-append,
}
use keyd_fork.Text.Utf8.{
  char, utf8_read_char, read_two, read_three, read_four, utf8_count, utf8_strlen,
}

-- UTF-8 as the standard defines it.
abbrev pub utf8_encode : ℕ → List ℕ
utf8_encode c =
    if ltb c 128
    then c ∷ []
    else if ltb c 2048
    then (192 + c / 64) ∷ (128 + c % 64) ∷ []
    else if ltb c 65536
    then (224 + c / 4096) ∷ (128 + c / 64 % 64) ∷ (128 + c % 64) ∷ []
    else (240 + c / 262144) ∷ (128 + c / 4096 % 64) ∷ (128 + c / 64 % 64) ∷ (128 + c % 64) ∷ []

-- utf8_read_char reads a code point below 1114112 that is encoded at the start of a string, with
-- its size.
pub utf8_read_char-encode :
    (c : ℕ) (rest : List ℕ)
    → c < 1114112
    → utf8_read_char (utf8_encode c ++ rest) ≡ char (length (utf8_encode c)) c
unfolding utf8_read_char read_two read_three read_four
utf8_read_char-encode c rest h = ground arith

abbrev pub utf8_encode_all : List ℕ → List ℕ
utf8_encode_all [] = []
utf8_encode_all (c ∷ cs) = utf8_encode c ++ utf8_encode_all cs

abbrev pub AllCodes : List ℕ → Type 0
AllCodes [] = Unit {0}
AllCodes (c ∷ cs) = (c < 1114112) × AllCodes cs

drop-append : (xs ys : List ℕ) → drop (length xs) (xs ++ ys) ≡ ys
drop-append [] ys = refl
drop-append (x ∷ xs) ys = drop-append xs ys

encode_size : (c : ℕ) → 1 ≤ length (utf8_encode c)
encode_size c = ground arith

utf8_count-char :
    (fuel n size c : ℕ) (s : List ℕ)
    → utf8_read_char s ≡ char size c
    → utf8_count (suc fuel) n s ≡ utf8_count fuel (suc n) (drop size s)
unfolding utf8_count
utf8_count-char fuel n size c s e = rw (e, utf8_count) refl

utf8_count-encode :
    (fuel n : ℕ) (cs : List ℕ)
    → length (utf8_encode_all cs) < fuel
    → AllCodes cs
    → utf8_count fuel n (utf8_encode_all cs) ≡ some (n + length cs)
unfolding utf8_count utf8_read_char
utf8_count-encode zero n cs h k = absurd (omega arith)
utf8_count-encode (suc fuel) n [] h k = ap some (omega arith)
utf8_count-encode (suc fuel) n (c ∷ cs) h (k, ks) =
    let e = utf8_encode c in
    let rest = utf8_encode_all cs in
    utf8_count-char fuel n (length e) c (e ++ rest) (utf8_read_char-encode c rest k)
    ∙ ap (utf8_count fuel (suc n)) (drop-append e rest)
    ∙ utf8_count-encode fuel (suc n) cs (omega (arith, h, encode_size c, length-append e rest)) ks
    ∙ ap some (omega arith)

-- utf8_strlen counts the code points, below 1114112, of a string in UTF-8.
pub utf8_strlen-encode :
    (cs : List ℕ) → AllCodes cs → utf8_strlen (utf8_encode_all cs) ≡ some (length cs)
unfolding utf8_strlen
utf8_strlen-encode cs k =
    utf8_count-encode (suc (length (utf8_encode_all cs))) 0 cs (omega arith) k
    ∙ ap some (omega arith)
