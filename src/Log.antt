-- ===== src/Log.antt =====
-- src/log.c: colorize.
pub mod Long
pub mod Marked
use keyd_fork.Common.{
  ℕ, ◌+◌, ◌-◌, Bool, true, false, not, ◌&&◌, List, [], ◌∷◌, ◌++◌, ltb, leb, ◌==◌, if◌then◌else◌,
  length, Result, ok, aborted, out_of_bounds,
}

-- The number of a colour's letter, or 0.
unfoldable pub escape_num : ℕ → ℕ
escape_num c =
    if c == 114
    then 1
    else if c == 103
    then 2
    else if c == 121
    then 3
    else if c == 98
    then 4
    else if c == 109
    then 5
    else if c == 99
    then 6
    else if c == 119
    then 7
    else 0

-- How many bytes are written, whether a colour is on, and whether the next byte is the brace of one.
pub record Colour : Type 0 where
  pub n : ℕ
  pub inside_escape : Bool
  pub skip : Bool

abbrev starts_brace : List ℕ → Bool
starts_brace [] = false
starts_brace (c ∷ s) = c == 123

module _ (suppress_colours : Bool) where
  -- A code, where there is more room than it takes.
  unfoldable pub put_code : ℕ → List ℕ → List ℕ
  put_code n code = if not suppress_colours && ltb (length code) (1024 - n) then code else []

  -- What a round writes, and what it leaves.
  unfoldable pub colorize_byte : Colour → ℕ → List ℕ → List ℕ × Colour
  colorize_byte st c s =
      if leb 1024 st.n
      then ([], st)
      else if st.skip
      then ([], record st { skip = false })
      else if starts_brace s && not (escape_num c == 0)
      then (let out = put_code st.n (27 ∷ 91 ∷ 51 ∷ (48 + escape_num c) ∷ 109 ∷ []) in
          (out, record { n = st.n + length out; inside_escape = true; skip = true }))
      else if c == 125 && st.inside_escape
      then (let out = put_code st.n (27 ∷ 91 ∷ 48 ∷ 109 ∷ []) in
          (out, record { n = st.n + length out; inside_escape = false; skip = false }))
      else (c ∷ [], record st { n = st.n + 1 })

  unfoldable pub colorize_from : Colour → List ℕ → List ℕ
  unfolding colorize_byte
  colorize_from st [] = []
  colorize_from st (c ∷ s) =
      let (out, st') = colorize_byte st c s in let rest = colorize_from st' s in out ++ rest

  -- The NUL goes behind what was written, into 1024 bytes.
  unfoldable pub colorize : List ℕ → Result (List ℕ)
  unfolding colorize_from
  colorize s =
      let buf = colorize_from (record { n = 0; inside_escape = false; skip = false }) s in
      if length buf == 1024 then aborted out_of_bounds else ok buf
