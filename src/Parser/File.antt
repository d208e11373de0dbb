-- ===== src/Parser/File.antt =====
-- src/config.c: resolve_include_path, read_file and config_parse.
pub mod Plain
pub mod Serves
use keyd_fork.Common.{
  ℕ, zero, suc, ◌+◌, ◌-◌, Bool, false, Option, none, some, List, [], ◌∷◌, ◌++◌, ltb, leb, ◌==◌,
  if◌then◌else◌, length, take, drop, elem, Result, ◌>>=◌, ok, aborted, out_of_fuel, out_of_bounds,
}
use keyd_fork.Config.{Config, Descriptor}
use keyd_fork.Keys.Names.{drop_last}
use keyd_fork.Macro.{Env}
use keyd_fork.Parser.Init.{config_init}
use keyd_fork.Parser.Passes.{config_parse_string}
use keyd_fork.Text.CString.{codes, has_prefix, until_nul}

-- The files of the system: what a path holds for fopen and for open, whether it is there, the part of
-- a path before the last slash, and DATA_DIR.
pub record Files : Type 0 where
  pub fopen : List ℕ → Option (List ℕ)
  pub open_read : List ℕ → Option (List ℕ)
  pub access : List ℕ → Bool
  pub dirname : List ℕ → List ℕ
  pub data_dir : List ℕ

abbrev max_file_sz : ℕ
max_file_sz = 65536

abbrev max_line_len : ℕ
max_line_len = 256

-- `snprintf` of a directory and a name into PATH_MAX bytes.
abbrev join_path : List ℕ → List ℕ → List ℕ
join_path dir name = take 4095 (dir ++ (47 ∷ name))

unfoldable pub resolve_include_path : Files → List ℕ → List ℕ → Option (List ℕ)
resolve_include_path fs path include_path =
    if elem 46 include_path
    then none
    else if fs.access (join_path (fs.dirname path) include_path)
    then some (join_path (fs.dirname path) include_path)
    else if fs.access (join_path fs.data_dir include_path)
    then some (join_path fs.data_dir include_path)
    else none

-- `fgets` with room for n bytes: the bytes to the end of the line, and the rest.
unfoldable pub fgets : ℕ → List ℕ → List ℕ × List ℕ
fgets zero s = ([], s)
fgets (suc n) [] = ([], [])
fgets (suc n) (c ∷ s) =
    let (line, rest) = fgets n s in if c == 10 then (10 ∷ [], s) else (c ∷ line, rest)

unfoldable pub ends_line : List ℕ → Bool
ends_line [] = false
ends_line (c ∷ []) = c == 10
ends_line (c ∷ d ∷ s) = ends_line (d ∷ s)

unfoldable pub skip_spaces : List ℕ → List ℕ
skip_spaces [] = []
skip_spaces (c ∷ s) = let rest = skip_spaces s in if c == 32 then rest else c ∷ s

module _ (fs : Files) where
  -- `buf` is what was written, `sz` bytes: what the file adds, as far as there is room.
  unfoldable pub include_file : List ℕ → List ℕ → List ℕ → List ℕ
  unfolding resolve_include_path
  include_file path buf include_path = elim (resolve_include_path fs path include_path) [
    | none ↦ buf
    | some resolved ↦ elim (fs.open_read resolved) [
      | none ↦ buf
      | some content ↦ buf ++ take (max_file_sz - length buf) content
    ]
  ]

  -- A line that ends in a newline. What strcpy copies from behind one that was added to the last line
  -- is cut off again.
  unfoldable pub add_line : List ℕ → List ℕ → List ℕ → Result (Option (List ℕ))
  unfolding include_file skip_spaces
  add_line path buf line =
      if ltb max_file_sz (length line + length buf)
      then ok none
      else if has_prefix (codes "include ") line
      then ok (some (include_file path buf (skip_spaces (drop 8 (drop_last line)))))
      else if length line + length buf == max_file_sz
      then aborted out_of_bounds
      else ok (some (buf ++ line))

  -- What a round of the loop does; `none` is a jump to fail. An empty line is one that starts with NUL.
  unfoldable pub take_line : List ℕ → List ℕ → List ℕ → Result (Option (List ℕ))
  unfolding add_line ends_line
  take_line path buf line =
      if length line == 0
      then aborted out_of_bounds
      else if ends_line line
      then add_line path buf line
      else if leb max_line_len (length line)
      then ok none
      else add_line path buf (line ++ (10 ∷ []))

  unfoldable pub read_lines : ℕ → List ℕ → List ℕ → List ℕ → Result (Option (List ℕ))
  read_lines zero path buf content = out_of_fuel
  read_lines (suc fuel) path buf [] =
      if length buf == max_file_sz then aborted out_of_bounds else ok (some (until_nul buf))
  read_lines (suc fuel) path buf (c ∷ s) = do
    r ← take_line path buf (until_nul (fgets max_line_len (c ∷ s)).0)
    elim r [ none ↦ ok none | some buf' ↦ read_lines fuel path buf' (fgets max_line_len (c ∷ s)).1 ]

  -- A round takes a byte at least.
  unfoldable pub read_file : List ℕ → Result (Option (List ℕ))
  unfolding read_lines
  read_file path = elim (fs.fopen path) [
    | none ↦ ok none
    | some content ↦ read_lines (suc (length content)) path [] content
  ]

  -- The path of the configuration is left out.
  unfoldable pub config_parse : Env → Descriptor → List ℕ → Result (Option Config)
  unfolding read_file config_init config_parse_string
  config_parse env junk path = do
    r ← read_file path
    elim r [
      | none ↦ ok none
      | some content ↦ (do
        config ← config_init env junk
        config_parse_string env junk config content)
    ]
