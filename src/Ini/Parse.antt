-- ===== src/Ini/Parse.antt =====
-- src/ini.h and src/ini.c: ini_parse_string. The sections are the array up to `nr_sections`; the
-- pointer `section` is at the last one, and NULL where there is none.
use keyd_fork.Common.{
  ℕ, suc, true, false, not, ◌&&◌, Option, none, some, List, [], ◌∷◌, ◌++◌, ltb, ◌==◌, if◌then◌else◌,
  length, Result, ◌>>=◌, ok, aborted, too_many_sections, too_many_entries, out_of_bounds,
}
use keyd_fork.Ini.{parse_kvp}
use keyd_fork.Text.CString.{skip_space, is_space, last_byte}
use keyd_fork.Keys.Names.{drop_last}

pub record Entry : Type 0 where
  pub key : List ℕ
  pub val : Option (List ℕ)
  pub lnum : ℕ

pub record Section : Type 0 where
  pub name : List ℕ
  pub lnum : ℕ
  pub entries : List Entry

-- The lines; `line` is the one that is read.
unfoldable pub lines_from : List ℕ → List ℕ → List (List ℕ)
lines_from line [] = line ∷ []
lines_from line (c ∷ s) = elim (c == 10) [
  | true ↦ line ∷ lines_from [] s
  | false ↦ lines_from (line ++ (c ∷ [])) s
]

-- The loop from the end of the line.
unfoldable pub trim_end : List ℕ → List ℕ
trim_end [] = []
trim_end (c ∷ s) = elim (trim_end s) [
  | [] ↦ if is_space c then [] else c ∷ []
  | d ∷ s' ↦ c ∷ d ∷ s'
]

-- The name in brackets. The array holds 256 bytes with the NUL.
unfoldable pub add_section : ℕ → List Section → List ℕ → Result (List Section)
add_section ln sections name =
    if not (ltb (length sections) 32)
    then aborted too_many_sections
    else if not (ltb (length name) 256)
    then aborted out_of_bounds
    else ok (sections ++ (record { name = name; lnum = ln; entries = [] } ∷ []))

-- An entry of the last section.
unfoldable pub add_line_entry : ℕ → List ℕ → List Section → Result (List Section)
unfolding parse_kvp
add_line_entry ln line [] = ok []
add_line_entry ln line (section ∷ []) =
    let (key, val) = parse_kvp line in
    let entry : Entry = record { key = key; val = val; lnum = ln } in
    if ltb (length section.entries) 1024
    then ok ((record section { entries = section.entries ++ (entry ∷ []) }) ∷ [])
    else aborted too_many_entries
add_line_entry ln line (section ∷ section' ∷ more) =
    add_line_entry ln line (section' ∷ more) >>= (λ sections. ok (section ∷ sections))

-- A line of neither kind. Without a section it needs the default one; `none` is NULL.
unfoldable pub parse_entry :
    Option (List ℕ) → ℕ → List Section → List ℕ → Result (Option (List Section))
unfolding add_line_entry
parse_entry default' ln (section ∷ more) line =
    add_line_entry ln line (section ∷ more) >>= (λ sections. ok (some sections))
parse_entry none ln [] line = ok none
parse_entry (some name) ln [] line =
    add_line_entry ln line (record { name = name; lnum = 0; entries = [] } ∷ [])
    >>= (λ sections. ok (some sections))

unfoldable pub parse_line :
    Option (List ℕ) → ℕ → List Section → List ℕ → Result (Option (List Section))
unfolding parse_entry add_section
parse_line default' ln sections [] = ok (some sections)
parse_line default' ln sections (c ∷ s) =
    if c == 91 && last_byte s == 93
    then add_section ln sections (drop_last s) >>= (λ sections'. ok (some sections'))
    else if c == 35
    then ok (some sections)
    else parse_entry default' ln sections (c ∷ s)

unfoldable pub parse_lines :
    Option (List ℕ) → ℕ → List Section → List (List ℕ) → Result (Option (List Section))
unfolding parse_line trim_end
parse_lines default' ln sections [] = ok (some sections)
parse_lines default' ln sections (line ∷ more) =
    parse_line default' ln sections (trim_end (skip_space line)) >>= (λ r. elim r [
      | none ↦ ok none
      | some sections' ↦ parse_lines default' (suc ln) sections' more
    ])

unfoldable pub ini_parse_string : List ℕ → Option (List ℕ) → Result (Option (List Section))
unfolding parse_lines lines_from
ini_parse_string s default' = parse_lines default' 1 [] (lines_from [] s)
