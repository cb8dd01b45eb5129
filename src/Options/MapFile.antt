-- ===== src/Options/MapFile.antt =====
-- `parse_map_file` of src/cachefs.c: the users of a passwd file, or the groups of a group file, go into
-- the map.
use cachefs.Prelude.{
  ℕ, Bool, true, false, Option, none, some, List, [], ◌∷◌, ◌==◌, if◌then◌else◌, Str,
}
use cachefs.Posix.Strtok.{strtok}
use cachefs.Usermap.Spec.{Maps}

-- A line without its newline.
unfoldable pub chomp : Str → Str
chomp [] = []
chomp (c ∷ []) = if c == 10 then [] else c ∷ []
chomp (c ∷ d ∷ cs) = c ∷ chomp (d ∷ cs)

-- What is done with a line: an error, a warning, or a pair of ids.
pub data MapLine : Type 0 where
  malformed ignored : MapLine
  pair : ℕ → ℕ → MapLine

-- The third column, from the text after the first one; the second is skipped.
unfoldable pub third_column : Str → Option Str
third_column text = elim (strtok b':' text) [
  | none ↦ none
  | some (second, rest) ↦ elim (strtok b':' rest) [ none ↦ none | some (third, more) ↦ some third ]
]

unfoldable pub parse_line : (Str → Option ℕ) → Str → MapLine
parse_line value_to_id line = elim (strtok b':' line) [
  | none ↦ malformed
  | some (name, rest) ↦ elim (value_to_id name) [
    | none ↦ ignored
    | some to ↦ elim (third_column rest) [
      | none ↦ malformed
      | some column ↦ elim (value_to_id column) [ none ↦ ignored | some from ↦ pair from to ]
    ]
  ]
]

-- What a line does to the maps, and whether the loop goes on.
unfoldable pub add_line : (ℕ → ℕ → Maps → Bool × Maps) → MapLine → Maps → Bool × Maps
add_line add malformed maps = (false, maps)
add_line add ignored maps = (true, maps)
add_line add (pair from to) maps = add from to maps

module _ (value_to_id : Str → Option ℕ) (add : ℕ → ℕ → Maps → Bool × Maps) where
  unfoldable pub parse_lines : List Str → Maps → Bool × Maps
  parse_lines [] maps = (true, maps)
  parse_lines (line ∷ lines) maps =
      let (added, maps') = add_line add (parse_line value_to_id (chomp line)) maps in
      elim added [ false ↦ (false, maps') | true ↦ parse_lines lines maps' ]

  -- The lines of the file, if it can be opened.
  unfoldable pub parse_map_file : Option (List Str) → Maps → Bool × Maps
  parse_map_file none maps = (false, maps)
  parse_map_file (some lines) maps = parse_lines lines maps
