-- ===== src/Options/Lines.antt =====
-- A map file that is read by `parse_map_file` of src/cachefs.c keeps the maps a pair that undo one another.
use mathlib.Core.Path.{subst}
use mathlib.Core.List.{append-nil, append_assoc}
use cachefs.Prelude.{
  ℕ, ◌≡◌, ◌≢◌, refl, ap, inl, inr, Bool, true, ◌==◌, Bool-cases, Option, none, some, Option-cases,
  List, [], ◌∷◌, ◌++◌, arith, All, Str,
}
use cachefs.Posix.Strtok.{strtok, strtok-append}
use cachefs.Usermap.{no_id}
use cachefs.Usermap.Spec.{Maps}
use cachefs.Usermap.Slice.{IsSlice, IsSlice-trans, NoMinusOne, NoMinusOne-IsSlice}
use cachefs.Usermap.Inverse.{IsMapPair}
use cachefs.Options.MapFile.{
  chomp, MapLine, malformed, ignored, pair, third_column, parse_line, add_line, parse_lines,
  parse_map_file,
}

chomp-append : (line : Str) → (b : Str) × (chomp line ++ b ≡ line)
unfolding chomp
chomp-append [] = ([], refl)
chomp-append (c ∷ []) = elim (Bool-cases (c == 10)) [
  | inl e ↦ (c ∷ [], rw (e, chomp) refl)
  | inr e ↦ ([], rw (e, chomp) refl)
]
chomp-append (c ∷ d ∷ cs) = let (b, h) = chomp-append (d ∷ cs) in (b, ap (λ x. c ∷ x) h)

chomp-IsSlice : (line : Str) → IsSlice (chomp line) line
chomp-IsSlice line = let (b, h) = chomp-append line in ([], b, h)

-- A token and what follows it.
strtok-IsSlice : (d : ℕ) (s t r : Str) → strtok d s ≡ some (t, r) → IsSlice t s × IsSlice r s
strtok-IsSlice d s t r e =
    let (a, b, h) = strtok-append d s t r e in
    ((a, b ++ r, h), (a ++ (t ++ b), [], simp (append_assoc, append-nil) h))

third_column-IsSlice : (text column : Str) → third_column text ≡ some column → IsSlice column text
unfolding third_column
third_column-IsSlice text column e = elim (Option-cases (strtok b':' text)) [
  | inl no_second ↦ absurd (ground arith)
  | inr ((second, rest), e2) ↦ elim (Option-cases (strtok b':' rest)) [
    | inl no_third ↦ absurd (ground arith)
    | inr ((third, more), e3) ↦
        let same : third ≡ column = ground arith in
        subst (λ x. IsSlice x text) same
          (IsSlice-trans third rest text (strtok-IsSlice b':' rest third more e3).0
            (strtok-IsSlice b':' text second rest e2).1)
  ]
]

-- The ids of a line are those of parts of it.
parse_line-ne :
    (lookup : Str → Option ℕ) (line : Str) (from to : ℕ)
    → NoMinusOne lookup line
    → parse_line lookup line ≡ pair from to
    → (from ≢ no_id) × (to ≢ no_id)
unfolding parse_line
parse_line-ne lookup line from to clean e = elim (Option-cases (strtok b':' line)) [
  | inl no_name ↦ absurd (ground arith)
  | inr ((name, rest), e1) ↦ elim (Option-cases (lookup name)) [
    | inl unknown ↦ absurd (ground arith)
    | inr (id, e2) ↦ elim (Option-cases (third_column rest)) [
      | inl no_column ↦ absurd (ground arith)
      | inr (column, e3) ↦
          let (first, later) = strtok-IsSlice b':' line name rest e1 in
          let part = IsSlice-trans column rest line (third_column-IsSlice rest column e3) later in
          ground (arith, clean name first, clean column part)
    ]
  ]
]

-- What adds a pair keeps the maps a pair.
abbrev pub Keeps : (ℕ → ℕ → Maps → Bool × Maps) → Type 0
Keeps add =
    (from to : ℕ) (maps maps' : Maps)
    → from ≢ no_id
    → to ≢ no_id
    → IsMapPair maps
    → add from to maps ≡ (true, maps')
    → IsMapPair maps'

module _ (lookup : Str → Option ℕ) (add : ℕ → ℕ → Maps → Bool × Maps) (keeps : Keeps add) where
  add_line-IsMapPair :
      (r : MapLine) (line : Str) (maps maps' : Maps)
      → NoMinusOne lookup line
      → parse_line lookup line ≡ r
      → IsMapPair maps
      → add_line add r maps ≡ (true, maps')
      → IsMapPair maps'
  unfolding add_line
  add_line-IsMapPair malformed line maps maps' clean is h e = absurd (ground arith)
  add_line-IsMapPair ignored line maps maps' clean is h e =
      let same : maps' ≡ maps = ground arith in rw same h
  add_line-IsMapPair (pair from to) line maps maps' clean is h e =
      let (nf, nt) = parse_line-ne lookup line from to clean is in
      keeps from to maps maps' nf nt h e

  parse_lines-IsMapPair :
      (lines : List Str) (maps maps' : Maps)
      → All (NoMinusOne lookup) lines
      → IsMapPair maps
      → parse_lines lookup add lines maps ≡ (true, maps')
      → IsMapPair maps'
  unfolding parse_lines
  parse_lines-IsMapPair [] maps maps' clean h e =
      let same : maps' ≡ maps = ground arith in rw same h
  parse_lines-IsMapPair (line ∷ lines) maps maps' (clean, rest) h e =
      let r = parse_line lookup (chomp line) in
      let step = add_line add r maps in
      elim (Bool-cases step.0) [
        | inr bad ↦ absurd (ground arith)
        | inl good ↦
            parse_lines-IsMapPair lines step.1 maps' rest
              (add_line-IsMapPair r (chomp line) maps step.1
                (NoMinusOne-IsSlice lookup (chomp line) line (chomp-IsSlice line) clean) refl h
                (λ i. (good i, step.1)))
              (ground arith)
      ]

  pub parse_map_file-IsMapPair :
      (file : Option (List Str)) (maps maps' : Maps)
      → ((lines : List Str) → file ≡ some lines → All (NoMinusOne lookup) lines)
      → IsMapPair maps
      → parse_map_file lookup add file maps ≡ (true, maps')
      → IsMapPair maps'
  unfolding parse_map_file
  parse_map_file-IsMapPair none maps maps' clean h e = absurd (ground arith)
  parse_map_file-IsMapPair (some lines) maps maps' clean h e =
      parse_lines-IsMapPair lines maps maps' (clean lines refl) h e
