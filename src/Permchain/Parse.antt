-- ===== src/Permchain/Parse.antt =====
-- `add_chmod_rules_to_permchain` of src/permchain.c: the parser of rules.
use cachefs.Prelude.Bits.{bit_or}
use cachefs.Prelude.{
  ℕ, zero, suc, ◌+◌, ◌-◌, ◌*◌, Bool, true, false, ◌&&◌, ◌||◌, Option, none, some, List, [], ◌∷◌,
  ◌++◌, length, leb, ltb, ◌==◌, if◌then◌else◌, Str,
}
use cachefs.Posix.{Status, ok, failed}
use cachefs.Permchain.{
  RuleOp, Rule, pc_apply_files, pc_apply_dirs, pc_flags_default, create_rule, permchain_create,
  permchain_cat,
}

unfoldable pub contains : Str → ℕ → Bool
contains [] c = false
contains (x ∷ xs) c = x == c || contains xs c

unfoldable pub is_operand : ℕ → Bool
is_operand c =
    c == b'r'
    || c == b'w'
    || c == b'x'
    || c == b'X'
    || c == b'D'
    || c == b's'
    || c == b't'
    || c == b'u'
    || c == b'g'
    || c == b'o'

unfoldable pub operator_of : ℕ → Option RuleOp
operator_of c =
    if c == b'='
    then some RuleOp.assign
    else if c == b'+'
    then some RuleOp.add
    else if c == b'-'
    then some RuleOp.remove
    else none

-- A character left of the operator, other than an operator: who, or what kind of file.
unfoldable pub who : ℕ → Rule → Option Rule
who c r =
    if c == b'u'
    then some (record r { mask = bit_or r.mask 0o700 })
    else if c == b'g'
    then some (record r { mask = bit_or r.mask 0o70 })
    else if c == b'o'
    then some (record r { mask = bit_or r.mask 0o7 })
    else if c == b'a'
    then some (record r { mask = 0o777 })
    else if c == b'f'
    then some (record r { flags = bit_or r.flags pc_apply_files })
    else if c == b'd'
    then some (record r { flags = bit_or r.flags pc_apply_dirs })
    else none

-- The loop in state RHS.
unfoldable pub right_side : Rule → Str → Option Rule
right_side r [] = some r
right_side r (c ∷ cs) =
    let rest =
      right_side
        (if contains r.as_operands c then r else record r { as_operands = r.as_operands ++ c ∷ [] })
        cs in
    if is_operand c then rest else none

-- The loop in state LHS; `first` tells that the character is the first of the rule.
unfoldable pub left_side : Bool → Rule → Str → Option Rule
left_side first r [] = some r
left_side first r (c ∷ cs) = elim (operator_of c) [
  | some op ↦ right_side (record r { op = op; mask = if first then 0o777 else r.mask }) cs
  | none ↦ elim (who c r) [ none ↦ none | some r' ↦ left_side false r' cs ]
]

abbrev with_default_flags : Rule → Rule
with_default_flags r = if r.flags == 0 then record r { flags = pc_flags_default } else r

-- The rule is appended only if all of it was read.
unfoldable pub add_chmod_rule_to_permchain : Str → List Rule → Status × List Rule
unfolding left_side right_side who operator_of is_operand contains
add_chmod_rule_to_permchain rule pc =
    elim (left_side true (record create_rule { flags = 0 }) rule) [
      | none ↦ (failed, pc)
      | some r ↦ (ok, permchain_cat pc (with_default_flags r ∷ []))
    ]

-- strtol in base 8 of a text that starts with a digit.
unfoldable pub strtol_octal : ℕ → Str → ℕ
strtol_octal n [] = n
strtol_octal n (c ∷ cs) =
    let rest = strtol_octal (n * 8 + (c - 48)) cs in if leb 48 c && leb c 55 then rest else n

unfoldable pub add_octal_rule_to_permchain : Str → List Rule → Status × List Rule
unfolding strtol_octal
add_octal_rule_to_permchain rule pc =
    let mode = strtol_octal 0 rule in
    if ltb 0o777 mode then (failed, pc) else (
      ok,
      permchain_cat pc
          (record create_rule { op = RuleOp.octal; mask = 0o777; as_octal = mode } ∷ []),
    )

-- Up to the next ',' or ':', and what follows that delimiter, if there is one.
unfoldable pub split_rule : Str → Str × Option Str
split_rule [] = ([], none)
split_rule (c ∷ cs) =
    let (front, rest) = split_rule cs in
    if c == b',' || c == b':' then ([], some cs) else (c ∷ front, rest)

-- One rule: octal if it starts with a digit; an empty one is an error.
unfoldable pub add_rule : Str → List Rule → Option (List Rule)
add_rule [] pc = none
add_rule (c ∷ cs) pc =
    let (status, pc') =
      if leb 48 c && leb c 57
      then add_octal_rule_to_permchain (c ∷ cs) pc
      else add_chmod_rule_to_permchain (c ∷ cs) pc in
    elim status [ ok ↦ some pc' | failed ↦ none ]

-- The loop over the rules, with fuel; the text after a last delimiter may be empty.
unfoldable pub add_rules : ℕ → Str → List Rule → Option (List Rule)
add_rules zero text pc = none
add_rules (suc fuel) [] pc = some pc
add_rules (suc fuel) (c ∷ cs) pc =
    let (front, rest) = split_rule (c ∷ cs) in
    elim (add_rule front pc) [
      | none ↦ none
      | some pc' ↦ elim rest [ none ↦ some pc' | some text ↦ add_rules fuel text pc' ]
    ]

-- Each round takes at least one character, so the length of the text is fuel enough.
unfoldable pub add_chmod_rules_to_permchain : Str → List Rule → Status × List Rule
unfolding add_rules add_rule split_rule
add_chmod_rules_to_permchain rule pc = elim (add_rules (suc (length rule)) rule permchain_create) [
  | none ↦ (failed, pc)
  | some newpc ↦ (ok, permchain_cat pc newpc)
]
