-- ===== src/Permchain/Parsed.antt =====
-- The rules that `add_chmod_rules_to_permchain` of src/permchain.c adds.
use cachefs.Prelude.Bits.{bit_or, bit_or-shift}
use cachefs.Prelude.{
  ℕ, zero, suc, ◌/◌, ◌^◌, ◌<◌, ◌≡◌, refl, ◌∙◌, ap, Bool, true, false, inl, inr, some, List, [], ◌∷◌,
  ◌++◌, All, arith, length, ltb, leb, ◌&&◌, ◌||◌, ◌==◌, Str, Bool-cases, Option-cases,
  if◌then◌else◌,
}
use cachefs.Posix.{ok, failed}
use cachefs.Permchain.{RuleOp, Rule, create_rule, permchain_create, permchain_apply}
use cachefs.Permchain.Parse.{
  contains, who, operator_of, right_side, left_side, add_chmod_rule_to_permchain, strtol_octal,
  add_octal_rule_to_permchain, split_rule, add_rule, add_rules, add_chmod_rules_to_permchain,
}
use cachefs.Permchain.Apply.{IsRule, permchain_apply-upper}

All-append {ℓ κ} :
    {A : Type ℓ} (P : A → Type κ) (xs ys : List A) → All P xs → All P ys → All P (xs ++ ys)
All-append P [] ys hx hy = hy
All-append P (x ∷ xs) ys hx hy = (hx.0, All-append P xs ys hx.1 hy)

no_upper : (x : ℕ) → x < 512 → x / 2 ^ 9 ≡ 0
no_upper x h = omega arith

bit_or-lt_512 : (x m : ℕ) → x < 512 → m < 512 → bit_or x m < 512
bit_or-lt_512 x m hx hm =
    let upper : bit_or x m / 2 ^ 9 ≡ 0 =
      bit_or-shift 9 x m
      ∙ ap (λ t. bit_or t (m / 2 ^ 9)) (no_upper x hx)
      ∙ ap (bit_or 0) (no_upper m hm) in
    omega (arith, upper)

who-IsRule : (c : ℕ) (r r' : Rule) → IsRule r → who c r ≡ some r' → IsRule r'
unfolding who
who-IsRule c r r' h e =
    ground (arith, bit_or-lt_512 r.mask 0o700, bit_or-lt_512 r.mask 0o70, bit_or-lt_512 r.mask 0o7)

right_side-IsRule : (text : Str) (r r' : Rule) → IsRule r → right_side r text ≡ some r' → IsRule r'
unfolding right_side
right_side-IsRule [] r r' h e = ground arith
right_side-IsRule (c ∷ cs) r r' h e = elim (Bool-cases (contains r.as_operands c)) [
  | inl old ↦ ground (arith, right_side-IsRule cs r r')
  | inr new ↦
      ground (arith, right_side-IsRule cs (record r { as_operands = r.as_operands ++ c ∷ [] }) r')
]

left_side-IsRule :
    (text : Str) (first : Bool) (r r' : Rule)
    → IsRule r
    → left_side first r text ≡ some r'
    → IsRule r'
unfolding left_side
left_side-IsRule [] first r r' h e = ground arith
left_side-IsRule (c ∷ cs) first r r' h e = elim (Option-cases (operator_of c)) [
  | inr (op, found) ↦
      right_side-IsRule cs (record r { op = op; mask = if first then 0o777 else r.mask }) r'
        (ground arith) (ground arith)
  | inl other ↦ elim (Option-cases (who c r)) [
    | inl bad ↦ absurd (ground arith)
    | inr (r1, good) ↦ left_side-IsRule cs false r1 r' (who-IsRule c r r1 h good) (ground arith)
  ]
]

chmod_rule-IsRule :
    (text : Str) (pc pc' : List Rule)
    → All IsRule pc
    → add_chmod_rule_to_permchain text pc ≡ (ok, pc')
    → All IsRule pc'
unfolding add_chmod_rule_to_permchain
chmod_rule-IsRule text pc pc' h e =
    elim (Option-cases (left_side true (record create_rule { flags = 0 }) text)) [
      | inl bad ↦ absurd (ground arith)
      | inr (r, good) ↦
          let last =
            left_side-IsRule text true (record create_rule { flags = 0 }) r (omega arith) good in
          let r' = if r.flags == 0 then record r { flags = 3 } else r in
          let known : IsRule r' = ground arith in
          let shape : pc' ≡ pc ++ r' ∷ [] = ground arith in
          rw shape (All-append IsRule pc (r' ∷ []) h (known, tt))
    ]

octal_rule-IsRule :
    (text : Str) (pc pc' : List Rule)
    → All IsRule pc
    → add_octal_rule_to_permchain text pc ≡ (ok, pc')
    → All IsRule pc'
unfolding add_octal_rule_to_permchain
octal_rule-IsRule text pc pc' h e = elim (Bool-cases (ltb 0o777 (strtol_octal 0 text))) [
  | inl big ↦ absurd (ground arith)
  | inr small ↦
      let r = record create_rule {
        op = RuleOp.octal;
        mask = 0o777;
        as_octal = strtol_octal 0 text;
      } in
      let known : IsRule r = ground arith in
      let shape : pc' ≡ pc ++ r ∷ [] = ground arith in
      rw shape (All-append IsRule pc (r ∷ []) h (known, tt))
]

add_rule-IsRule :
    (text : Str) (pc pc' : List Rule) → All IsRule pc → add_rule text pc ≡ some pc' → All IsRule pc'
unfolding add_rule
add_rule-IsRule [] pc pc' h e = absurd (ground arith)
add_rule-IsRule (c ∷ cs) pc pc' h e = elim (Bool-cases (leb 48 c && leb c 57)) [
  | inl digit ↦ octal_rule-IsRule (c ∷ cs) pc pc' h (ground arith)
  | inr other ↦ chmod_rule-IsRule (c ∷ cs) pc pc' h (ground arith)
]

add_rules-IsRule :
    (fuel : ℕ) (text : Str) (pc pc' : List Rule)
    → All IsRule pc
    → add_rules fuel text pc ≡ some pc'
    → All IsRule pc'
unfolding add_rules
add_rules-IsRule zero text pc pc' h e = absurd (ground arith)
add_rules-IsRule (suc fuel) [] pc pc' h e = let same : pc' ≡ pc = ground arith in rw same h
add_rules-IsRule (suc fuel) (c ∷ cs) pc pc' h e =
    elim (Option-cases (add_rule (split_rule (c ∷ cs)).0 pc)) [
      | inl bad ↦ absurd (ground arith)
      | inr (pc1, good) ↦
          let h1 = add_rule-IsRule (split_rule (c ∷ cs)).0 pc pc1 h good in
          elim (Option-cases (split_rule (c ∷ cs)).1) [
            | inl last ↦ (let same : pc' ≡ pc1 = ground arith in rw same h1)
            | inr (text, more) ↦ add_rules-IsRule fuel text pc1 pc' h1 (ground arith)
          ]
    ]

split_rule-shorter : (text rest : Str) → (split_rule text).1 ≡ some rest → length rest < length text
unfolding split_rule
split_rule-shorter [] rest h = absurd (ground arith)
split_rule-shorter (c ∷ cs) rest h = elim (Bool-cases (c == b',' || c == b':')) [
  | inl e ↦ (let same : rest ≡ cs = ground arith in rw same (omega arith))
  | inr e ↦ omega (arith, split_rule-shorter cs rest (ground arith))
]

-- The fuel of the loop over the rules: with more than the text's length the result is the same.
add_rules-fuel :
    (k l : ℕ) (text : Str) (pc : List Rule)
    → length text < k
    → length text < l
    → add_rules k text pc ≡ add_rules l text pc
unfolding add_rules
add_rules-fuel zero l text pc hk hl = absurd (omega arith)
add_rules-fuel (suc k) zero text pc hk hl = absurd (omega arith)
add_rules-fuel (suc k) (suc l) [] pc hk hl = refl
add_rules-fuel (suc k) (suc l) (c ∷ cs) pc hk hl =
    elim (Option-cases (add_rule (split_rule (c ∷ cs)).0 pc)) [
      | inl bad ↦ ground arith
      | inr (pc1, good) ↦ elim (Option-cases (split_rule (c ∷ cs)).1) [
        | inl last ↦ ground arith
        | inr (text, more) ↦
            let shorter = split_rule-shorter (c ∷ cs) text more in
            ground (arith, add_rules-fuel k l text pc1 (omega arith) (omega arith))
      ]
    ]

-- Whatever the text, a chain that `add_chmod_rules_to_permchain` extends and accepts has rules with
-- permission bits only if the old chain had, and a text that is refused leaves the chain as it was.
pub add_chmod_rules-IsRule :
    (text : Str) (pc : List Rule)
    → All IsRule pc
    → All IsRule (add_chmod_rules_to_permchain text pc).1
      × ((add_chmod_rules_to_permchain text pc).0 ≡ failed
          → (add_chmod_rules_to_permchain text pc).1 ≡ pc)
unfolding add_chmod_rules_to_permchain
add_chmod_rules-IsRule text pc h =
    elim (Option-cases (add_rules (suc (length text)) text permchain_create)) [
      | inl bad ↦ rw (bad, add_chmod_rules_to_permchain) (h, λ e. refl)
      | inr (new, good) ↦
          rw (good, add_chmod_rules_to_permchain)
            (
              All-append IsRule pc new h (
                  add_rules-IsRule (suc (length text)) text permchain_create new
                    (unfold permchain_create in omega arith) good),
              λ e. absurd (ground arith),
            )
    ]

-- A chain that `add_chmod_rules_to_permchain` accepts into the chain of `permchain_create` changes,
-- applied to a 32-bit mode, none of the bits above the nine permission bits.
pub apply_parsed-upper :
    (text : Str) (pc : List Rule) (mode : ℕ)
    → add_chmod_rules_to_permchain text permchain_create ≡ (ok, pc)
    → mode < 2 ^ 32
    → permchain_apply pc mode / 2 ^ 9 ≡ mode / 2 ^ 9
apply_parsed-upper text pc mode parsed fits =
    permchain_apply-upper pc mode
      (rw parsed at
        (add_chmod_rules-IsRule text permchain_create (unfold permchain_create in omega arith)).0)
      fits
