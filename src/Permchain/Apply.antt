-- ===== src/Permchain/Apply.antt =====
-- `permchain_apply` of src/permchain.c touches only the nine permission bits.
use cachefs.Prelude.Bits.{
  bit_and, bit_or, not32, bit_and-shift, bit_or-shift, bit_and-ones, bit_and-zero, bit_or-zero,
}
use cachefs.Prelude.{
  ℕ, ◌-◌, ◌/◌, ◌^◌, ◌<◌, ◌≡◌, refl, ◌∙◌, ap, inl, inr, List, [], ◌∷◌, All, arith, Bool-cases,
}
use cachefs.Permchain.{
  RuleOp, blank, assign, add, remove, octal, Rule, operands_mode, is_skipped, combine, apply_rule,
  apply_rules, permchain_apply,
}

-- The mask and the octal mode of a rule have permission bits only.
pub record IsRule (r : Rule) : Type 0 where
  pub mask_fits : r.mask < 512
  pub octal_fits : r.as_octal < 512

lt_512 : (x : ℕ) → x / 2 ^ 9 ≡ 0 → x < 512
lt_512 x h = omega arith

pub bit_and-lt_512 : (x m : ℕ) → m < 512 → bit_and x m < 512
bit_and-lt_512 x m h =
    lt_512 (bit_and x m)
      (bit_and-shift 9 x m ∙ ap (bit_and (x / 2 ^ 9)) (omega arith) ∙ bit_and-zero (x / 2 ^ 9))

-- What a mask keeps whose upper bits are all ones, up to bit 31.
keep_upper : (x m : ℕ) → x < 2 ^ 32 → m / 2 ^ 9 ≡ 2 ^ 23 - 1 → bit_and x m / 2 ^ 9 ≡ x / 2 ^ 9
keep_upper x m hx hm =
    bit_and-shift 9 x m ∙ ap (bit_and (x / 2 ^ 9)) hm ∙ bit_and-ones 23 (x / 2 ^ 9) (omega arith)

add_lower : (x m : ℕ) → m < 512 → bit_or x m / 2 ^ 9 ≡ x / 2 ^ 9
add_lower x m h =
    bit_or-shift 9 x m ∙ ap (bit_or (x / 2 ^ 9)) (omega arith) ∙ bit_or-zero (x / 2 ^ 9)

combine-upper :
    (op : RuleOp) (mask octal_mode mode t : ℕ)
    → mask < 512
    → octal_mode < 512
    → mode < 512
    → t < 2 ^ 32
    → combine op mask octal_mode mode t / 2 ^ 9 ≡ t / 2 ^ 9
unfolding combine
combine-upper blank mask o mode t hk ho hm ht = refl
combine-upper assign mask o mode t hk ho hm ht =
    add_lower (bit_and t (not32 mask)) mode hm ∙ keep_upper t (not32 mask) ht (omega arith)
combine-upper add mask o mode t hk ho hm ht = add_lower t mode hm
combine-upper remove mask o mode t hk ho hm ht =
    let upper : not32 mode / 2 ^ 9 ≡ 2 ^ 23 - 1 = omega arith in
    keep_upper t (bit_or (not32 0o777) (not32 mode)) ht
      (bit_or-shift 9 (not32 0o777) (not32 mode) ∙ ap (bit_or (2 ^ 23 - 1)) upper)
combine-upper octal mask o mode t hk ho hm ht =
    add_lower (bit_and t (not32 0o777)) o ho ∙ keep_upper t (not32 0o777) ht refl

apply_rule-upper :
    (original : ℕ) (r : Rule) (t : ℕ)
    → IsRule r
    → t < 2 ^ 32
    → apply_rule original r t / 2 ^ 9 ≡ t / 2 ^ 9
unfolding apply_rule
apply_rule-upper original r t h ht = elim (Bool-cases (is_skipped r t)) [
  | inl e ↦ rw e
  | inr e ↦ rw e (
      combine-upper r.op r.mask r.as_octal (bit_and (operands_mode original 0 r.as_operands) r.mask)
        t h.mask_fits h.octal_fits
        (bit_and-lt_512 (operands_mode original 0 r.as_operands) r.mask h.mask_fits) ht)
]

apply_rules-upper :
    (original : ℕ) (rs : List Rule) (t : ℕ)
    → All IsRule rs
    → t < 2 ^ 32
    → apply_rules original rs t / 2 ^ 9 ≡ t / 2 ^ 9
unfolding apply_rules
apply_rules-upper original [] t h ht = refl
apply_rules-upper original (r ∷ rs) t h ht =
    let once = apply_rule-upper original r t h.0 ht in
    apply_rules-upper original rs (apply_rule original r t) h.1 (omega (arith, once)) ∙ once

-- If the rules' masks and octal modes have permission bits only, `permchain_apply` changes none of
-- the bits above the nine permission bits of a 32-bit mode: file type, set-id and sticky bits stay.
pub permchain_apply-upper :
    (pc : List Rule) (mode : ℕ)
    → All IsRule pc
    → mode < 2 ^ 32
    → permchain_apply pc mode / 2 ^ 9 ≡ mode / 2 ^ 9
unfolding permchain_apply
permchain_apply-upper pc mode h fits = apply_rules-upper mode pc mode h fits
