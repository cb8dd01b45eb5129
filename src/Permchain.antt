-- ===== src/Permchain.antt =====
-- src/permchain.h and src/permchain.c: chains of permission rules, parsed from chmod-like text and
-- applied to a mode. The linked list is a list of rules; its first rule, with no operator, is the one
-- that `permchain_create` makes. Children prove the properties.
pub mod Parse
pub mod Apply
pub mod Parsed
mod Tests
use cachefs.Prelude.Bits.{bit_and, bit_or, not32}
use cachefs.Prelude.{
  ℕ, ◌*◌, ◌/◌, Bool, true, false, not, ◌&&◌, ◌||◌, Option, none, some, List, [], ◌∷◌, ◌++◌, ◌==◌,
  if◌then◌else◌, Str,
}
use cachefs.Posix.{is_dir}

-- '\0', '=', '+', '-' and 'o'
pub data RuleOp : Type 0 where
  blank assign add remove octal : RuleOp

pub record Rule : Type 0 where
  pub op : RuleOp
  pub flags : ℕ
  pub mask : ℕ
  pub as_operands : Str
  pub as_octal : ℕ

abbrev pub pc_apply_files : ℕ
pc_apply_files = 1

abbrev pub pc_apply_dirs : ℕ
pc_apply_dirs = 2

abbrev pub pc_flags_default : ℕ
pc_flags_default = 3

abbrev pub create_rule : Rule
create_rule = record {
  op = blank;
  flags = pc_flags_default;
  mask = 0;
  as_operands = [];
  as_octal = 0;
}

unfoldable pub permchain_create : List Rule
permchain_create = create_rule ∷ []

abbrev pub permchain_cat : List Rule → List Rule → List Rule
permchain_cat left right = left ++ right

-- 5 to 0555
modebits_to_all : ℕ → ℕ
modebits_to_all perms = bit_or (bit_or perms (perms * 8)) (perms * 64)

-- The bits that one operand character stands for; 's' and 't' are ignored.
pub operand_bits : ℕ → ℕ → ℕ
unfolding modebits_to_all
operand_bits original_mode c =
    if c == b'r'
    then 0o444
    else if c == b'w'
    then 0o222
    else if c == b'x'
    then 0o111
    else if c == b'X'
    then (if is_dir original_mode || not (bit_and original_mode 0o111 == 0) then 0o111 else 0)
    else if c == b'D'
    then (if is_dir original_mode then 0o111 else 0)
    else if c == b'u'
    then modebits_to_all (bit_and original_mode 0o700 / 64)
    else if c == b'g'
    then modebits_to_all (bit_and original_mode 0o70 / 8)
    else if c == b'o'
    then modebits_to_all (bit_and original_mode 0o7)
    else 0

-- The loop over the operands.
pub operands_mode : ℕ → ℕ → Str → ℕ
operands_mode original_mode mode [] = mode
operands_mode original_mode mode (c ∷ cs) =
    operands_mode original_mode (bit_or mode (operand_bits original_mode c)) cs

-- Whether the rule is for files or for directories only, and the target is the other.
pub is_skipped : Rule → ℕ → Bool
is_skipped r tgtmode =
    (is_dir tgtmode && bit_and r.flags pc_apply_dirs == 0)
    || (not (is_dir tgtmode) && bit_and r.flags pc_apply_files == 0)

-- The `switch` on the operator, with the mode of the operands under the mask.
pub combine : RuleOp → ℕ → ℕ → ℕ → ℕ → ℕ
combine blank mask octal_mode mode tgtmode = tgtmode
combine assign mask octal_mode mode tgtmode = bit_or (bit_and tgtmode (not32 mask)) mode
combine add mask octal_mode mode tgtmode = bit_or tgtmode mode
combine remove mask octal_mode mode tgtmode = bit_and tgtmode (bit_or (not32 0o777) (not32 mode))
combine octal mask octal_mode mode tgtmode = bit_or (bit_and tgtmode (not32 0o777)) octal_mode

-- One round of the loop of `permchain_apply`.
pub apply_rule : ℕ → Rule → ℕ → ℕ
unfolding operands_mode operand_bits is_skipped combine
apply_rule original_mode r tgtmode =
    if is_skipped r tgtmode
    then tgtmode
    else combine r.op r.mask r.as_octal
        (bit_and (operands_mode original_mode 0 r.as_operands) r.mask) tgtmode

pub apply_rules : ℕ → List Rule → ℕ → ℕ
apply_rules original_mode [] tgtmode = tgtmode
apply_rules original_mode (r ∷ rs) tgtmode =
    apply_rules original_mode rs (apply_rule original_mode r tgtmode)

unfoldable pub permchain_apply : List Rule → ℕ → ℕ
unfolding apply_rules apply_rule
permchain_apply pc tgtmode = apply_rules tgtmode pc tgtmode
