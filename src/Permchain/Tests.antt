-- ===== src/Permchain/Tests.antt =====
-- src/permchain.c at concrete inputs.
use cachefs.Prelude.{◌/◌, ◌^◌, ◌≡◌, refl, List, [], ◌∷◌, All, arith, bytes}
use cachefs.Posix.{ok, failed}
use cachefs.Permchain.{RuleOp, Rule, create_rule, permchain_create, permchain_apply}
use cachefs.Permchain.Parse.{add_chmod_rules_to_permchain, add_chmod_rule_to_permchain}
use cachefs.Permchain.Apply.{IsRule, permchain_apply-upper}
use cachefs.Permchain.Parsed.{add_chmod_rules-IsRule}

abbrev rules : List Rule
rules =
    create_rule
    ∷ create_rule
    ∷ (record { op = RuleOp.add; flags = 3; mask = 0o700; as_operands = bytes "rw"; as_octal = 0 })
    ∷ (record {
      op = RuleOp.remove;
      flags = 3;
      mask = 0o7;
      as_operands = bytes "rwx";
      as_octal = 0;
    })
    ∷ []

parse_runs : add_chmod_rules_to_permchain (bytes "u+rw,o-rwx") permchain_create ≡ (ok, rules)
unfolding add_chmod_rules_to_permchain add_chmod_rule_to_permchain permchain_create
parse_runs = refl

parse_refused :
    add_chmod_rules_to_permchain (bytes "u+rw,,") permchain_create ≡ (failed, permchain_create)
unfolding add_chmod_rules_to_permchain add_chmod_rule_to_permchain permchain_create
parse_refused = refl

apply_runs : permchain_apply rules 0o100147 ≡ 0o100740
unfolding permchain_apply
apply_runs = refl

permchain_apply-upper_example : permchain_apply rules 0o100147 / 2 ^ 9 ≡ 0o100147 / 2 ^ 9
permchain_apply-upper_example = permchain_apply-upper rules 0o100147 (omega arith) (omega arith)

add_chmod_rules-IsRule_example :
    All IsRule (add_chmod_rules_to_permchain (bytes "u+rw,,") permchain_create).1
    × ((add_chmod_rules_to_permchain (bytes "u+rw,,") permchain_create).0 ≡ failed
        → (add_chmod_rules_to_permchain (bytes "u+rw,,") permchain_create).1 ≡ permchain_create)
unfolding permchain_create
add_chmod_rules-IsRule_example =
    add_chmod_rules-IsRule (bytes "u+rw,,") permchain_create (omega arith)
