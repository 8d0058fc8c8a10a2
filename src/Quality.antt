-- ===== src/Quality.antt =====
-- src/edp_framework/quality/expectations.py
pub mod Partition
use enterprise_databrick_fra.Prelude.{
  String, ◌<>◌, Bool, true, false, Option, none, some, List, [], ◌∷◌, map, ◌==◌, if◌then◌else◌,
}
use enterprise_databrick_fra.Prelude.Text.{join}
use enterprise_databrick_fra.Metadata.Enums.{DqAction, dq_action_eq}
use enterprise_databrick_fra.Metadata.Models.{QualityRule}
use enterprise_databrick_fra.Pipelines.{Function, expect, expect_or_fail}

unfoldable pub rules_for_action : List QualityRule → DqAction → List QualityRule
rules_for_action [] action = []
rules_for_action (rule ∷ rules) action =
    let rest = rules_for_action rules action in if rule.action == action then rule ∷ rest else rest

abbrev pub parenthesized : QualityRule → String
parenthesized rule = "(" <> (rule.expression <> ")")

unfoldable pub valid_expression : List QualityRule → Option String
valid_expression [] = none
valid_expression (rule ∷ rules) = some (join " AND " (map parenthesized (rule ∷ rules)))

unfoldable pub invalid_expression : List QualityRule → Option String
invalid_expression [] = none
invalid_expression (rule ∷ rules) =
    some (join " OR " (map (λ r. "NOT " <> parenthesized r) (rule ∷ rules)))

-- The two loops of `decorate_expectations`.
abbrev pub expect_all : List QualityRule → Function → Function
expect_all [] decorated = decorated
expect_all (rule ∷ rules) decorated = expect_all rules (expect rule.name rule.expression decorated)

abbrev pub expect_all_or_fail : List QualityRule → Function → Function
expect_all_or_fail [] decorated = decorated
expect_all_or_fail (rule ∷ rules) decorated =
    expect_all_or_fail rules (expect_or_fail rule.name rule.expression decorated)

unfoldable pub decorate_expectations : Function → List QualityRule → Function
decorate_expectations function rules =
    expect_all_or_fail (rules_for_action rules DqAction.fail)
      (expect_all (rules_for_action rules DqAction.warn) function)
