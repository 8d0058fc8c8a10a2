-- ===== src/Reconciliation/Measures/Unsafe.antt =====
-- Names that the contract of the rules accepts and the measures refuse.
use enterprise_databrick_fra.Prelude.{
  ℕ, String, Bool, true, false, ◌&&◌, ◌||◌, Option, some, List, [], ◌∷◌, ok, err, for_each,
  value_error_of, contains, ◌≡◌, refl, arith,
}
use enterprise_databrick_fra.Prelude.Text.{is_identifier, is_blank}
use enterprise_databrick_fra.Metadata.Models.{RuleKind, ReconciliationRule, TableSpec}
use enterprise_databrick_fra.Reconciliation.Contracts.{
  rule_kind_eq, rule_keys, option, check_mode, check_required, validate_rule,
  validate_reconciliation_contract, key_rule_kinds,
}
use enterprise_databrick_fra.Reconciliation.Engine.{
  Python, ReconciliationContext, supported_rule_kinds,
}
use enterprise_databrick_fra.Reconciliation.Evaluate.{
  keys_for, evaluate_kind, evaluate_rule, evaluate_rules, evaluate_reconciliation,
}
use enterprise_databrick_fra.Reconciliation.Returns.{keys_of-error}
use enterprise_databrick_fra.Reconciliation.Measures.{
  Engine, safe_column, safe_columns, key_columns, distinct_key_count, spark_provider,
}

module _ (spec : TableSpec) (rule : ReconciliationRule) (k : String) (ks : List String)
    (kind : rule.kind ≡ RuleKind.key_count) (keys : rule_keys rule ≡ ok (some (k ∷ ks)))
    (only : spec.reconciliation.rules ≡ rule ∷ []) where
  check_required_count :
      (kind : RuleKind) → kind ≡ RuleKind.key_count → check_required spec rule kind ≡ ok tt
  check_required_count kind e = rw e refl

  and_false : (b : Bool) → (b && false) ≡ false
  and_false true = refl
  and_false false = refl

  rule_accepted : check_mode spec rule ≡ ok tt → validate_rule spec rule ≡ ok tt
  unfolding validate_rule
  rule_accepted mode =
      rw (keys, and_false (contains key_rule_kinds rule.kind), mode)
        (check_required_count rule.kind kind)

  rules_accepted :
      (rules : List ReconciliationRule)
      → rules ≡ rule ∷ []
      → check_mode spec rule ≡ ok tt
      → for_each (validate_rule spec) rules ≡ ok tt
  unfolding for_each
  rules_accepted rules e mode = rw (e, rule_accepted mode) refl

  contract_accepts : check_mode spec rule ≡ ok tt → validate_reconciliation_contract spec ≡ ok tt
  unfolding validate_reconciliation_contract
  contract_accepts mode = ground (arith, rules_accepted spec.reconciliation.rules only mode)

  module _ (python : Python) (context : ReconciliationContext) (engine : Engine)
      (unsafe : is_identifier k ≡ false) where
    unsafe_count :
        (relation : String)
        → distinct_key_count engine relation (k ∷ ks)
          ≡ err (value_error_of "unsafe reconciliation column" k)
    unfolding distinct_key_count key_columns safe_columns safe_column
    unsafe_count relation = rw unsafe refl

    keys_found : keys_for spec context rule ≡ ok (k ∷ ks)
    unfolding keys_for rule_keys
    keys_found = rw (keys_of-error _ _ (option "keys" rule.options) keys) refl

    evaluate_kind_unsafe :
        (kind : RuleKind)
        → kind ≡ RuleKind.key_count
        → evaluate_kind python spec context (spark_provider engine) rule kind
          ≡ err (value_error_of "unsafe reconciliation column" k)
    evaluate_kind_unsafe kind e = rw (e, keys_found, unsafe_count) refl

    count_supported :
        (kind : RuleKind) → kind ≡ RuleKind.key_count → contains supported_rule_kinds kind ≡ true
    unfolding rule_kind_eq
    count_supported kind e = rw e refl

    evaluate_rule_unsafe :
        evaluate_rule python spec context (spark_provider engine) rule
        ≡ err (value_error_of "unsafe reconciliation column" k)
    unfolding evaluate_rule
    evaluate_rule_unsafe =
        ground (arith, count_supported rule.kind kind, evaluate_kind_unsafe rule.kind kind)

    evaluate_rules_unsafe :
        (rules : List ReconciliationRule)
        → rules ≡ rule ∷ []
        → evaluate_rules python spec context (spark_provider engine) rules
          ≡ err (value_error_of "unsafe reconciliation column" k)
    unfolding evaluate_rules
    evaluate_rules_unsafe rules e = rw (e, evaluate_rule_unsafe) refl

    -- If the one rule of a table counts keys and lists a first key that is no identifier, then the
    -- contract accepts the rules of the table and their evaluation on Spark raises, if the
    -- tolerance mode is accepted, the cutoff is given and reconciliation is enabled.
    pub evaluate_reconciliation_unsafe :
        (run_id : Option String) (fresh_id : String) (started ended : ℕ)
        → spec.reconciliation.enabled ≡ true
        → check_mode spec rule ≡ ok tt
        → (is_blank context.cutoff_type || is_blank context.cutoff_value) ≡ false
        → (validate_reconciliation_contract spec ≡ ok tt)
          × (evaluate_reconciliation python spec context
                (spark_provider engine)
                run_id
                fresh_id
                started
                ended
              ≡ err (value_error_of "unsafe reconciliation column" k))
    unfolding evaluate_reconciliation
    evaluate_reconciliation_unsafe run_id fresh_id started ended on mode cutoff = (
      contract_accepts mode,
      ground (arith, evaluate_rules_unsafe spec.reconciliation.rules only),
    )
