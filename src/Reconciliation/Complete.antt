-- ===== src/Reconciliation/Complete.antt =====
-- The contract of `validate_reconciliation_contract` against the run of `evaluate_reconciliation`.
use enterprise_databrick_fra.Prelude.{
  Result, ◌>>=◌, String, true, false, ◌&&◌, ◌||◌, Option, none, some, List, [], ◌∷◌, ok, contains,
  string_eq, ◌≡◌, inl, inr, refl, arith, Returns, Each, for_each_iff, >>-eq-ok, >>=-eq-ok,
  raise_if-eq-ok, Bool-cases, ℕ,
}
use enterprise_databrick_fra.Prelude.Int.{ℤ, pos}
use enterprise_databrick_fra.Prelude.Dict.{Dict}
use enterprise_databrick_fra.Prelude.Text.{is_blank}
use enterprise_databrick_fra.Metadata.Models.{RuleKind, ReconciliationRule, TableSpec}
use enterprise_databrick_fra.Reconciliation.Contracts.{
  rule_kind_eq, key_rule_kinds, option, rule_keys, no_keys, check_required,
  require_non_empty_string, validate_rule, validate_reconciliation_contract,
}
use enterprise_databrick_fra.Reconciliation.Engine.{
  ReconciliationContext, skipped, MeasureProvider, Python, str_option, count, scalar,
  numeric_result,
}
use enterprise_databrick_fra.Reconciliation.Evaluate.{
  keys_or_default, keys_for, required_expression, required_operation_column, evaluate_kind,
  evaluate_rule, evaluate_rules, evaluate_reconciliation, report_of, status_of,
}
use enterprise_databrick_fra.Reconciliation.Returns.{
  IsSupported, >>=-Returns, FloatsReturn, IsComparable, AreComparable, >>=-Returns_at,
  keys_of-error, text_of-error, HasMode, numeric_result-Returns, categorical_result-Returns,
  check_mode-HasMode,
}

module _ (python : Python) (spec : TableSpec) (context : ReconciliationContext)
    (provider : MeasureProvider) (limit : ℕ) where
  -- Two measures return, and what they return can be compared.
  abbrev pub Measures : Result ℤ → Result ℤ → Type 0
  Measures expected actual =
      (e : ℤ) × (a : ℤ) × (expected ≡ ok e)
      × (actual ≡ ok a)
      × IsComparable limit (count e) (count a)

  -- The measures that a rule of a kind takes return, for the keys and texts that it finds, and can
  -- be compared.
  abbrev pub IsMeasured : ReconciliationRule → RuleKind → Type 0
  IsMeasured rule RuleKind.row_count =
      Measures (provider.row_count context.source_relation)
        (provider.row_count context.target_relation)
  IsMeasured rule RuleKind.key_count =
      (keys : List String)
      → keys_for spec context rule ≡ ok keys
      → Measures (provider.distinct_key_count context.source_relation keys)
          (provider.distinct_key_count context.target_relation keys)
  IsMeasured rule RuleKind.pk_presence =
      (keys : List String)
      → keys_for spec context rule ≡ ok keys
      → Measures (ok (pos 0))
          (provider.missing_key_count context.source_relation context.target_relation keys)
  IsMeasured rule RuleKind.aggregate =
      (expression : String)
      → required_expression spec rule ≡ ok expression
      → Returns (provider.numeric_scalar context.source_relation expression)
        × Returns (provider.numeric_scalar context.target_relation expression)
  IsMeasured rule RuleKind.operation_count =
      (column : String)
      → required_operation_column spec rule ≡ ok column
      → (e : Dict ℤ) × (a : Dict ℤ) × (provider.categorical_counts context.source_relation column
          ≡ ok e)
        × (provider.categorical_counts context.target_relation column ≡ ok a)
        × AreComparable limit e a
  IsMeasured rule RuleKind.scd2_current_uniqueness =
      (keys : List String)
      → keys_for spec context rule ≡ ok keys
      → Measures (ok (pos 0)) (
          provider.current_duplicate_key_count context.target_relation keys
            (str_option python rule "end_column" "__END_AT"))
  IsMeasured rule RuleKind.scd2_no_overlap =
      (keys : List String)
      → keys_for spec context rule ≡ ok keys
      → Measures (ok (pos 0)) (
          provider.scd2_overlap_count context.target_relation keys
            (str_option python rule "start_column" "__START_AT")
            (str_option python rule "end_column" "__END_AT"))
  IsMeasured rule _ = Unit

module _ (python : Python) (spec : TableSpec) (context : ReconciliationContext)
    (provider : MeasureProvider) (limit : ℕ) (floats : FloatsReturn python limit) where
  keys_or_default-Returns :
      (rule : ReconciliationRule) (keys : Option (List String)) (context_keys : List String)
      → no_keys keys spec.identity.business_keys ≡ false
      → Returns (keys_or_default spec context_keys rule keys)
  keys_or_default-Returns rule none [] h = (spec.identity.business_keys, ground arith)
  keys_or_default-Returns rule none (k ∷ ks) h = (_, refl)
  keys_or_default-Returns rule (some ks) context_keys h = (_, refl)

  keys_for-Returns :
      (rule : ReconciliationRule) (keys : Option (List String))
      → rule_keys rule ≡ ok keys
      → no_keys keys spec.identity.business_keys ≡ false
      → Returns (keys_for spec context rule)
  unfolding rule_keys keys_for
  keys_for-Returns rule keys e h =
      rw (keys_of-error _ _ (option "keys" rule.options) e)
        (keys_or_default-Returns rule keys context.business_keys h)

  required_expression-Returns :
      (rule : ReconciliationRule)
      → Returns (check_required spec rule RuleKind.aggregate)
      → Returns (required_expression spec rule)
  unfolding require_non_empty_string required_expression
  required_expression-Returns rule (u, h) =
      text_of-error _ _ (option "expression" rule.options) (>>-eq-ok _ _ h).0

  required_operation_column-Returns :
      (rule : ReconciliationRule)
      → Returns (check_required spec rule RuleKind.operation_count)
      → Returns (required_operation_column spec rule)
  unfolding require_non_empty_string required_operation_column
  required_operation_column-Returns rule (u, h) =
      text_of-error _ _ (option "operation_column" rule.options) (>>-eq-ok _ _ h).0

  compared :
      (rule : ReconciliationRule)
      → HasMode python limit floats rule
      → (e a : ℤ) → IsComparable limit (count e) (count a)
      → Returns (numeric_result python rule (count e) (count a))
  compared rule m e a near =
      numeric_result-Returns python limit floats rule m (count e) (count a) near

  compared_zero :
      (rule : ReconciliationRule)
      → HasMode python limit floats rule
      → (actual : Result ℤ) → Measures python spec context provider limit (ok (pos 0)) actual
      → Returns (actual >>= λ a. numeric_result python rule (count (pos 0)) (count a))
  compared_zero rule m actual (e, a, zero, found, near) =
      let same : pos 0 ≡ e = ground arith in rw (found, same) (compared rule m e a near)

  evaluate_kind-Returns :
      (rule : ReconciliationRule) (kind : RuleKind) (keys : Option (List String))
      → rule_keys rule ≡ ok keys
      → (contains key_rule_kinds kind && no_keys keys spec.identity.business_keys) ≡ false
      → HasMode python limit floats rule
      → Returns (check_required spec rule kind)
      → IsMeasured python spec context provider limit rule kind
      → Returns (evaluate_kind python spec context provider rule kind)
  unfolding rule_kind_eq
  evaluate_kind-Returns rule RuleKind.row_count keys e n m r (x, y, ex, ey, near) =
      rw (ex, ey) (compared rule m x y near)
  evaluate_kind-Returns rule RuleKind.key_count keys e n m r g =
      >>=-Returns_at _ _ (keys_for-Returns rule keys e n) (λ ks found.
        let (x, y, ex, ey, near) = g ks found in rw (ex, ey) (compared rule m x y near))
  evaluate_kind-Returns rule RuleKind.pk_presence keys e n m r g =
      >>=-Returns_at _ _ (keys_for-Returns rule keys e n)
        (λ ks found. compared_zero rule m _ (g ks found))
  evaluate_kind-Returns rule RuleKind.aggregate keys e n m r g =
      >>=-Returns_at _ _ (required_expression-Returns rule r) (λ t found.
        >>=-Returns _ _ (g t found).0 (λ x.
          >>=-Returns _ _ (g t found).1
            (λ y. numeric_result-Returns python limit floats rule m (scalar x) (scalar y) tt)))
  evaluate_kind-Returns rule RuleKind.operation_count keys e n m r g =
      >>=-Returns_at _ _ (required_operation_column-Returns rule r) (λ c found.
        let (x, y, ex, ey, near) = g c found in
        rw (ex, ey) (categorical_result-Returns python limit floats rule m x y near))
  evaluate_kind-Returns rule RuleKind.scd2_current_uniqueness keys e n m r g =
      >>=-Returns_at _ _ (keys_for-Returns rule keys e n)
        (λ ks found. compared_zero rule m _ (g ks found))
  evaluate_kind-Returns rule RuleKind.scd2_no_overlap keys e n m r g =
      >>=-Returns_at _ _ (keys_for-Returns rule keys e n)
        (λ ks found. compared_zero rule m _ (g ks found))
  evaluate_kind-Returns rule _ keys e n m r g = (_, refl)

  evaluate_rule-Returns :
      (rule : ReconciliationRule)
      → IsSupported rule
      → Returns (validate_rule spec rule)
      → IsMeasured python spec context provider limit rule rule.kind
      → Returns (evaluate_rule python spec context provider rule)
  unfolding evaluate_rule validate_rule
  evaluate_rule-Returns rule known (u, h) measured =
      let (keys, e, h1) = >>=-eq-ok (rule_keys rule) _ h in
      let (n, h2) = raise_if-eq-ok _ _ _ h1 in
      let ((v, mode), required) = >>-eq-ok _ _ h2 in
      rw known (
        evaluate_kind-Returns rule rule.kind keys e n
          (check_mode-HasMode python limit floats rule spec mode) (_, required) measured)

  evaluate_rules-Returns :
      (rules : List ReconciliationRule)
      → Each IsSupported rules
      → Each (λ rule. Returns (validate_rule spec rule)) rules
      → Each (λ rule. IsMeasured python spec context provider limit rule rule.kind) rules
      → Returns (evaluate_rules python spec context provider rules)
  unfolding evaluate_rules
  evaluate_rules-Returns [] known valid measured = (_, refl)
  evaluate_rules-Returns (rule ∷ rules) known valid measured =
      >>=-Returns _ _ (evaluate_rule-Returns rule known.0 valid.0 measured.0) (λ result.
        >>=-Returns _ _ (evaluate_rules-Returns rules known.1 valid.1 measured.1)
          (λ results. (_, refl)))

  contract_rules :
      spec.reconciliation.enabled ≡ true
      → validate_reconciliation_contract spec ≡ ok tt
      → Each (λ rule. Returns (validate_rule spec rule)) spec.reconciliation.rules
  unfolding validate_reconciliation_contract
  contract_rules on h = (for_each_iff (validate_rule spec) _).0 (tt, ground arith)

  -- If the contract of the rules was accepted and the engine knows their kinds, the cutoff is
  -- given, conversions to floats return below a limit, and the measures that the rules take return
  -- values that can be compared below that limit, then the evaluation returns a report.
  pub evaluate_reconciliation-Returns :
      (run_id : Option String) (fresh_id : String) (started ended : ℕ)
      → validate_reconciliation_contract spec ≡ ok tt
      → Each IsSupported spec.reconciliation.rules
      → Each
          (λ rule. IsMeasured python spec context provider limit rule rule.kind)
          spec.reconciliation.rules
      → (is_blank context.cutoff_type || is_blank context.cutoff_value) ≡ false
      → Returns (evaluate_reconciliation python spec context provider run_id fresh_id started ended)
  unfolding evaluate_reconciliation
  evaluate_reconciliation-Returns run_id fresh_id started ended valid known measured cutoff =
      let report = report_of python spec context provider run_id fresh_id started ended in
      elim (Bool-cases spec.reconciliation.enabled) [
        | inl on ↦
            let (results, e) =
              evaluate_rules-Returns spec.reconciliation.rules known (contract_rules on valid)
                measured in
            (report (status_of results) results, ground arith)
        | inr off ↦ (report skipped [], ground arith)
      ]
