-- ===== src/Reconciliation/Evaluate.antt =====
-- `_evaluate_rule` and `evaluate_reconciliation` of src/edp_framework/reconciliation/engine.py.
use enterprise_databrick_fra.Prelude.{
  ℕ, String, ◌<>◌, Bool, true, false, not, ◌&&◌, ◌||◌, Option, none, some, List, [], ◌∷◌, Result,
  ok, value_error, not_implemented_error, raise_if, ◌>>=◌, ◌>>◌, ◌==◌, contains, string_eq,
  if◌then◌else◌,
}
use enterprise_databrick_fra.Prelude.Int.{pos}
use enterprise_databrick_fra.Prelude.Text.{is_blank, is_empty}
use enterprise_databrick_fra.Metadata.Models.{RuleKind, Severity, ReconciliationRule, TableSpec}
use enterprise_databrick_fra.Metadata.Validators.{no_items}
use enterprise_databrick_fra.Reconciliation.Contracts.{option, rule_kind_eq, keys_of, text_of}
use enterprise_databrick_fra.Reconciliation.Engine.{
  ReconciliationContext, ReconciliationResult, Status, passed, warning, failed, skipped,
  ReconciliationReport, MeasureProvider, Python, count, scalar, supported_rule_kinds, str_option,
  numeric_result, categorical_result,
}

module _ (spec : TableSpec) where
  -- `context.business_keys or tuple(spec.identity.business_keys)`, which must not be empty.
  abbrev pub default_keys : (context_keys : List String) → ReconciliationRule → Result (List String)
  default_keys [] rule = do
    raise_if (no_items spec.identity.business_keys) (
        value_error (
          spec.dataset_id
          <> (": reconciliation rule "
              <> (rule.name
                  <> (" requires keys; declare rule.options.keys when reconciliation identity "
                      <> "differs from business identity")))))
    ok spec.identity.business_keys
  default_keys (k ∷ ks) rule = ok (k ∷ ks)

  abbrev pub keys_or_default :
      (context_keys : List String)
      → ReconciliationRule
      → Option (List String)
      → Result (List String)
  keys_or_default context_keys rule none = default_keys context_keys rule
  keys_or_default context_keys rule (some configured) = ok configured

  unfoldable pub keys_for : ReconciliationContext → ReconciliationRule → Result (List String)
  keys_for context rule = do
    configured ←
        keys_of
          (value_error (
            spec.dataset_id
            <> (": reconciliation rule "
                <> (rule.name <> " options.keys must be a non-empty list of column names"))))
          (option "keys" rule.options)
    keys_or_default context.business_keys rule configured

  unfoldable pub required_expression : ReconciliationRule → Result String
  required_expression rule =
      text_of
        (value_error (
          spec.dataset_id
          <> (": aggregate reconciliation rule " <> (rule.name <> " requires options.expression"))))
        (option "expression" rule.options)

  unfoldable pub required_operation_column : ReconciliationRule → Result String
  required_operation_column rule =
      text_of
        (value_error (
          spec.dataset_id
          <> (": operation_count reconciliation rule "
              <> (rule.name <> " requires options.operation_column"))))
        (option "operation_column" rule.options)

-- `actual is not None and actual == expected`
abbrev pub reached : Option String → String → Bool
reached none cutoff = false
reached (some position) cutoff = position == cutoff

abbrev pub position_result : ReconciliationContext → ReconciliationRule → ReconciliationResult
position_result context rule = record {
  rule_name = rule.name;
  rule_kind = rule.kind;
  expected_value = some context.cutoff_value;
  actual_value = context.observed_target_position;
  variance = none;
  severity = rule.severity;
  passed = reached context.observed_target_position context.cutoff_value;
  details = ("cutoff_type", context.cutoff_type) ∷ [];
}

-- The literal of a kind.
abbrev pub kind_text : RuleKind → String
kind_text RuleKind.row_count = "row_count"
kind_text RuleKind.key_count = "key_count"
kind_text RuleKind.pk_presence = "pk_presence"
kind_text RuleKind.aggregate = "aggregate"
kind_text RuleKind.hash = "hash"
kind_text RuleKind.source_position = "source_position"
kind_text RuleKind.operation_count = "operation_count"
kind_text RuleKind.scd2_current_uniqueness = "scd2_current_uniqueness"
kind_text RuleKind.scd2_no_overlap = "scd2_no_overlap"
kind_text RuleKind.custom = "custom"

module _ (python : Python) (spec : TableSpec) (context : ReconciliationContext)
    (provider : MeasureProvider) where
  -- The measures of a rule of a kind, and their comparison.
  abbrev pub evaluate_kind : ReconciliationRule → RuleKind → Result ReconciliationResult
  evaluate_kind rule RuleKind.row_count = do
    expected ← provider.row_count context.source_relation
    actual ← provider.row_count context.target_relation
    numeric_result python rule (count expected) (count actual)
  evaluate_kind rule RuleKind.key_count = do
    keys ← keys_for spec context rule
    expected ← provider.distinct_key_count context.source_relation keys
    actual ← provider.distinct_key_count context.target_relation keys
    numeric_result python rule (count expected) (count actual)
  evaluate_kind rule RuleKind.pk_presence = do
    keys ← keys_for spec context rule
    actual ← provider.missing_key_count context.source_relation context.target_relation keys
    numeric_result python rule (count (pos 0)) (count actual)
  evaluate_kind rule RuleKind.aggregate = do
    expression ← required_expression spec rule
    expected ← provider.numeric_scalar context.source_relation expression
    actual ← provider.numeric_scalar context.target_relation expression
    numeric_result python rule (scalar expected) (scalar actual)
  evaluate_kind rule RuleKind.operation_count = do
    column ← required_operation_column spec rule
    expected ← provider.categorical_counts context.source_relation column
    actual ← provider.categorical_counts context.target_relation column
    categorical_result python rule expected actual
  evaluate_kind rule RuleKind.scd2_current_uniqueness = do
    keys ← keys_for spec context rule
    actual ←
        provider.current_duplicate_key_count context.target_relation keys
          (str_option python rule "end_column" "__END_AT")
    numeric_result python rule (count (pos 0)) (count actual)
  evaluate_kind rule RuleKind.scd2_no_overlap = do
    keys ← keys_for spec context rule
    actual ←
        provider.scd2_overlap_count context.target_relation keys
          (str_option python rule "start_column" "__START_AT")
          (str_option python rule "end_column" "__END_AT")
    numeric_result python rule (count (pos 0)) (count actual)
  evaluate_kind rule _ = ok (position_result context rule)

  unfoldable pub evaluate_rule : ReconciliationRule → Result ReconciliationResult
  evaluate_rule rule = do
    raise_if (not (contains supported_rule_kinds rule.kind)) (
        not_implemented_error (
          "reconciliation rule kind '"
          <> (kind_text rule.kind
              <> ("' is declared in metadata but is not implemented by the reusable engine; use an "
                  <> "extension/runner rather than silently treating it as passed"))))
    evaluate_kind rule rule.kind

  unfoldable pub evaluate_rules : List ReconciliationRule → Result (List ReconciliationResult)
  evaluate_rules [] = ok []
  evaluate_rules (rule ∷ rules) = do
    result ← evaluate_rule rule
    results ← evaluate_rules rules
    ok (result ∷ results)

-- `not result.passed and result.severity == …`
abbrev pub fails_with : Severity → ReconciliationResult → Bool
fails_with Severity.warn result =
    not result.passed && elim result.severity [ Severity.warn ↦ true | Severity.fail ↦ false ]
fails_with Severity.fail result =
    not result.passed && elim result.severity [ Severity.warn ↦ false | Severity.fail ↦ true ]

unfoldable pub failing : Severity → List ReconciliationResult → List ReconciliationResult
failing severity [] = []
failing severity (result ∷ results) =
    let rest = failing severity results in
    if fails_with severity result then result ∷ rest else rest

unfoldable pub status_of : List ReconciliationResult → Status
status_of results =
    if not (no_items (failing Severity.fail results))
    then failed
    else if not (no_items (failing Severity.warn results))
    then warning
    else passed

-- `reconciliation_run_id or str(uuid4())`
abbrev pub id_or : Option String → (fresh_id : String) → String
id_or none fresh_id = fresh_id
id_or (some id) fresh_id = if is_empty id then fresh_id else id

-- `started` and `ended` are the readings of the clock, `fresh_id` is a new id.
module _ (python : Python) (spec : TableSpec) (context : ReconciliationContext)
    (provider : MeasureProvider) (run_id : Option String) (fresh_id : String)
    (started ended : ℕ) where
  abbrev pub report_of : Status → List ReconciliationResult → ReconciliationReport
  report_of status results = record {
    reconciliation_run_id = id_or run_id fresh_id;
    dataset_id = spec.dataset_id;
    cutoff_type = context.cutoff_type;
    cutoff_value = context.cutoff_value;
    started_at = started;
    ended_at = ended;
    status = status;
    results = results;
  }

  abbrev pub evaluated_report : Result ReconciliationReport
  evaluated_report = do
    results ← evaluate_rules python spec context provider spec.reconciliation.rules
    ok (report_of (status_of results) results)

  unfoldable pub evaluate_reconciliation : Result ReconciliationReport
  evaluate_reconciliation = do
    raise_if (is_blank context.cutoff_type || is_blank context.cutoff_value)
        (value_error (spec.dataset_id <> ": reconciliation requires an explicit cutoff"))
    if not spec.reconciliation.enabled then ok (report_of skipped []) else evaluated_report
