-- ===== src/Metadata/Construct.antt =====
-- The construction of the records of src/edp_framework/metadata/models.py by pydantic: the declared
-- bounds of the fields, in the order of the fields, and then the validator of the record. Pydantic
-- gathers the reports of sibling fields in one exception, of which the first one stands here.
-- An assignment to a field of a `StrictModel` runs the same tests on the new record.
pub mod Laws
pub mod Valid
pub mod Same
use enterprise_databrick_fra.Prelude.{
  Bool, true, false, not, ◌&&◌, Option, none, some, List, Result, ok, err, validation_error,
  raise_if, for_each, ◌>>=◌, ◌>>◌, ◌≡◌,
}
use enterprise_databrick_fra.Prelude.Int.{ℤ, pos, ltb_ℤ}
use enterprise_databrick_fra.Prelude.Double.{le_double, zero_double, one_double}
use enterprise_databrick_fra.Metadata.Models.{
  BootstrapSpec, RetentionSpec, CursorSpec, OrderingSpec, BronzeSpec, QualityRule, QualitySpec,
  ReconciliationRule, ReconciliationSpec, SlaSpec, TableSpec,
}
use enterprise_databrick_fra.Metadata.Validators.{
  no_items, validate_handoff, validate_at_least_once, validate_source_window,
  validate_custom_provider, validate_soft_delete, validate_quarantine, validate_semantics,
}

-- Field(ge=1)
abbrev pub below_one : ℤ → Bool
below_one n = ltb_ℤ n (pos 1)

-- Field(default=None, ge=1)
abbrev pub given_below_one : Option ℤ → Bool
given_below_one none = false
given_below_one (some n) = below_one n

unfoldable pub construct_retention : RetentionSpec → Result RetentionSpec
construct_retention r = do
  raise_if (given_below_one r.source_replay_window_hours)
      (validation_error "source_replay_window_hours")
  raise_if (below_one r.required_recovery_window_hours)
      (validation_error "required_recovery_window_hours")
  raise_if (below_one r.alert_before_expiry_hours) (validation_error "alert_before_expiry_hours")
  validate_source_window r

-- Field(min_length=1) on the columns of an optional cursor and of an optional ordering.
unfoldable pub construct_cursor : Option CursorSpec → Result (Option CursorSpec)
construct_cursor none = ok none
construct_cursor (some c) = do
  raise_if (no_items c.columns) (validation_error "columns")
  ok (some c)

unfoldable pub construct_ordering : Option OrderingSpec → Result (Option OrderingSpec)
construct_ordering none = ok none
construct_ordering (some o) = do
  raise_if (no_items o.columns) (validation_error "columns")
  ok (some o)

unfoldable pub construct_bronze : BronzeSpec → Result BronzeSpec
construct_bronze b = do
  raise_if (below_one b.retention_days) (validation_error "retention_days")
  ok b

-- Field(ge=0.0, le=1.0)
abbrev pub is_fraction : QualityRule → Bool
is_fraction rule = le_double zero_double rule.threshold && le_double rule.threshold one_double

unfoldable pub construct_quality_rule : QualityRule → Result (Unit {0})
construct_quality_rule rule = raise_if (not (is_fraction rule)) (validation_error "threshold")

unfoldable pub construct_quality : QualitySpec → Result QualitySpec
construct_quality q = do for_each construct_quality_rule q.rules; validate_quarantine q

-- Field(ge=0.0)
unfoldable pub construct_reconciliation_rule : ReconciliationRule → Result (Unit {0})
construct_reconciliation_rule rule =
    raise_if (not (le_double zero_double rule.tolerance)) (validation_error "tolerance")

unfoldable pub construct_reconciliation : ReconciliationSpec → Result ReconciliationSpec
construct_reconciliation r = do for_each construct_reconciliation_rule r.rules; ok r

unfoldable pub construct_sla : SlaSpec → Result SlaSpec
construct_sla s = do
  raise_if (given_below_one s.freshness_minutes) (validation_error "freshness_minutes")
  raise_if (given_below_one s.max_recovery_minutes) (validation_error "max_recovery_minutes")
  ok s

-- `TableSpec.model_validate` of a mapping whose fields have the declared types.
unfoldable pub model_validate : TableSpec → Result TableSpec
model_validate t = do
  raise_if (below_one t.version) (validation_error "version")
  validate_custom_provider t.capture
  validate_handoff t.bootstrap
  validate_at_least_once t.delivery
  construct_retention t.retention
  construct_cursor t.cursor
  construct_ordering t.ordering
  construct_bronze t.bronze
  validate_soft_delete t.deletes
  construct_quality t.quality
  construct_reconciliation t.reconciliation
  construct_sla t.sla
  validate_semantics t

-- All that the functions above compute with, for runs on concrete records.
unfoldable pub construct_all : Unit {0}
unfolding model_validate construct_retention construct_cursor construct_ordering construct_bronze
    construct_quality_rule construct_quality construct_reconciliation_rule construct_reconciliation
    construct_sla validate_handoff validate_at_least_once validate_source_window
    validate_custom_provider validate_soft_delete validate_quarantine validate_semantics
construct_all = tt
