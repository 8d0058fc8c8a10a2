-- ===== src/Reconciliation/Audit.antt =====
-- src/edp_framework/reconciliation/audit.py
pub mod Laws
pub mod Unmeasured
pub mod Positions
use enterprise_databrick_fra.Prelude.{
  String, ◌<>◌, Bool, true, false, not, Option, none, some, List, [], ◌∷◌, map, Result, ok, err,
  value_error_of, if◌then◌else◌,
}
use enterprise_databrick_fra.Prelude.Text.{is_identifier}
use enterprise_databrick_fra.Prelude.Double.{Double}
use enterprise_databrick_fra.Metadata.Models.{Severity}
use enterprise_databrick_fra.Session.{
  Session, Run, Cell, Row, null, text, number, flag, timestamp, entries, continue,
}
use enterprise_databrick_fra.Operations.ControlTables.{ensure_control_tables}
use enterprise_databrick_fra.Reconciliation.Engine.{
  ReconciliationReport, ReconciliationResult, Status, passed, warning, failed, skipped,
}
use enterprise_databrick_fra.Reconciliation.Evaluate.{kind_text}

abbrev pub status_text : Status → String
status_text passed = "passed"
status_text warning = "warning"
status_text failed = "failed"
status_text skipped = "skipped"

abbrev pub severity_text : Severity → String
severity_text Severity.warn = "warn"
severity_text Severity.fail = "fail"

abbrev pub optional_text : Option String → Cell
optional_text none = null
optional_text (some s) = text s

abbrev pub optional_number : Option Double → Cell
optional_number none = null
optional_number (some x) = number x

abbrev pub run_row : ReconciliationReport → Row
run_row report =
    ("reconciliation_run_id", text report.reconciliation_run_id)
    ∷ ("dataset_id", text report.dataset_id)
    ∷ ("cutoff_type", text report.cutoff_type)
    ∷ ("cutoff_value", text report.cutoff_value)
    ∷ ("started_at", timestamp report.started_at)
    ∷ ("ended_at", timestamp report.ended_at)
    ∷ ("status", text (status_text report.status))
    ∷ []

abbrev pub result_row : (run_id : String) → ReconciliationResult → Row
result_row run_id result =
    ("reconciliation_run_id", text run_id)
    ∷ ("rule_name", text result.rule_name)
    ∷ ("rule_kind", text (kind_text result.rule_kind))
    ∷ ("expected_value", optional_text result.expected_value)
    ∷ ("actual_value", optional_text result.actual_value)
    ∷ ("variance", optional_number result.variance)
    ∷ ("severity", text (severity_text result.severity))
    ∷ ("passed", flag result.passed)
    ∷ ("details", entries result.details)
    ∷ []

module _ (spark : Session) (catalog : String) (report : ReconciliationReport) where
  -- The append of the results behind the early return.
  unfoldable pub append_results : List ReconciliationResult → Run spark.State (Unit {0})
  append_results [] s = (ok tt, s)
  append_results (result ∷ results) s =
      spark.append (catalog <> ".platform_control.reconciliation_result")
        (map (result_row report.reconciliation_run_id) (result ∷ results)) s

  unfoldable pub append_report : Run spark.State (Unit {0})
  append_report s =
      let (r, s') =
        spark.append (catalog <> ".platform_control.reconciliation_run") (run_row report ∷ []) s in
      continue r (λ _. append_results report.results) s'

  unfoldable pub persist_reconciliation_report : (ensure_schema : Bool) → Run spark.State (Unit {0})
  persist_reconciliation_report ensure_schema s =
      if not (is_identifier catalog)
      then (err (value_error_of "unsafe Unity Catalog identifier" catalog), s)
      else if ensure_schema
      then (let (r, s') = ensure_control_tables spark catalog s in
          continue r (λ _. append_report) s')
      else append_report s
