-- ===== src/Reconciliation/Audit/Unmeasured.antt =====
-- A report none of whose results has a variance, against the inference of types in `createDataFrame`.
use enterprise_databrick_fra.Prelude.{
  String, ◌<>◌, true, false, none, some, List, [], ◌∷◌, map, ok, err, Error, ◌≡◌, ◌≢◌, refl, ap,
  Each, string_eq,
}
use enterprise_databrick_fra.Prelude.Text.{is_identifier}
use enterprise_databrick_fra.Prelude.Dict.{get}
use enterprise_databrick_fra.Session.{Session, Row, null}
use enterprise_databrick_fra.Reconciliation.Engine.{ReconciliationReport, ReconciliationResult}
use enterprise_databrick_fra.Reconciliation.Audit.{
  run_row, result_row, optional_number, append_results, append_report,
  persist_reconciliation_report,
}

-- The types of a frame are inferred from its rows: a column that is null in all of them has none, and
-- `createDataFrame` raises before anything is written.
abbrev pub InfersTypes : Session → Type 0
InfersTypes spark =
    (table column : String) (rows : List Row) (s : spark.State)
    → rows ≢ []
    → Each (λ row. get column row ≡ some null) rows
    → (e : Error) × (spark.append table rows s ≡ (err e, s))

unmeasured_rows :
    (run_id : String) (results : List ReconciliationResult)
    → Each (λ r. r.variance ≡ none) results
    → Each (λ row. get "variance" row ≡ some null) (map (result_row run_id) results)
unfolding get string_eq
unmeasured_rows run_id [] each = tt
unmeasured_rows run_id (r ∷ results) each =
    (ap (λ o. some (optional_number o)) each.0, unmeasured_rows run_id results each.1)

module _ (spark : Session) (catalog : String) (report : ReconciliationReport)
    (infers : InfersTypes spark) where
  append_results_unmeasured :
      (results : List ReconciliationResult) (s : spark.State)
      → results ≢ []
      → Each (λ r. r.variance ≡ none) results
      → (e : Error) × (append_results spark catalog report results s ≡ (err e, s))
  unfolding append_results
  append_results_unmeasured [] s given each = absurd (given refl)
  append_results_unmeasured (r ∷ results) s given each =
      infers _ "variance" _ s (λ e. cc)
        (unmeasured_rows report.reconciliation_run_id (r ∷ results) each)

  pub persist_reconciliation_report_unmeasured :
      (s between : spark.State)
      → is_identifier catalog ≡ true
      → report.results ≢ []
      → Each (λ r. r.variance ≡ none) report.results
      → spark.append (catalog <> ".platform_control.reconciliation_run") (run_row report ∷ []) s
        ≡ (ok tt, between)
      → (e : Error) × (persist_reconciliation_report spark catalog report false s
          ≡ (err e, between))
  unfolding persist_reconciliation_report append_report
  persist_reconciliation_report_unmeasured s between safe given each appended =
      let (e, raised) = append_results_unmeasured report.results between given each in
      (e, rw (safe, ap (λ p. p.0) appended, ap (λ p. p.1) appended) raised)
