-- ===== src/Reconciliation/Audit/Laws.antt =====
-- What `persist_reconciliation_report` writes, and what it leaves where it raises.
use enterprise_databrick_fra.Prelude.{
  Bool, String, ◌<>◌, true, false, Option, none, some, List, [], ◌∷◌, map, ok, ◌≡◌, ◌≢◌, ◌⊎◌, ◌↔◌,
  inl, inr, refl, sym, ap, Bool-cases, Result-cases, Each, string_eq,
}
use enterprise_databrick_fra.Prelude.Text.{is_identifier}
use enterprise_databrick_fra.Prelude.Dict.{get}
use enterprise_databrick_fra.Prelude.Double.{Double}
use enterprise_databrick_fra.Session.{Session, Row}
use enterprise_databrick_fra.Operations.Tables.{
  SqlType, takes, reconciliation_run, reconciliation_result,
}
use enterprise_databrick_fra.Operations.ControlTables.{ensure_control_tables}
use enterprise_databrick_fra.Operations.Schema.{conforms, cell_conforms}
use enterprise_databrick_fra.Reconciliation.Engine.{ReconciliationReport, ReconciliationResult}
use enterprise_databrick_fra.Reconciliation.Audit.{
  run_row, result_row, optional_text, optional_number, append_results, append_report,
  persist_reconciliation_report,
}

conforms-run_row :
    (report : ReconciliationReport) → conforms reconciliation_run.columns (run_row report) ≡ true
unfolding get string_eq
conforms-run_row report = refl

optional_text_conforms :
    (name : String) (o : Option String)
    → cell_conforms (takes name SqlType.string) (some (optional_text o)) ≡ true
optional_text_conforms name none = refl
optional_text_conforms name (some s) = refl

optional_number_conforms :
    (name : String) (o : Option Double)
    → cell_conforms (takes name SqlType.double) (some (optional_number o)) ≡ true
optional_number_conforms name none = refl
optional_number_conforms name (some x) = refl

conforms-result_row :
    (run_id : String) (result : ReconciliationResult)
    → conforms reconciliation_result.columns (result_row run_id result) ≡ true
unfolding get string_eq
conforms-result_row run_id result =
    rw
      (
        optional_text_conforms "expected_value" result.expected_value,
        optional_text_conforms "actual_value" result.actual_value,
        optional_number_conforms "variance" result.variance,
      )
      refl

module _ (spark : Session) (catalog : String) (report : ReconciliationReport) where
  abbrev pub results_table : String
  results_table = catalog <> ".platform_control.reconciliation_result"

  abbrev pub runs_table : String
  runs_table = catalog <> ".platform_control.reconciliation_run"

  abbrev pub result_rows : List Row
  result_rows = map (result_row report.reconciliation_run_id) report.results

  -- The final state is that of the append of the run and, if there are results, that of their append.
  abbrev pub Appended : spark.State → spark.State → Type 0
  Appended s final =
      (between : spark.State) × (spark.append runs_table (run_row report ∷ []) s ≡ (ok tt, between))
      × (((report.results ≡ []) × (final ≡ between))
          ⊎ ((report.results ≢ [])
              × (spark.append results_table result_rows between ≡ (ok tt, final))))

  result_rows_conform :
      (results : List ReconciliationResult)
      → Each
          (λ r. conforms reconciliation_result.columns r ≡ true)
          (map (result_row report.reconciliation_run_id) results)
  result_rows_conform [] = tt
  result_rows_conform (r ∷ results) =
      (conforms-result_row report.reconciliation_run_id r, result_rows_conform results)

  append_results_appends :
      (results : List ReconciliationResult)
      → report.results ≡ results
      → (between final : spark.State)
      → append_results spark catalog report results between ≡ (ok tt, final)
      → ((report.results ≡ []) × (final ≡ between))
        ⊎ ((report.results ≢ [])
            × (spark.append results_table result_rows between ≡ (ok tt, final)))
  unfolding append_results
  append_results_appends [] same between final h = inl (same, ap (λ p. p.1) (sym h))
  append_results_appends (r ∷ results) same between final h = inr (λ e. cc, rw same h)

  append_report_appends :
      (s final : spark.State)
      → append_report spark catalog report s ≡ (ok tt, final)
      → Appended s final
  unfolding append_report append_results
  append_report_appends s final h =
      let between = (spark.append runs_table (run_row report ∷ []) s).1 in
      elim (Result-cases (spark.append runs_table (run_row report ∷ []) s).0) [
        | inl (u, e) ↦ (
          between,
          λ i. (e i, between),
          append_results_appends report.results refl between final (rw e at h),
        )
        | inr (x, e) ↦ absurd (cc (rw e at h))
      ]

  append_results_returns :
      (results : List ReconciliationResult)
      → report.results ≡ results
      → (between final : spark.State)
      → ((report.results ≡ []) × (final ≡ between))
        ⊎ ((report.results ≢ [])
            × (spark.append results_table result_rows between ≡ (ok tt, final)))
      → append_results spark catalog report results between ≡ (ok tt, final)
  unfolding append_results
  append_results_returns [] same between final (inl (e, left)) = λ i. (ok tt, sym left i)
  append_results_returns [] same between final (inr (given, e)) = absurd (given same)
  append_results_returns (r ∷ results) same between final (inl (e, left)) = absurd (cc)
  append_results_returns (r ∷ results) same between final (inr (given, e)) = rw same at e

  append_report_returns :
      (s final : spark.State)
      → Appended s final
      → append_report spark catalog report s ≡ (ok tt, final)
  unfolding append_report
  append_report_returns s final (between, appended, tail) =
      rw (ap (λ p. p.0) appended, ap (λ p. p.1) appended)
        (append_results_returns report.results refl between final tail)

  -- The state in front of the appends: with ensure_schema, that behind the control tables.
  abbrev pub IsPrepared : (ensure_schema : Bool) → spark.State → spark.State → Type 0
  IsPrepared true s start = ensure_control_tables spark catalog s ≡ (ok tt, start)
  IsPrepared false s start = start ≡ s

  persist_prepares :
      (ensure_schema : Bool) (s final : spark.State)
      → is_identifier catalog ≡ true
      → persist_reconciliation_report spark catalog report ensure_schema s ≡ (ok tt, final)
      → (start : spark.State) × IsPrepared ensure_schema s start × Appended start final
  unfolding persist_reconciliation_report
  persist_prepares true s final safe h =
      let start = (ensure_control_tables spark catalog s).1 in
      elim (Result-cases (ensure_control_tables spark catalog s).0) [
        | inl (u, e) ↦
            (start, λ i. (e i, start), append_report_appends start final (rw (safe, e) at h))
        | inr (x, e) ↦ absurd (cc (rw (safe, e) at h))
      ]
  persist_prepares false s final safe h = (s, refl, append_report_appends s final (rw safe at h))

  persist_returns :
      (ensure_schema : Bool) (s start final : spark.State)
      → is_identifier catalog ≡ true
      → IsPrepared ensure_schema s start
      → Appended start final
      → persist_reconciliation_report spark catalog report ensure_schema s ≡ (ok tt, final)
  unfolding persist_reconciliation_report
  persist_returns true s start final safe e appended =
      rw (safe, ap (λ p. p.0) e, ap (λ p. p.1) e) (append_report_returns start final appended)
  persist_returns false s start final safe e appended =
      rw (safe, sym e) (append_report_returns start final appended)

  persist_unsafe :
      (ensure_schema : Bool) (s final : spark.State)
      → is_identifier catalog ≡ false
      → persist_reconciliation_report spark catalog report ensure_schema s ≡ (ok tt, final)
      → ⊥
  unfolding persist_reconciliation_report
  persist_unsafe ensure_schema s final unsafe h = cc (rw unsafe at h)

  -- The report is persisted, with a final state, exactly when the catalog is an identifier, the
  -- control tables are created first if ensure_schema is set, the append of the row of the run
  -- returns and, if there are results, the append of one row for each result returns behind it with
  -- that state. The row of the run and those of the results fit the columns of their control
  -- tables.
  pub persist_reconciliation_report-Appended :
      (ensure_schema : Bool) (s final : spark.State)
      → ((persist_reconciliation_report spark catalog report ensure_schema s ≡ (ok tt, final)) ↔ (
          (is_identifier catalog ≡ true)
          × ((start : spark.State) × IsPrepared ensure_schema s start × Appended start final)))
        × (conforms reconciliation_run.columns (run_row report) ≡ true)
        × Each (λ r. conforms reconciliation_result.columns r ≡ true) result_rows
  persist_reconciliation_report-Appended ensure_schema s final = (
    (
      λ h. elim (Bool-cases (is_identifier catalog)) [
        | inl safe ↦ (safe, persist_prepares ensure_schema s final safe h)
        | inr unsafe ↦ absurd (persist_unsafe ensure_schema s final unsafe h)
      ],
      λ (safe, (start, prepared, appended)).
          persist_returns ensure_schema s start final safe prepared appended,
    ),
    conforms-run_row report,
    result_rows_conform report.results,
  )
