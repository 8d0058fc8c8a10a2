-- ===== src/Reconciliation/Status.antt =====
-- What the status of a report says of the results of the rules.
use enterprise_databrick_fra.Prelude.{
  ℕ, String, true, false, Option, List, [], ◌∷◌, Result, ok, ◌≡◌, ◌≢◌, ◌↔◌, ◌⊎◌, inl, inr, arith,
  Each, Bool-cases, >>=-eq-ok,
}
use enterprise_databrick_fra.Prelude.Int.{ℤ}
use enterprise_databrick_fra.Prelude.Dict.{Dict}
use enterprise_databrick_fra.Metadata.Models.{RuleKind, Severity, ReconciliationRule, TableSpec}
use enterprise_databrick_fra.Metadata.Validators.{no_items}
use enterprise_databrick_fra.Reconciliation.Engine.{
  ReconciliationContext, ReconciliationResult, ReconciliationReport, Status, passed, warning,
  failed, skipped, MeasureProvider, Python, Measure, numeric_result, categorical_result,
}
use enterprise_databrick_fra.Reconciliation.Evaluate.{
  failing, fails_with, evaluate_kind, evaluate_rule, status_of, evaluate_rules,
  evaluate_reconciliation,
}

-- Some result of the severity has not passed.
abbrev pub Broken : Severity → List ReconciliationResult → Type 0
Broken severity [] = ⊥
Broken severity (r ∷ results) =
    ((r.passed ≡ false) × (r.severity ≡ severity)) ⊎ Broken severity results

abbrev pub AllPassed : List ReconciliationResult → Type 0
AllPassed results = Each (λ r. r.passed ≡ true) results

fails_with_iff :
    (severity : Severity) (r : ReconciliationResult)
    → (fails_with severity r ≡ true) ↔ ((r.passed ≡ false) × (r.severity ≡ severity))
fails_with_iff Severity.warn r = ground arith
fails_with_iff Severity.fail r = ground arith

failing_iff :
    (severity : Severity) (results : List ReconciliationResult)
    → (no_items (failing severity results) ≡ false) ↔ Broken severity results
unfolding failing
failing_iff severity [] = ground arith
failing_iff severity (r ∷ results) =
    ground (arith, fails_with_iff severity r, failing_iff severity results)

AllPassed-iff :
    (results : List ReconciliationResult)
    → AllPassed results ↔ ((¬ (Broken Severity.fail results)) × (¬ (Broken Severity.warn results)))
AllPassed-iff [] = ground arith
AllPassed-iff (r ∷ results) = ground (arith, AllPassed-iff results)

-- What a status says of the results of the rules.
abbrev pub StatusMeans : Status → List ReconciliationResult → Type 0
StatusMeans failed results = Broken Severity.fail results
StatusMeans warning results = Broken Severity.warn results × (¬ (Broken Severity.fail results))
StatusMeans passed results = AllPassed results
StatusMeans skipped results = results ≡ []

status_of-StatusMeans :
    (results : List ReconciliationResult) → StatusMeans (status_of results) results
unfolding status_of
status_of-StatusMeans results = elim (Bool-cases (no_items (failing Severity.fail results))) [
  | inr some_fail ↦ rw some_fail ((failing_iff Severity.fail results).0 some_fail)
  | inl none_fail ↦ elim (Bool-cases (no_items (failing Severity.warn results))) [
    | inr some_warn ↦
        rw (none_fail, some_warn)
          (
            (failing_iff Severity.warn results).0 some_warn,
            λ broken. ground (arith, failing_iff Severity.fail results),
          )
    | inl none_warn ↦
        rw (none_fail, none_warn)
          ((AllPassed-iff results).1 (
            ground (arith, failing_iff Severity.fail results),
            ground (arith, failing_iff Severity.warn results),
          ))
  ]
]

module _ (python : Python) (spec : TableSpec) (context : ReconciliationContext)
    (provider : MeasureProvider) where
  -- The result is one of the rule.
  abbrev pub IsResultOf : ReconciliationRule → ReconciliationResult → Type 0
  IsResultOf rule r =
      (r.rule_name ≡ rule.name) × (r.rule_kind ≡ rule.kind) × (r.severity ≡ rule.severity)

  abbrev pub AreResultsOf : List ReconciliationRule → List ReconciliationResult → Type 0
  AreResultsOf [] [] = Unit
  AreResultsOf [] (r ∷ results) = ⊥
  AreResultsOf (rule ∷ rules) [] = ⊥
  AreResultsOf (rule ∷ rules) (r ∷ results) = IsResultOf rule r × AreResultsOf rules results

  -- Whatever the run returns is a result of the rule.
  abbrev pub Gives : ReconciliationRule → Result ReconciliationResult → Type 0
  Gives rule run = (r : ReconciliationResult) → run ≡ ok r → IsResultOf rule r

  numeric_result-Gives :
      (rule : ReconciliationRule) (expected actual : Measure)
      → Gives rule (numeric_result python rule expected actual)
  unfolding numeric_result
  numeric_result-Gives rule expected actual r h = ground arith

  categorical_result-Gives :
      (rule : ReconciliationRule) (expected actual : Dict ℤ)
      → Gives rule (categorical_result python rule expected actual)
  unfolding categorical_result
  categorical_result-Gives rule expected actual r h = ground arith

  evaluate_kind-Gives :
      (rule : ReconciliationRule) (kind : RuleKind)
      → Gives rule (evaluate_kind python spec context provider rule kind)
  unfolding numeric_result categorical_result
  evaluate_kind-Gives rule RuleKind.row_count r h = ground arith
  evaluate_kind-Gives rule RuleKind.key_count r h = ground arith
  evaluate_kind-Gives rule RuleKind.pk_presence r h = ground arith
  evaluate_kind-Gives rule RuleKind.aggregate r h = ground arith
  evaluate_kind-Gives rule RuleKind.operation_count r h = ground arith
  evaluate_kind-Gives rule RuleKind.scd2_current_uniqueness r h = ground arith
  evaluate_kind-Gives rule RuleKind.scd2_no_overlap r h = ground arith
  evaluate_kind-Gives rule RuleKind.hash r h = ground arith
  evaluate_kind-Gives rule RuleKind.source_position r h = ground arith
  evaluate_kind-Gives rule RuleKind.custom r h = ground arith

  evaluate_rule-Gives :
      (rule : ReconciliationRule) → Gives rule (evaluate_rule python spec context provider rule)
  unfolding evaluate_rule
  evaluate_rule-Gives rule r h = evaluate_kind-Gives rule rule.kind r (ground arith)

  evaluate_rules-AreResultsOf :
      (rules : List ReconciliationRule) (results : List ReconciliationResult)
      → evaluate_rules python spec context provider rules ≡ ok results
      → AreResultsOf rules results
  unfolding evaluate_rules
  evaluate_rules-AreResultsOf [] [] h = tt
  evaluate_rules-AreResultsOf [] (r ∷ results) h = cc h
  evaluate_rules-AreResultsOf (rule ∷ rules) results h =
      let (r, e, h1) = >>=-eq-ok (evaluate_rule python spec context provider rule) _ h in
      let (rest, e1, h2) = >>=-eq-ok (evaluate_rules python spec context provider rules) _ h1 in
      let same : (r ∷ rest) ≡ results = ground arith in
      rw⁻¹ same (evaluate_rule-Gives rule r e, evaluate_rules-AreResultsOf rules rest e1)

  status_of-skipped : (results : List ReconciliationResult) → status_of results ≢ skipped
  unfolding status_of
  status_of-skipped results h = ground arith

  pub evaluated :
      (run_id : Option String) (fresh_id : String) (started ended : ℕ)
      (report : ReconciliationReport)
      → spec.reconciliation.enabled ≡ true
      → evaluate_reconciliation python spec context provider run_id fresh_id started ended
        ≡ ok report
      → (results : List ReconciliationResult) × (evaluate_rules python spec context provider
            spec.reconciliation.rules
          ≡ ok results)
        × (report.results ≡ results)
        × (report.status ≡ status_of results)
  unfolding evaluate_reconciliation
  evaluated run_id fresh_id started ended report on h = ground arith

  -- A report of enabled reconciliation has one result for each rule, in order, with the name, kind
  -- and severity of the rule; its status is failed only where a rule of severity fail did not pass,
  -- warning only where a rule of severity warn and none of severity fail did not pass, passed only
  -- where all passed, and never skipped.
  pub evaluate_reconciliation-StatusMeans :
      (run_id : Option String) (fresh_id : String) (started ended : ℕ)
      (report : ReconciliationReport)
      → spec.reconciliation.enabled ≡ true
      → evaluate_reconciliation python spec context provider run_id fresh_id started ended
        ≡ ok report
      → AreResultsOf spec.reconciliation.rules report.results
        × (report.status ≢ skipped)
        × StatusMeans report.status report.results
  evaluate_reconciliation-StatusMeans run_id fresh_id started ended report on h =
      let (results, e, r, s) = evaluated run_id fresh_id started ended report on h in
      rw (r, s)
        (
          evaluate_rules-AreResultsOf spec.reconciliation.rules results e,
          status_of-skipped results,
          status_of-StatusMeans results,
        )
