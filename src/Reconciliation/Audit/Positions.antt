-- ===== src/Reconciliation/Audit/Positions.antt =====
-- Tables whose rules compare source positions only: their reports cannot be persisted.
use enterprise_databrick_fra.Prelude.{
  Option, ℕ, String, ◌<>◌, true, false, none, List, [], ◌∷◌, ok, err, Error, ◌≡◌, ◌≢◌, refl, arith,
  Each, >>=-eq-ok,
}
use enterprise_databrick_fra.Prelude.Text.{is_identifier}
use enterprise_databrick_fra.Metadata.Models.{RuleKind, ReconciliationRule, TableSpec}
use enterprise_databrick_fra.Session.{Session}
use enterprise_databrick_fra.Reconciliation.Contracts.{rule_kind_eq}
use enterprise_databrick_fra.Reconciliation.Engine.{
  Python, MeasureProvider, ReconciliationContext, ReconciliationReport, ReconciliationResult,
}
use enterprise_databrick_fra.Reconciliation.Evaluate.{
  evaluate_kind, evaluate_rule, evaluate_rules, evaluate_reconciliation,
}
use enterprise_databrick_fra.Reconciliation.Status.{evaluated}
use enterprise_databrick_fra.Reconciliation.Audit.{run_row, persist_reconciliation_report}
use enterprise_databrick_fra.Reconciliation.Audit.Unmeasured.{
  InfersTypes, persist_reconciliation_report_unmeasured,
}

module _ (python : Python) (spec : TableSpec) (context : ReconciliationContext)
    (provider : MeasureProvider) where
  evaluate_kind_position :
      (rule : ReconciliationRule) (kind : RuleKind) (r : ReconciliationResult)
      → kind ≡ RuleKind.source_position
      → evaluate_kind python spec context provider rule kind ≡ ok r
      → r.variance ≡ none
  evaluate_kind_position rule RuleKind.source_position r e h = ground arith
  evaluate_kind_position rule RuleKind.row_count r e h = absurd (cc)
  evaluate_kind_position rule RuleKind.key_count r e h = absurd (cc)
  evaluate_kind_position rule RuleKind.pk_presence r e h = absurd (cc)
  evaluate_kind_position rule RuleKind.aggregate r e h = absurd (cc)
  evaluate_kind_position rule RuleKind.hash r e h = absurd (cc)
  evaluate_kind_position rule RuleKind.operation_count r e h = absurd (cc)
  evaluate_kind_position rule RuleKind.scd2_current_uniqueness r e h = absurd (cc)
  evaluate_kind_position rule RuleKind.scd2_no_overlap r e h = absurd (cc)
  evaluate_kind_position rule RuleKind.custom r e h = absurd (cc)

  evaluate_rules_positions :
      (rules : List ReconciliationRule) (results : List ReconciliationResult)
      → Each (λ rule. rule.kind ≡ RuleKind.source_position) rules
      → evaluate_rules python spec context provider rules ≡ ok results
      → Each (λ r. r.variance ≡ none) results
  unfolding evaluate_rules evaluate_rule
  evaluate_rules_positions [] [] each h = tt
  evaluate_rules_positions [] (r ∷ results) each h = cc h
  evaluate_rules_positions (rule ∷ rules) results each h =
      let (r, e, h1) = >>=-eq-ok (evaluate_rule python spec context provider rule) _ h in
      let (rest, e1, h2) = >>=-eq-ok (evaluate_rules python spec context provider rules) _ h1 in
      let same : (r ∷ rest) ≡ results = ground arith in
      rw⁻¹ same (
        evaluate_kind_position rule rule.kind r each.0 (ground arith),
        evaluate_rules_positions rules rest each.1 e1,
      )

  evaluate_rules_given :
      (rules : List ReconciliationRule) (results : List ReconciliationResult)
      → rules ≢ []
      → evaluate_rules python spec context provider rules ≡ ok results
      → results ≢ []
  unfolding evaluate_rules
  evaluate_rules_given [] results given h none_left = given refl
  evaluate_rules_given (rule ∷ rules) results given h none_left =
      let (r, e, h1) = >>=-eq-ok (evaluate_rule python spec context provider rule) _ h in
      let (rest, e1, h2) = >>=-eq-ok (evaluate_rules python spec context provider rules) _ h1 in
      cc (h2, none_left)

  module _ (spark : Session) (catalog : String) (run_id : Option String) (fresh_id : String)
      (started ended : ℕ) (report : ReconciliationReport) where
    -- On a session whose frames infer the types of their columns, so that a column that is null in
    -- every row raises, the report that the evaluation returns for a table with reconciliation
    -- enabled and at least one rule, all of whose rules compare source positions, cannot be
    -- persisted: without ensuring the schema, in a catalog that is an identifier, and where the
    -- append of the run returns, the results raise behind it, and the run stays without results.
    pub persist_reconciliation_report-evaluate_reconciliation :
        InfersTypes spark
        → spec.reconciliation.enabled ≡ true
        → spec.reconciliation.rules ≢ []
        → Each (λ rule. rule.kind ≡ RuleKind.source_position) spec.reconciliation.rules
        → evaluate_reconciliation python spec context provider run_id fresh_id started ended
          ≡ ok report
        → (s between : spark.State) → is_identifier catalog ≡ true
        → spark.append (catalog <> ".platform_control.reconciliation_run") (run_row report ∷ []) s
          ≡ (ok tt, between)
        → (e : Error) × (persist_reconciliation_report spark catalog report false s
            ≡ (err e, between))
    persist_reconciliation_report-evaluate_reconciliation infers on given each h s between safe
          appended =
        let (results, e, r, status) =
          evaluated python spec context provider run_id fresh_id started ended report on h in
        persist_reconciliation_report_unmeasured spark catalog report infers s between safe
          (rw r (evaluate_rules_given spec.reconciliation.rules results given e))
          (rw r (evaluate_rules_positions spec.reconciliation.rules results each e)) appended
