-- ===== src/Tests/Reconciliation.antt =====
-- The evaluation of the rules of the orders.
use enterprise_databrick_fra.Prelude.{
  err, value_error, if◌then◌else◌, ltb, arith, true, false, ◌||◌, none, some, [], ◌∷◌, ok, ◌≡◌, ◌≢◌,
  ◌↔◌, String, refl, Returns, Each,
}
use Prim.Native.Nat.{◌^◌}
use enterprise_databrick_fra.Prelude.Int.{ℤ, pos, abs}
use enterprise_databrick_fra.Prelude.Text.{is_blank}
use enterprise_databrick_fra.Prelude.Double.{zero_double}
use enterprise_databrick_fra.Metadata.Models.{RuleKind, Severity}
use enterprise_databrick_fra.Reconciliation.Contracts.{validate_reconciliation_contract}
use enterprise_databrick_fra.Reconciliation.Engine.{
  ReconciliationContext, ReconciliationReport, MeasureProvider, Python, passed, category_variance,
  sum_abs, count_of, skipped, count,
}
use enterprise_databrick_fra.Prelude.Dict.{Dict, values}
use enterprise_databrick_fra.Reconciliation.Variance.{category_variance_zero_iff}
use enterprise_databrick_fra.Reconciliation.Evaluate.{evaluate_reconciliation}
use enterprise_databrick_fra.Reconciliation.Returns.{FloatsReturn, IsComparable, IsSupported}
use enterprise_databrick_fra.Reconciliation.Complete.{IsMeasured, evaluate_reconciliation-Returns}
use enterprise_databrick_fra.Reconciliation.Status.{
  AreResultsOf, AllPassed, evaluate_reconciliation-StatusMeans,
}
use enterprise_databrick_fra.Tests.Run.{run_all}
use enterprise_databrick_fra.Tests.Samples.{orders}

-- Both relations have three rows.
abbrev pub three_rows : MeasureProvider
three_rows = record {
  row_count = λ relation. ok (pos 3);
  distinct_key_count = λ relation keys. ok (pos 3);
  missing_key_count = λ source target keys. ok (pos 0);
  numeric_scalar = λ relation expression. ok zero_double;
  categorical_counts = λ relation column. ok [];
  current_duplicate_key_count = λ relation keys end. ok (pos 0);
  scd2_overlap_count = λ relation keys start end. ok (pos 0);
}

abbrev pub arithmetic : Python
arithmetic = record {
  float_of = λ n.
      if ltb (abs n) (2 ^ 53)
      then ok (record { bits = abs n })
      else err (value_error "int too large to convert to float");
  difference = λ x y. x;
  relative_to = λ x y. x;
  show_integer = λ n. "n";
  show_double = λ x. "x";
  show_value = λ v. "v";
  dumps = λ d. "{}";
}

abbrev pub at_lsn : ReconciliationContext
at_lsn = record {
  cutoff_type = "lsn";
  cutoff_value = "42";
  source_relation = "main.landing.orders";
  target_relation = "main.silver.orders";
  business_keys = [];
  observed_target_position = some "42";
}

abbrev pub orders_report : ReconciliationReport
orders_report = record {
  reconciliation_run_id = "run";
  dataset_id = "sales.orders";
  cutoff_type = "lsn";
  cutoff_value = "42";
  started_at = 1;
  ended_at = 2;
  status = passed;
  results =
      record {
        rule_name = "rows";
        rule_kind = RuleKind.key_count;
        expected_value = some "n";
        actual_value = some "n";
        variance = some (record { bits = 0 });
        severity = Severity.fail;
        passed = true;
        details =
            ("tolerance", "x") ∷ ("tolerance_mode", "absolute") ∷ ("compared_variance", "x") ∷ [];
      }
      ∷ [];
}

orders_evaluated :
    evaluate_reconciliation arithmetic orders at_lsn three_rows none "run" 1 2 ≡ ok orders_report
unfolding run_all
orders_evaluated = refl

pub arithmetic-FloatsReturn : FloatsReturn arithmetic (2 ^ 53)
arithmetic-FloatsReturn n below = (record { bits = abs n }, ground arith)

-- Three rows against three.
pub near : IsComparable (2 ^ 53) (count (pos 3)) (count (pos 3))
unfolding run_all
near = (omega arith, omega arith)

three_rows-IsMeasured :
    Each
      (λ rule. IsMeasured arithmetic orders at_lsn three_rows (2 ^ 53) rule rule.kind)
      orders.reconciliation.rules
three_rows-IsMeasured = (λ keys found. (pos 3, pos 3, refl, refl, near), tt)

pub orders_contract : validate_reconciliation_contract orders ≡ ok tt
unfolding run_all
orders_contract = refl

pub orders-IsSupported : Each IsSupported orders.reconciliation.rules
unfolding run_all
orders-IsSupported = (refl, tt)

pub orders_cutoff : (is_blank at_lsn.cutoff_type || is_blank at_lsn.cutoff_value) ≡ false
unfolding run_all
orders_cutoff = refl

evaluate_reconciliation-Returns_example :
    Returns (evaluate_reconciliation arithmetic orders at_lsn three_rows none "run" 1 2)
evaluate_reconciliation-Returns_example =
    evaluate_reconciliation-Returns arithmetic orders at_lsn three_rows (2 ^ 53)
      arithmetic-FloatsReturn none "run" 1 2 orders_contract orders-IsSupported
      three_rows-IsMeasured orders_cutoff

evaluate_reconciliation-StatusMeans_example :
    AreResultsOf arithmetic orders at_lsn three_rows orders.reconciliation.rules
      orders_report.results
    × (passed ≢ skipped)
    × AllPassed orders_report.results
evaluate_reconciliation-StatusMeans_example =
    evaluate_reconciliation-StatusMeans arithmetic orders at_lsn three_rows none "run" 1 2
      orders_report refl orders_evaluated

-- One insert is missing, and one delete is not expected.
abbrev inserted : Dict ℤ
inserted = ("insert", pos 2) ∷ []

abbrev changed : Dict ℤ
changed = ("insert", pos 1) ∷ ("delete", pos 1) ∷ []

changed_variance : sum_abs (values (category_variance inserted changed)) ≡ 2
unfolding run_all
changed_variance = refl

category_variance_zero_iff_example :
    (sum_abs (values (category_variance inserted changed)) ≡ 0)
    ↔ ((c : String) → count_of c changed ≡ count_of c inserted)
category_variance_zero_iff_example = category_variance_zero_iff inserted changed
