-- ===== src/Tests/Audit.antt =====
-- The measures and the records of reconciliation, at the orders.
use enterprise_databrick_fra.Prelude.{
  value_error, String, ◌<>◌, true, false, ◌||◌, none, some, List, [], ◌∷◌, ok, err, Error,
  value_error_of, ◌≡◌, ◌↔◌, refl, Each, Result, Returns, arith,
}
use enterprise_databrick_fra.Prelude.Int.{ℤ, pos}
use enterprise_databrick_fra.Prelude.Text.{is_identifier, is_blank}
use enterprise_databrick_fra.Prelude.Dict.{Dict, get}
use enterprise_databrick_fra.Prelude.Double.{zero_double}
use enterprise_databrick_fra.Prelude.Values.{str, list, cons, nil}
use enterprise_databrick_fra.Metadata.Models.{RuleKind, ReconciliationRule, TableSpec}
use enterprise_databrick_fra.Operations.Tables.{reconciliation_run, reconciliation_result}
use enterprise_databrick_fra.Operations.Schema.{conforms}
use enterprise_databrick_fra.Reconciliation.Contracts.{
  rule_keys, check_mode, validate_reconciliation_contract,
}
use enterprise_databrick_fra.Reconciliation.Engine.{ReconciliationReport}
use enterprise_databrick_fra.Reconciliation.Evaluate.{keys_for, evaluate_reconciliation}
use enterprise_databrick_fra.Reconciliation.Audit.{run_row, persist_reconciliation_report}
use enterprise_databrick_fra.Reconciliation.Audit.Laws.{
  Appended, IsPrepared, result_rows, persist_reconciliation_report-Appended,
}
use enterprise_databrick_fra.Reconciliation.Audit.Positions.{
  persist_reconciliation_report-evaluate_reconciliation,
}
use enterprise_databrick_fra.Reconciliation.Measures.{
  Engine, Frame, table, distinct, select, spark_provider, categorical_counts,
}
use enterprise_databrick_fra.Reconciliation.Measures.Counts.{
  CountRow, last_count, get-categorical_counts,
}
use enterprise_databrick_fra.Reconciliation.Measures.Unsafe.{evaluate_reconciliation_unsafe}
use enterprise_databrick_fra.Tests.Run.{run_all}
use enterprise_databrick_fra.Tests.Samples.{orders, count_rule}
use enterprise_databrick_fra.Tests.Sessions.{lakehouse, inferring, inferring-InfersTypes}
use Prim.Native.Nat.{◌^◌}
use mathlib.Core.Path.{subst}
use enterprise_databrick_fra.Reconciliation.Measures.Safe.{IsName, evaluate_reconciliation_safe}
use enterprise_databrick_fra.Tests.Reconciliation.{
  arithmetic-FloatsReturn, orders_contract, orders-IsSupported, orders_cutoff, near, arithmetic,
  at_lsn, three_rows, orders_report,
}

-- The state behind an append that creates the control tables first.
abbrev recorded : List String
recorded = (persist_reconciliation_report lakehouse "main" orders_report true []).1

persist_reconciliation_report-Appended_example :
    ((persist_reconciliation_report lakehouse "main" orders_report true [] ≡ (ok tt, recorded)) ↔ (
      (is_identifier "main" ≡ true)
      × ((start : List String) × IsPrepared lakehouse "main" orders_report true [] start
          × Appended lakehouse "main" orders_report start recorded)))
    × (conforms reconciliation_run.columns (run_row orders_report) ≡ true)
    × Each
        (λ r. conforms reconciliation_result.columns r ≡ true)
        (result_rows lakehouse "main" orders_report)
persist_reconciliation_report-Appended_example =
    persist_reconciliation_report-Appended lakehouse "main" orders_report true [] recorded

-- A table whose rule compares the position of the source.
abbrev followed : TableSpec
followed = record orders {
  reconciliation = record orders.reconciliation {
    rules = record count_rule { kind = RuleKind.source_position } ∷ [];
  };
}

abbrev followed_report : ReconciliationReport
followed_report =
    elim (evaluate_reconciliation arithmetic followed at_lsn three_rows (some "run") "id" 1 2) [
      | ok report ↦ report
      | err _ ↦ orders_report
    ]

followed_evaluated :
    evaluate_reconciliation arithmetic followed at_lsn three_rows (some "run") "id" 1 2
    ≡ ok followed_report
unfolding run_all
followed_evaluated = refl

main_safe : is_identifier "main" ≡ true
unfolding run_all
main_safe = refl

followed_appended :
    inferring.append
      ("main" <> ".platform_control.reconciliation_run")
      (run_row followed_report ∷ [])
      []
    ≡ (ok tt, "main.platform_control.reconciliation_run" ∷ [])
unfolding run_all
followed_appended = refl

persist_reconciliation_report-evaluate_reconciliation_example :
    (e : Error) × (persist_reconciliation_report inferring "main" followed_report false []
      ≡ (err e, "main.platform_control.reconciliation_run" ∷ []))
persist_reconciliation_report-evaluate_reconciliation_example =
    persist_reconciliation_report-evaluate_reconciliation arithmetic followed at_lsn three_rows
      inferring "main" (some "run") "id" 1 2 followed_report inferring-InfersTypes refl (λ e. cc)
      (refl, tt) followed_evaluated [] ("main.platform_control.reconciliation_run" ∷ []) main_safe
      followed_appended

abbrev grouped : List CountRow
grouped = (some "insert", pos 2) ∷ (none, pos 1) ∷ (some "<NULL>", pos 4) ∷ []

-- Spark over one relation, whose groups are those.
abbrev engine : Engine
engine = record {
  count = λ frame. ok (pos 3);
  first = λ frame. ok (some (some zero_double));
  collect = λ frame column. ok grouped;
}

-- The group of NULL and that of the text "<NULL>" are one category.
grouped_counts :
    categorical_counts engine "main.silver.orders" "op"
    ≡ ok (("<NULL>", pos 4) ∷ ("insert", pos 2) ∷ [])
unfolding run_all
grouped_counts = refl

op_safe : is_identifier "op" ≡ true
unfolding run_all
op_safe = refl

get-categorical_counts_example :
    (counts : Dict ℤ) × (categorical_counts engine "main.silver.orders" "op" ≡ ok counts)
    × ((c : String) → get c counts ≡ last_count c grouped)
get-categorical_counts_example =
    get-categorical_counts engine "main.silver.orders" "op" grouped op_safe refl

-- Keys with a hyphen, which the contract takes.
abbrev dashed_rule : ReconciliationRule
dashed_rule = record count_rule { options = ("keys", list (cons (str "order-id") nil)) ∷ [] }

abbrev dashed : TableSpec
dashed = record orders {
  reconciliation = record orders.reconciliation { rules = dashed_rule ∷ [] };
}

dashed_keys : rule_keys dashed_rule ≡ ok (some ("order-id" ∷ []))
unfolding run_all
dashed_keys = refl

dashed_unsafe : is_identifier "order-id" ≡ false
unfolding run_all
dashed_unsafe = refl

dashed_mode : check_mode dashed dashed_rule ≡ ok tt
unfolding run_all
dashed_mode = refl

at_lsn_cutoff : (is_blank at_lsn.cutoff_type || is_blank at_lsn.cutoff_value) ≡ false
unfolding run_all
at_lsn_cutoff = refl

evaluate_reconciliation_unsafe_example :
    (validate_reconciliation_contract dashed ≡ ok tt)
    × (evaluate_reconciliation arithmetic dashed at_lsn (spark_provider engine) none "id" 1 2
        ≡ err (value_error_of "unsafe reconciliation column" "order-id"))
evaluate_reconciliation_unsafe_example =
    evaluate_reconciliation_unsafe dashed dashed_rule "order-id" [] refl dashed_keys refl arithmetic
      at_lsn engine dashed_unsafe none "id" 1 2 refl dashed_mode at_lsn_cutoff

-- Spark over two relations of three rows, which counts relations and distinct keys only.
abbrev counted : Frame → Result ℤ
counted (table relation) = ok (pos 3)
counted (distinct (select keys (table relation))) = ok (pos 3)
counted _ = err (value_error "no such frame")

abbrev counting : Engine
counting = record {
  count = counted;
  first = λ frame. ok (some none);
  collect = λ frame column. err (value_error "no such frame");
}

id_named : (keys : List String) → keys_for orders at_lsn count_rule ≡ ok keys → Each IsName keys
unfolding run_all
id_named keys found =
    let same : ("id" ∷ []) ≡ keys = ground arith in subst (Each IsName) same (refl, tt)

evaluate_reconciliation_safe_example :
    Returns
      (evaluate_reconciliation arithmetic orders at_lsn (spark_provider counting) none "id" 1 2)
evaluate_reconciliation_safe_example =
    evaluate_reconciliation_safe arithmetic orders at_lsn counting (2 ^ 53) none "id" 1 2
      arithmetic-FloatsReturn orders_contract orders-IsSupported (id_named, tt)
      (λ keys found. (pos 3, pos 3, refl, refl, near), tt) orders_cutoff
