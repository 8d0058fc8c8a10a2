-- ===== src/Reconciliation/Engine.antt =====
-- src/edp_framework/reconciliation/models.py and engine.py. The measure provider is an argument, and
-- each of its measures may raise. `Python` holds what the engine uses of floats and of texts of
-- values. The run id and the times are those that the clock and the generator of ids give.
use enterprise_databrick_fra.Prelude.{
  ℕ, String, ◌<>◌, ◌+◌, Bool, true, false, Option, none, some, List, [], ◌∷◌, ◌++◌, Result, ok, err,
  value_error_of, ◌>>=◌, ◌==◌, contains, string_eq, if◌then◌else◌,
}
use enterprise_databrick_fra.Prelude.Int.{ℤ, pos, ◌-ℤ◌, plus, abs}
use enterprise_databrick_fra.Prelude.Text.{sorted}
use enterprise_databrick_fra.Prelude.Dict.{Dict, get, keys, values}
use enterprise_databrick_fra.Prelude.Values.{Value, str}
use enterprise_databrick_fra.Prelude.Double.{Double, le_double, absolute}
use enterprise_databrick_fra.Metadata.Models.{RuleKind, Severity, ReconciliationRule}
use enterprise_databrick_fra.Reconciliation.Contracts.{rule_kind_eq}

pub record ReconciliationContext : Type 0 where
  pub cutoff_type : String
  pub cutoff_value : String
  pub source_relation : String
  pub target_relation : String
  pub business_keys : List String
  pub observed_target_position : Option String

pub record ReconciliationResult : Type 0 where
  pub rule_name : String
  pub rule_kind : RuleKind
  pub expected_value : Option String
  pub actual_value : Option String
  pub variance : Option Double
  pub severity : Severity
  pub passed : Bool
  pub details : Dict String

pub data Status : Type 0 where
  passed warning failed skipped : Status

pub record ReconciliationReport : Type 0 where
  pub reconciliation_run_id : String
  pub dataset_id : String
  pub cutoff_type : String
  pub cutoff_value : String
  pub started_at : ℕ
  pub ended_at : ℕ
  pub status : Status
  pub results : List ReconciliationResult

-- `ReconciliationReport.passed`
abbrev pub report_passed : ReconciliationReport → Bool
report_passed self = elim self.status [ passed ↦ true | skipped ↦ true | _ ↦ false ]

-- The measures that the engine asks for.
pub record MeasureProvider : Type 0 where
  pub row_count : (relation : String) → Result ℤ
  pub distinct_key_count : (relation : String) → List String → Result ℤ
  pub missing_key_count : (source target : String) → List String → Result ℤ
  pub numeric_scalar : (relation expression : String) → Result Double
  pub categorical_counts : (relation column : String) → Result (Dict ℤ)
  pub current_duplicate_key_count : (relation : String) → List String → String → Result ℤ
  pub scd2_overlap_count : (relation : String) → List String → (start end : String) → Result ℤ

-- `float(n)`, which raises beyond the range of doubles, `abs(a - b)` and `a / max(b, 1.0)` on floats,
-- `str` of a number and of a value that is no text, and `json.dumps` with sorted keys.
pub record Python : Type 0 where
  pub float_of : ℤ → Result Double
  pub difference : Double → Double → Double
  pub relative_to : Double → Double → Double
  pub show_integer : ℤ → String
  pub show_double : Double → String
  pub show_value : Value → String
  pub dumps : Dict ℤ → String

pub data Measure : Type 0 where
  count : ℤ → Measure
  scalar : Double → Measure

abbrev pub supported_rule_kinds : List RuleKind
supported_rule_kinds =
    RuleKind.row_count ∷ RuleKind.key_count ∷ RuleKind.pk_presence ∷ RuleKind.aggregate
    ∷ RuleKind.source_position ∷ RuleKind.operation_count ∷ RuleKind.scd2_current_uniqueness
    ∷ RuleKind.scd2_no_overlap ∷ []

-- `d.get(c, 0)`
abbrev pub count_of : String → Dict ℤ → ℤ
count_of c d = elim (get c d) [ none ↦ pos 0 | some n ↦ n ]

-- `set(xs)`, each item at its last place.
unfoldable pub distinct : List String → List String
distinct [] = []
distinct (x ∷ xs) = let rest = distinct xs in if contains xs x then rest else x ∷ rest

unfoldable pub categories : (expected actual : Dict ℤ) → List String
categories expected actual = sorted (distinct (keys expected ++ keys actual))

abbrev pub variances : (expected actual : Dict ℤ) → List String → Dict ℤ
variances expected actual [] = []
variances expected actual (c ∷ cs) =
    (c, ◌-ℤ◌ (count_of c actual) (count_of c expected)) ∷ variances expected actual cs

unfoldable pub category_variance : (expected actual : Dict ℤ) → Dict ℤ
category_variance expected actual = variances expected actual (categories expected actual)

abbrev pub sum : List ℤ → ℤ
sum [] = pos 0
sum (n ∷ ns) = plus n (sum ns)

abbrev pub sum_abs : List ℤ → ℕ
sum_abs [] = 0
sum_abs (n ∷ ns) = abs n + sum_abs ns

module _ (python : Python) where
  -- `str(value)`
  abbrev pub str_of : Value → String
  str_of (str s) = s
  str_of v = python.show_value v

  -- `str(rule.options.get(name, default))`
  abbrev pub str_option : ReconciliationRule → (name default : String) → String
  str_option rule name default = elim (get name rule.options) [ none ↦ default | some v ↦ str_of v ]

  abbrev pub mode_of : ReconciliationRule → String
  mode_of rule = str_option rule "tolerance_mode" "absolute"

  unfoldable pub compared_variance :
      ReconciliationRule → (variance expected_scale : Double) → Result Double
  compared_variance rule variance expected_scale =
      if mode_of rule == "absolute"
      then ok variance
      else if mode_of rule == "relative"
      then ok (python.relative_to variance expected_scale)
      else err (
          value_error_of ("reconciliation rule " <> (rule.name <> ": unsupported tolerance_mode"))
            (mode_of rule))

  abbrev pub show : Measure → String
  show (count n) = python.show_integer n
  show (scalar x) = python.show_double x

  -- `float(abs(actual - expected))`
  abbrev pub distance : (expected actual : Measure) → Result Double
  distance (count e) (count a) = python.float_of (pos (abs (◌-ℤ◌ a e)))
  distance (count e) (scalar a) = python.float_of e >>= λ x. ok (python.difference a x)
  distance (scalar e) (count a) = python.float_of a >>= λ x. ok (python.difference x e)
  distance (scalar e) (scalar a) = ok (python.difference a e)

  -- `float(abs(m))`
  abbrev pub size : Measure → Result Double
  size (count n) = python.float_of (pos (abs n))
  size (scalar x) = ok (absolute x)

  abbrev pub comparison_details : ReconciliationRule → (compared : Double) → Dict String
  comparison_details rule compared =
      ("tolerance", python.show_double rule.tolerance)
      ∷ ("tolerance_mode", mode_of rule)
      ∷ ("compared_variance", python.show_double compared)
      ∷ []

  unfoldable pub numeric_result :
      ReconciliationRule → (expected actual : Measure) → Result ReconciliationResult
  numeric_result rule expected actual = do
    variance ← distance expected actual
    scale ← size expected
    compared ← compared_variance rule variance scale
    ok (record {
      rule_name = rule.name;
      rule_kind = rule.kind;
      expected_value = some (show expected);
      actual_value = some (show actual);
      variance = some variance;
      severity = rule.severity;
      passed = le_double compared rule.tolerance;
      details = comparison_details rule compared;
    })

  unfoldable pub categorical_result :
      ReconciliationRule → (expected actual : Dict ℤ) → Result ReconciliationResult
  categorical_result rule expected actual = do
    let differences = category_variance expected actual
    variance ← python.float_of (pos (sum_abs (values differences)))
    scale ← python.float_of (sum (values expected))
    compared ← compared_variance rule variance scale
    ok (record {
      rule_name = rule.name;
      rule_kind = rule.kind;
      expected_value = some (python.dumps expected);
      actual_value = some (python.dumps actual);
      variance = some variance;
      severity = rule.severity;
      passed = le_double compared rule.tolerance;
      details =
          comparison_details rule compared ++ ("category_variance", python.dumps differences) ∷ [];
    })
