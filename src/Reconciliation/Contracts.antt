-- ===== src/Reconciliation/Contracts.antt =====
-- src/edp_framework/reconciliation/contracts.py: what is tested of the rules before a run.
use enterprise_databrick_fra.Prelude.{
  String, ◌<>◌, Bool, false, not, ◌&&◌, Option, none, some, List, [], ◌∷◌, Result, ok, err,
  type_error, value_error, raise_if, for_each, ◌>>=◌, ◌>>◌, contains, string_eq, Eq, if◌then◌else◌,
  Error,
}
use enterprise_databrick_fra.Prelude.Text.{is_blank}
use enterprise_databrick_fra.Prelude.Dict.{Dict, get}
use enterprise_databrick_fra.Prelude.Values.{Value, null, str, list, other, nil, cons, all_texts}
use enterprise_databrick_fra.Metadata.Validators.{no_items}
use enterprise_databrick_fra.Metadata.Models.{RuleKind, ReconciliationRule, TableSpec}

RuleKind-discrete : Discrete RuleKind
RuleKind-discrete = hlevel

instance unfoldable pub rule_kind_eq : Eq RuleKind
unfolding RuleKind-discrete
rule_kind_eq = record { dec = RuleKind-discrete }

abbrev pub key_rule_kinds : List RuleKind
key_rule_kinds =
    RuleKind.key_count ∷ RuleKind.pk_presence ∷ RuleKind.scd2_current_uniqueness
    ∷ RuleKind.scd2_no_overlap ∷ []

-- `options.get(name)`, where a missing entry and None are alike.
abbrev pub option : String → Dict Value → Value
option name options = elim (get name options) [ none ↦ null | some v ↦ v ]

abbrev pub not_blank : String → Bool
not_blank s = not (is_blank s)

-- The items of a list of column names that has at least one.
abbrev pub column_names : Value → Option (List String)
column_names (list nil) = none
column_names (list (cons v items)) = all_texts not_blank (cons v items)
column_names _ = none

-- A value of `options.keys`: None for a missing one.
abbrev pub keys_of : Error → Value → Result (Option (List String))
keys_of e null = ok none
keys_of e (list nil) = err e
keys_of e (list (cons v items)) = elim (all_texts not_blank (cons v items)) [
  | some names ↦ ok (some names)
  | none ↦ err e
]
keys_of e _ = err e

unfoldable pub rule_keys : ReconciliationRule → Result (Option (List String))
rule_keys rule =
    keys_of
      (value_error (
        "reconciliation rule "
        <> (rule.name <> ": options.keys must be a non-empty list of column names")))
      (option "keys" rule.options)

-- `if not isinstance(value, str) or not value.strip(): raise e`
abbrev pub text_of : Error → Value → Result String
text_of e (str s) = if is_blank s then err e else ok s
text_of e _ = err e

unfoldable pub require_non_empty_string : TableSpec → ReconciliationRule → String → Result String
require_non_empty_string spec rule option_name =
    text_of
      (value_error (
        spec.dataset_id
        <> (": reconciliation rule " <> (rule.name <> (" requires options." <> option_name)))))
      (option option_name rule.options)

-- `mode not in {"absolute", "relative"}`; a value that cannot be hashed is no member to look up.
abbrev pub check_tolerance_mode : Error → Value → Result (Unit {0})
check_tolerance_mode e (str mode) = raise_if (not (contains ("absolute" ∷ "relative" ∷ []) mode)) e
check_tolerance_mode e (list _) = err (type_error "unhashable type: 'list'")
check_tolerance_mode e (other _ _ false) = err (type_error "unhashable type")
check_tolerance_mode e _ = err e

-- `rule.options.get("tolerance_mode", "absolute")`
abbrev pub tolerance_mode : ReconciliationRule → Value
tolerance_mode rule = elim (get "tolerance_mode" rule.options) [
  | none ↦ str "absolute"
  | some v ↦ v
]

unfoldable pub check_mode : TableSpec → ReconciliationRule → Result (Unit {0})
check_mode spec rule =
    check_tolerance_mode
      (value_error (
        spec.dataset_id
        <> (": reconciliation rule " <> (rule.name <> " has unsupported tolerance_mode"))))
      (tolerance_mode rule)

-- One round of the loop over the two column options.
unfoldable pub check_column_option : TableSpec → ReconciliationRule → String → Result (Unit {0})
check_column_option spec rule option_name = elim (get option_name rule.options) [
  | none ↦ ok tt
  | some value ↦
      text_of
        (value_error (
          spec.dataset_id
          <> (": reconciliation rule "
              <> (rule.name
                  <> (" options." <> (option_name <> " must be a non-empty column name"))))))
        value
      >> ok tt
]

-- `keys or spec.identity.business_keys` is empty.
abbrev pub no_keys : Option (List String) → List String → Bool
no_keys none business_keys = no_items business_keys
no_keys (some []) business_keys = no_items business_keys
no_keys (some (k ∷ keys)) business_keys = false

-- Which options a rule of the kind has to give.
abbrev pub check_required : TableSpec → ReconciliationRule → RuleKind → Result (Unit {0})
check_required spec rule RuleKind.aggregate =
    require_non_empty_string spec rule "expression" >> ok tt
check_required spec rule RuleKind.operation_count =
    require_non_empty_string spec rule "operation_column" >> ok tt
check_required spec rule RuleKind.scd2_current_uniqueness =
    for_each (check_column_option spec rule) ("start_column" ∷ "end_column" ∷ [])
check_required spec rule RuleKind.scd2_no_overlap =
    for_each (check_column_option spec rule) ("start_column" ∷ "end_column" ∷ [])
check_required spec rule _ = ok tt

-- The body of the loop over the rules.
unfoldable pub validate_rule : TableSpec → ReconciliationRule → Result (Unit {0})
validate_rule spec rule = do
  keys ← rule_keys rule
  raise_if (contains key_rule_kinds rule.kind && no_keys keys spec.identity.business_keys) (
      value_error (
        spec.dataset_id
        <> (": reconciliation rule "
            <> (rule.name
                <> (" requires keys; declare rule.options.keys when reconciliation identity "
                    <> "differs from business identity")))))
  check_mode spec rule
  check_required spec rule rule.kind

unfoldable pub validate_reconciliation_contract : TableSpec → Result (Unit {0})
validate_reconciliation_contract spec =
    if not spec.reconciliation.enabled
    then ok tt
    else for_each (validate_rule spec) spec.reconciliation.rules
