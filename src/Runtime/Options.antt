-- ===== src/Runtime/Options.antt =====
-- The readers of options and the small helpers of src/edp_framework/runtime/builtin.py.
use enterprise_databrick_fra.Prelude.{
  ℕ, String, ◌<>◌, not, Option, none, some, List, [], ◌∷◌, ◌++◌, Result, ok, err, Error,
  value_error, ◌>>=◌, contains, string_eq, if◌then◌else◌, is_zero,
}
use enterprise_databrick_fra.Prelude.Int.{pos}
use enterprise_databrick_fra.Prelude.Text.{is_blank, is_empty, decimal}
use enterprise_databrick_fra.Prelude.Dict.{Dict}
use enterprise_databrick_fra.Prelude.Values.{
  Value, null, int, str, list, callable, all_texts, truthy,
}
use enterprise_databrick_fra.Metadata.Models.{OrderingSpec, TableSpec}
use enterprise_databrick_fra.Reconciliation.Contracts.{option, text_of}
use enterprise_databrick_fra.Patterns.Contracts.{RuntimeContext}
use enterprise_databrick_fra.Names.{qualify_relation}
use enterprise_databrick_fra.Pipelines.{Sequence, column, struct}

abbrev option_error : TableSpec → (name demand : String) → Error
option_error spec name demand =
    value_error (spec.dataset_id <> (": capture.options." <> (name <> demand)))

abbrev pub optional_text : Error → Value → Result (Option String)
optional_text e null = ok none
optional_text e (str s) = if is_blank s then err e else ok (some s)
optional_text e _ = err e

unfoldable pub string_option : TableSpec → String → Result (Option String)
string_option spec name =
    optional_text (option_error spec name " must be a non-empty string")
      (option name spec.capture.options)

abbrev pub optional_positive : Error → Value → Result (Option ℕ)
optional_positive e null = ok none
optional_positive e (int (pos n)) = if is_zero n then err e else ok (some n)
optional_positive e _ = err e

unfoldable pub int_option : TableSpec → String → Result (Option ℕ)
int_option spec name =
    optional_positive (option_error spec name " must be a positive integer")
      (option name spec.capture.options)

abbrev pub optional_texts : Error → Value → Result (List String)
optional_texts e null = ok []
optional_texts e (list items) = elim (all_texts (λ s. not (is_empty s)) items) [
  | none ↦ err e
  | some texts ↦ ok texts
]
optional_texts e _ = err e

unfoldable pub string_list_option : TableSpec → String → Result (List String)
string_list_option spec name =
    optional_texts (option_error spec name " must be a list of strings")
      (option name spec.capture.options)

abbrev pub unique_onto : List String → List String → List String
unique_onto seen [] = seen
unique_onto seen (item ∷ items) =
    unique_onto (if contains seen item then seen else seen ++ item ∷ []) items

-- `list(dict.fromkeys(items))`
unfoldable pub unique : List String → List String
unique items = unique_onto [] items

-- `a or b`
abbrev pub or_value : Value → Value → Value
or_value a b = if truthy a then a else b

unfoldable pub source_relation : TableSpec → RuntimeContext → Result String
source_relation spec context = do
  configured ←
      text_of
        (value_error (
          spec.dataset_id
          <> (": runtime source_relation is required; the consuming capture adapter "
              <> "must supply a normalized schema.table relation")))
        (or_value (option "source_relation" context.options)
          (option "reference_source_relation" spec.capture.options))
  qualify_relation context.catalog configured

abbrev pub callable_of : Error → Value → Result String
callable_of e (callable name) = ok name
callable_of e _ = err e

unfoldable pub snapshot_source : TableSpec → RuntimeContext → Result String
snapshot_source spec context =
    callable_of
      (value_error (
        spec.dataset_id
        <> (": P02 requires RuntimeContext.options['snapshot_source'] as a callable "
            <> "returning (DataFrame, snapshot_version) or None")))
      (option "snapshot_source" context.options)

abbrev pub sequence_of : List String → Sequence
sequence_of (name ∷ []) = column name
sequence_of columns = struct columns

abbrev pub sequence_or : Error → Option OrderingSpec → Result Sequence
sequence_or e none = err e
sequence_or e (some ordering) =
    if ordering.authoritative then ok (sequence_of ordering.columns) else err e

unfoldable pub sequence_by : TableSpec → Result Sequence
sequence_by spec =
    sequence_or (value_error (spec.dataset_id <> ": authoritative source ordering is required"))
      spec.ordering

-- `items or None`
abbrev pub or_none : List String → Option (List String)
or_none [] = none
or_none (x ∷ xs) = some (x ∷ xs)

unfoldable pub runtime_except_columns : TableSpec → Result (Option (List String))
runtime_except_columns spec = do
  configured ← string_list_option spec "runtime_except_columns"
  ok (or_none (unique (configured ++ spec.identity.delivery_identity_columns)))

abbrev pub retention_properties : Option ℕ → Option (Dict String)
retention_properties none = none
retention_properties (some retention) =
    some (("pipelines.cdc.tombstoneGCThresholdInSeconds", decimal retention) ∷ [])

unfoldable pub cdc_target_properties : TableSpec → Result (Option (Dict String))
cdc_target_properties spec = do
  retention ← int_option spec "cdc_tombstone_retention_seconds"
  ok (retention_properties retention)
