-- ===== src/Patterns/Builtins.antt =====
-- src/edp_framework/patterns/builtins.py: the fourteen patterns of the package.
pub mod Agreement
use enterprise_databrick_fra.Prelude.{
  String, ◌<>◌, Bool, false, not, Option, none, some, List, [], ◌∷◌, map, Result, ok, err,
  key_error, value_error, raise_if, ◌>>=◌, ◌>>◌, ◌==◌, contains,
}
use enterprise_databrick_fra.Prelude.Text.{join, sorted}
use enterprise_databrick_fra.Prelude.Dict.{Dict, get}
use enterprise_databrick_fra.Metadata.Enums.{
  DataSemantics, ChangeGranularity, BronzeContract, SilverContract, data_semantics_eq,
  change_granularity_eq, bronze_contract_eq, silver_contract_eq, data_semantics_value,
  change_granularity_value, bronze_contract_value, silver_contract_value,
}
use enterprise_databrick_fra.Metadata.Models.{TableSpec}
use enterprise_databrick_fra.Patterns.Contracts.{PatternDefinition}

abbrev define :
    (id name : String)
    → BronzeContract
    → List SilverContract
    → (description implementation_hint : String) → PatternDefinition
define id name bronze silver description hint = record {
  id = id;
  name = name;
  bronze_contract = bronze;
  supported_silver_contracts = silver;
  description = description;
  implementation_hint = hint;
}

unfoldable pub builtin_patterns : List PatternDefinition
builtin_patterns =
    define "P01" "Full Snapshot -> Current Bronze" BronzeContract.current_replica
      (SilverContract.current ∷ SilverContract.snapshot_replace ∷ [])
      "Complete source snapshot materialised as current state." "batch/full_snapshot_current"
    ∷ define "P02" "Full Snapshot -> Snapshot Bronze" BronzeContract.snapshot_history
        (SilverContract.current ∷ SilverContract.scd2 ∷ SilverContract.snapshot_replace ∷ [])
        "Append periodic complete snapshots with snapshot identity." "batch/snapshot_history"
    ∷ define "P03" "Watermark -> Current Bronze" BronzeContract.current_replica
        (SilverContract.current ∷ SilverContract.scd1 ∷ [])
        "Incremental current rows merged into current Bronze." "batch/watermark_current"
    ∷ define "P04" "Watermark + Lookback -> Current Bronze" BronzeContract.current_replica
        (SilverContract.current ∷ SilverContract.scd1 ∷ [])
        "Overlapping watermark reads with idempotent current materialisation."
        "batch/watermark_lookback_current"
    ∷ define "P05" "Watermark + Lookback -> Raw Append Bronze" BronzeContract.raw_append
        (SilverContract.current ∷ SilverContract.scd1 ∷ SilverContract.scd2 ∷ [])
        "Preserve ingestion observations then collapse rereads downstream."
        "batch/watermark_lookback_raw"
    ∷ define "P06" "Watermark + Soft Delete -> Current Bronze" BronzeContract.current_replica
        (SilverContract.current_soft_delete ∷ SilverContract.scd1 ∷ [])
        "Current incremental source with retained deletion marker."
        "batch/watermark_soft_delete_current"
    ∷ define "P07" "Watermark + Lookback + Soft Delete -> Raw Append Bronze"
        BronzeContract.raw_append
        (SilverContract.current_soft_delete ∷ SilverContract.scd1 ∷ SilverContract.scd2 ∷ [])
        "Replayable observation history with source soft-delete semantics."
        "batch/watermark_soft_delete_raw"
    ∷ define "P08" "Net Changes -> Current Bronze" BronzeContract.current_replica
        (SilverContract.current ∷ SilverContract.scd1 ∷ [])
        "Apply per-window net I/U/D to current replica." "cdc/net_current"
    ∷ define "P09" "Net Changes -> Append Bronze" BronzeContract.event_history
        (SilverContract.current ∷ SilverContract.scd2 ∷ [])
        "Preserve net-window change observations." "cdc/net_append"
    ∷ define "P10" "Full Changes -> Event Bronze" BronzeContract.event_history
        (SilverContract.current ∷ SilverContract.scd1 ∷ SilverContract.scd2
          ∷ SilverContract.canonical_events ∷ [])
        "Preserve captured CDC events; sequence and deduplicate by event identity." "cdc/full_event"
    ∷ define "P11" "Full Changes -> Current Bronze" BronzeContract.current_replica
        (SilverContract.current ∷ SilverContract.scd1 ∷ [])
        "Intentionally collapse full CDC history to latest state." "cdc/full_current_lossy"
    ∷ define "P12" "Business Events -> Event Bronze" BronzeContract.event_history
        (SilverContract.canonical_events ∷ SilverContract.current ∷ [])
        "Preserve domain events and derive projections where required." "streaming/domain_events"
    ∷ define "P13" "Snapshot Diff -> Current" BronzeContract.current_replica
        (SilverContract.current ∷ SilverContract.scd1 ∷ [])
        "Derive I/U/D by comparing complete snapshots, then materialise current state."
        "snapshot_diff/current"
    ∷ define "P14" "Snapshot Diff -> Append Changes" BronzeContract.event_history
        (SilverContract.current ∷ SilverContract.scd2 ∷ [])
        "Persist derived snapshot-interval changes." "snapshot_diff/append"
    ∷ []

unfoldable pub expected_semantics : Dict DataSemantics
expected_semantics =
    ("P01", DataSemantics.current_state)
    ∷ ("P02", DataSemantics.current_state)
    ∷ ("P03", DataSemantics.current_state)
    ∷ ("P04", DataSemantics.current_state)
    ∷ ("P05", DataSemantics.current_state)
    ∷ ("P06", DataSemantics.current_state)
    ∷ ("P07", DataSemantics.current_state)
    ∷ ("P08", DataSemantics.change_feed)
    ∷ ("P09", DataSemantics.change_feed)
    ∷ ("P10", DataSemantics.change_feed)
    ∷ ("P11", DataSemantics.change_feed)
    ∷ ("P12", DataSemantics.business_events)
    ∷ ("P13", DataSemantics.derived_changes)
    ∷ ("P14", DataSemantics.derived_changes)
    ∷ []

unfoldable pub expected_change_granularity : Dict ChangeGranularity
expected_change_granularity =
    ("P08", ChangeGranularity.net)
    ∷ ("P09", ChangeGranularity.net)
    ∷ ("P10", ChangeGranularity.full)
    ∷ ("P11", ChangeGranularity.full)
    ∷ []

-- `EXPECTED_SEMANTICS[id]`
abbrev pub lookup_semantics : String → Result DataSemantics
lookup_semantics id = elim (get id expected_semantics) [
  | none ↦ err (key_error id)
  | some semantics ↦ ok semantics
]

-- The granularity is demanded, and the table has another.
abbrev pub other_granularity : Option ChangeGranularity → ChangeGranularity → Bool
other_granularity none granularity = false
other_granularity (some expected) granularity = not (granularity == expected)

abbrev granularity_text : Option ChangeGranularity → String
granularity_text none = ""
granularity_text (some expected) = change_granularity_value expected

abbrev mismatch : (dataset_id id demand got : String) → String
mismatch dataset_id id demand got = dataset_id <> (": " <> (id <> (demand <> (", got " <> got))))

unfoldable pub validate_builtin_pattern : TableSpec → PatternDefinition → Result (Unit {0})
validate_builtin_pattern spec definition = do
  expected ← lookup_semantics definition.id
  raise_if (not (spec.semantics == expected)) (
      value_error (
        mismatch spec.dataset_id definition.id
          (" requires semantics " <> data_semantics_value expected)
          (data_semantics_value spec.semantics)))
  let granularity = get definition.id expected_change_granularity
  raise_if (other_granularity granularity spec.capture.change_granularity) (
      value_error (
        mismatch spec.dataset_id definition.id (" requires " <> granularity_text granularity)
          (change_granularity_value spec.capture.change_granularity)))
  raise_if (not (spec.bronze.contract == definition.bronze_contract)) (
      value_error (
        mismatch spec.dataset_id definition.id
          (" requires Bronze " <> bronze_contract_value definition.bronze_contract)
          (bronze_contract_value spec.bronze.contract)))
  raise_if (not (contains definition.supported_silver_contracts spec.silver.contract)) (
      value_error (
        spec.dataset_id
        <> (": "
            <> (definition.id
                <> (" does not support Silver "
                    <> (silver_contract_value spec.silver.contract
                        <> ("; allowed: "
                            <> join ", " (
                                sorted (
                                  map silver_contract_value
                                    definition.supported_silver_contracts)))))))))
