-- ===== src/Runtime/Register.antt =====
-- The `_register_…` helpers and the handlers `register_p…` of src/edp_framework/runtime/builtin.py.
use enterprise_databrick_fra.Prelude.{
  ℕ, String, ◌<>◌, Option, none, some, List, [], ◌∷◌, Result, ok, err, Error, type_error,
  assertion_error, ◌==◌, if◌then◌else◌,
}
use enterprise_databrick_fra.Prelude.Text.{is_empty}
use enterprise_databrick_fra.Prelude.Values.{Value, null, callable}
use enterprise_databrick_fra.Metadata.Enums.{
  SilverContract, DqAction, silver_contract_eq, bronze_contract_value,
}
use enterprise_databrick_fra.Metadata.Models.{QualityRule, TableSpec}
use enterprise_databrick_fra.Reconciliation.Contracts.{option}
use enterprise_databrick_fra.Patterns.Contracts.{RuntimeContext}
use enterprise_databrick_fra.Names.{qualify_relation, runtime_name}
use enterprise_databrick_fra.Quality.{
  rules_for_action, valid_expression, invalid_expression, decorate_expectations,
}
use enterprise_databrick_fra.Pipelines.{
  Frame, read_stream, read, filter, with_watermark, drop_duplicates_within_watermark, transformed,
  returns, table, materialized_view, temporary_view, create_streaming_table, create_auto_cdc_flow,
  create_auto_cdc_from_snapshot_flow, Exec, ◌>>=◌, ◌>>◌, lift, pure, raise, emit, AutoCdc, Sequence,
}
use enterprise_databrick_fra.Runtime.Options.{
  string_option, source_relation, snapshot_source, sequence_by, runtime_except_columns,
  cdc_target_properties, or_none,
}
use enterprise_databrick_fra.Runtime.Contract.{validate_builtin_runtime_contract}

module _ (spec : TableSpec) (context : RuntimeContext) where
  abbrev named : (suffix : String) → String
  named suffix = runtime_name spec.dataset_id suffix

  abbrev pub quarantine_rules : List QualityRule
  quarantine_rules = rules_for_action spec.quality.rules DqAction.quarantine

  -- `frame.filter(expression) if expression else frame`
  abbrev pub filtered : Option String → Frame → Frame
  filtered none frame = frame
  filtered (some expression) frame = if is_empty expression then frame else filter frame expression

  unfoldable pub register_stream_bronze : (source target : String) → Exec (Unit {0})
  register_stream_bronze source target = emit context.pipelines (
      table target
        ("Bronze " <> (bronze_contract_value spec.bronze.contract <> (" for " <> spec.dataset_id)))
        (decorate_expectations (returns (named "bronze_stream") (read_stream source))
          spec.quality.rules))

  unfoldable pub register_batch_bronze : (source target : String) → Exec (Unit {0})
  register_batch_bronze source target = emit context.pipelines (
      materialized_view target
        ("Bronze " <> (bronze_contract_value spec.bronze.contract <> (" for " <> spec.dataset_id)))
        (decorate_expectations (returns (named "bronze_snapshot") (read source))
          spec.quality.rules))

  -- `assert value is not None`
  abbrev pub asserted : Option String → Exec String
  asserted none = raise (assertion_error "")
  asserted (some value) = pure value

  -- The part of `_register_quarantine` behind its early return.
  unfoldable pub quarantine_rows : (bronze quarantine : String) → Exec (Unit {0})
  quarantine_rows bronze quarantine = do
    expression ← asserted (invalid_expression quarantine_rules)
    target ← lift (qualify_relation context.catalog quarantine)
    emit context.pipelines (
        table target ("Quarantined records for " <> spec.dataset_id)
          (returns (named "quarantine") (filter (read_stream bronze) expression)))

  unfoldable pub quarantine_if :
      (bronze : String) → List QualityRule → Option String → Exec (Unit {0})
  quarantine_if bronze [] quarantine = pure tt
  quarantine_if bronze (r ∷ rules) none = pure tt
  quarantine_if bronze (r ∷ rules) (some quarantine) =
      if is_empty quarantine then pure tt else quarantine_rows bronze quarantine

  unfoldable pub register_quarantine : (bronze : String) → Exec (Unit {0})
  register_quarantine bronze = quarantine_if bronze quarantine_rules spec.quality.quarantine_table

  unfoldable pub register_valid_stream_view : (bronze : String) → Exec String
  register_valid_stream_view bronze = do
    let name = named "valid_stream"
    emit context.pipelines (
        temporary_view name ("Valid records for " <> spec.dataset_id)
          (returns name (filtered (valid_expression quarantine_rules) (read_stream bronze))))
    pure name

  unfoldable pub register_p01 : Exec (Unit {0})
  register_p01 = do
    lift (validate_builtin_runtime_contract spec)
    source ← lift (source_relation spec context)
    bronze ← lift (qualify_relation context.catalog spec.bronze.table)
    silver ← lift (qualify_relation context.catalog spec.silver.table)
    register_batch_bronze source bronze
    emit context.pipelines (
        materialized_view silver ("Authoritative snapshot for " <> spec.dataset_id)
          (returns (named "silver_snapshot") (read bronze)))

  unfoldable pub register_p02 : Exec (Unit {0})
  register_p02 = do
    lift (validate_builtin_runtime_contract spec)
    snapshots ← lift (snapshot_source spec context)
    silver ← lift (qualify_relation context.catalog spec.silver.table)
    emit context.pipelines
        (create_streaming_table silver ("Snapshot-derived SCD2 for " <> spec.dataset_id) none)
    emit context.pipelines (
        create_auto_cdc_from_snapshot_flow (record {
          target = silver;
          source = snapshots;
          keys = spec.identity.business_keys;
          stored_as_scd_type = 2;
          track_history_column_list = or_none spec.silver.tracked_columns;
        }))

  -- `2 if spec.silver.contract is SilverContract.SCD2 else 1`
  abbrev pub stored_type : ℕ
  stored_type = if spec.silver.contract == SilverContract.scd2 then 2 else 1

  abbrev pub tracked : Option (List String)
  tracked =
      if spec.silver.contract == SilverContract.scd2
      then or_none spec.silver.tracked_columns
      else none

  -- The arguments of `dp.create_auto_cdc_flow`, as the two handlers give them.
  abbrev pub cdc_flow :
      (silver valid_source suffix : String)
      → Sequence
      → (deletes : Option String) → (except_columns : Option (List String)) → AutoCdc
  cdc_flow silver valid_source suffix sequence deletes except_columns = record {
    target = silver;
    source = valid_source;
    keys = spec.identity.business_keys;
    sequence_by = sequence;
    apply_as_deletes = deletes;
    except_column_list = except_columns;
    stored_as_scd_type = stored_type;
    track_history_column_list = tracked;
    name = named suffix;
  }

  -- The last statement of `register_p07`, its arguments in the order of evaluation.
  unfoldable pub publish_p07 : (silver valid_source : String) → Exec (Unit {0})
  publish_p07 silver valid_source = do
    sequence ← lift (sequence_by spec)
    except_columns ← lift (runtime_except_columns spec)
    emit context.pipelines (
        create_auto_cdc_flow
          (cdc_flow silver valid_source "observation_auto_cdc" sequence none except_columns))

  -- The last statement of `register_p10`.
  unfoldable pub publish_p10 : (silver valid_source : String) → Exec (Unit {0})
  publish_p10 silver valid_source = do
    sequence ← lift (sequence_by spec)
    deletes ← lift (string_option spec "apply_as_deletes")
    except_columns ← lift (runtime_except_columns spec)
    emit context.pipelines (
        create_auto_cdc_flow
          (cdc_flow silver valid_source "full_cdc_auto_cdc" sequence deletes except_columns))

  unfoldable pub register_p07 : Exec (Unit {0})
  register_p07 = do
    lift (validate_builtin_runtime_contract spec)
    source ← lift (source_relation spec context)
    bronze ← lift (qualify_relation context.catalog spec.bronze.table)
    silver ← lift (qualify_relation context.catalog spec.silver.table)
    register_stream_bronze source bronze
    register_quarantine bronze
    valid_source ← register_valid_stream_view bronze
    emit context.pipelines (
        create_streaming_table silver
          ("Current state derived from raw observations for " <> spec.dataset_id) none)
    publish_p07 silver valid_source

  unfoldable pub register_p10 : Exec (Unit {0})
  register_p10 = do
    lift (validate_builtin_runtime_contract spec)
    source ← lift (source_relation spec context)
    bronze ← lift (qualify_relation context.catalog spec.bronze.table)
    silver ← lift (qualify_relation context.catalog spec.silver.table)
    register_stream_bronze source bronze
    register_quarantine bronze
    valid_source ← register_valid_stream_view bronze
    properties ← lift (cdc_target_properties spec)
    emit context.pipelines (
        create_streaming_table silver ("CDC-derived state/history for " <> spec.dataset_id)
          properties)
    publish_p10 silver valid_source

  -- The optional callable of a context.
  abbrev pub optional_callable : Error → Value → Result (Option String)
  optional_callable e null = ok none
  optional_callable e (callable name) = ok (some name)
  optional_callable e _ = err e

  abbrev pub transform_or : Option String → Frame → Frame
  transform_or none frame = frame
  transform_or (some transform) frame = transformed transform frame

  unfoldable pub register_p12 : Exec (Unit {0})
  register_p12 = do
    lift (validate_builtin_runtime_contract spec)
    source ← lift (source_relation spec context)
    bronze ← lift (qualify_relation context.catalog spec.bronze.table)
    silver ← lift (qualify_relation context.catalog spec.silver.table)
    event_time ← asserted spec.silver.effective_time_column
    configured ← lift (string_option spec "dedup_watermark")
    watermark ← asserted configured
    transform ← lift (
        optional_callable
          (type_error (spec.dataset_id <> ": RuntimeContext.options['transform'] must be callable"))
          (option "transform" context.options))
    register_stream_bronze source bronze
    register_quarantine bronze
    emit context.pipelines (
        table silver ("Canonical business events for " <> spec.dataset_id) (
          returns (named "canonical_events") (
            transform_or transform (
              drop_duplicates_within_watermark
                (with_watermark (filtered (valid_expression quarantine_rules) (read_stream bronze))
                  event_time watermark)
                spec.identity.event_identity_columns))))
