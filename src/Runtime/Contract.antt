-- ===== src/Runtime/Contract.antt =====
-- `validate_builtin_runtime_contract` of src/edp_framework/runtime/builtin.py.
use enterprise_databrick_fra.Prelude.{
  ℕ, String, ◌<>◌, Bool, true, not, Option, none, some, List, [], ◌∷◌, Result, ok, err, Error,
  value_error, raise_if, ◌>>=◌, ◌>>◌, ◌==◌, contains, string_eq, if◌then◌else◌, leb,
}
use enterprise_databrick_fra.Metadata.Enums.{
  BronzeContract, SilverContract, DeleteStrategy, bronze_contract_eq, silver_contract_eq,
  delete_strategy_eq,
}
use enterprise_databrick_fra.Metadata.Models.{CursorSpec, TableSpec}
use enterprise_databrick_fra.Metadata.Validators.{unset, no_items, is_none}
use enterprise_databrick_fra.Runtime.Options.{string_option, int_option, string_list_option}

-- The keys of `BUILTIN_RUNTIME_HANDLERS`.
abbrev pub implemented : List String
implemented = "P01" ∷ "P02" ∷ "P07" ∷ "P10" ∷ "P12" ∷ []

-- `spec.cursor is None or len(spec.cursor.columns) != 1`
abbrev pub not_one_column : Option CursorSpec → Bool
not_one_column none = true
not_one_column (some cursor) = elim cursor.columns [ [] ↦ true | c ∷ cs ↦ not (no_items cs) ]

module _ (spec : TableSpec) where
  -- `raise ValueError(f"{spec.dataset_id}: …")`
  abbrev complaint : String → Error
  complaint text = value_error (spec.dataset_id <> (": " <> text))

  unfoldable pub validate_p01 : Result (Unit {0})
  validate_p01 = do
    raise_if (not (spec.bronze.contract == BronzeContract.current_replica))
        (complaint "P01 runtime requires current-replica Bronze")
    raise_if
        (not (
          contains (SilverContract.current ∷ SilverContract.snapshot_replace ∷ [])
            spec.silver.contract))
        (complaint "P01 runtime supports current/snapshot_replace Silver")

  unfoldable pub validate_p02 : Result (Unit {0})
  validate_p02 = do
    raise_if (not (spec.bronze.contract == BronzeContract.snapshot_history))
        (complaint "P02 runtime requires snapshot-history Bronze")
    raise_if (not (spec.silver.contract == SilverContract.scd2))
        (complaint "P02 v1 runtime currently supports SCD2 Silver")
    raise_if (not_one_column spec.cursor)
        (complaint "P02 requires exactly one snapshot-version cursor column")

  unfoldable pub validate_p07 : Result (Unit {0})
  validate_p07 = do
    raise_if (not (spec.bronze.contract == BronzeContract.raw_append))
        (complaint "P07 runtime requires raw-append Bronze")
    raise_if (not (spec.deletes.strategy == DeleteStrategy.source_soft_delete))
        (complaint "P07 runtime requires source_soft_delete semantics")
    raise_if
        (not (
          contains
            (SilverContract.current_soft_delete ∷ SilverContract.scd1 ∷ SilverContract.scd2 ∷ [])
            spec.silver.contract))
        (complaint "unsupported P07 Silver runtime contract")

  -- The retention of tombstones must exceed the delay of late changes; both must be given.
  unfoldable pub check_delays : Option ℕ → Option ℕ → Result (Unit {0})
  check_delays none retention = err (
      complaint (
        "CDC delete runtime requires explicit max_out_of_order_delay_seconds and "
        <> "cdc_tombstone_retention_seconds"))
  check_delays (some delay) none = err (
      complaint (
        "CDC delete runtime requires explicit max_out_of_order_delay_seconds and "
        <> "cdc_tombstone_retention_seconds"))
  check_delays (some delay) (some retention) =
      raise_if (leb retention delay)
        (complaint "cdc_tombstone_retention_seconds must exceed max_out_of_order_delay_seconds")

  unfoldable pub validate_cdc_delete : Result (Unit {0})
  validate_cdc_delete = do
    apply_as_deletes ← string_option spec "apply_as_deletes"
    raise_if (is_none apply_as_deletes) (
        complaint (
          "CDC delete semantics require explicit capture.options.apply_as_deletes; "
          <> "core will not infer provider operation codes"))
    maximum_delay ← int_option spec "max_out_of_order_delay_seconds"
    tombstone_retention ← int_option spec "cdc_tombstone_retention_seconds"
    check_delays maximum_delay tombstone_retention

  unfoldable pub validate_p10 : Result (Unit {0})
  validate_p10 = do
    raise_if (not (spec.bronze.contract == BronzeContract.event_history))
        (complaint "P10 runtime requires event-history Bronze")
    raise_if
        (not (
          contains (SilverContract.current ∷ SilverContract.scd1 ∷ SilverContract.scd2 ∷ [])
            spec.silver.contract))
        (complaint "P10 v1 AUTO CDC runtime supports current/SCD1/SCD2")
    if spec.deletes.strategy == DeleteStrategy.cdc_delete then validate_cdc_delete else ok tt
    string_list_option spec "runtime_except_columns"
    ok tt

  unfoldable pub validate_p12 : Result (Unit {0})
  validate_p12 = do
    raise_if (not (spec.bronze.contract == BronzeContract.event_history))
        (complaint "P12 runtime requires event-history Bronze")
    raise_if (not (spec.silver.contract == SilverContract.canonical_events))
        (complaint "P12 v1 runtime supports canonical_events Silver")
    raise_if (unset spec.silver.effective_time_column)
        (complaint "P12 requires silver.effective_time_column")
    raise_if (no_items spec.identity.event_identity_columns)
        (complaint "P12 requires event_identity_columns")
    watermark ← string_option spec "dedup_watermark"
    raise_if (is_none watermark) (
        complaint (
          "P12 requires capture.options.dedup_watermark; "
          <> "watermark/lateness policy must be an explicit workload contract"))

  -- `if spec.pattern_id == id: …`
  abbrev when_pattern : String → Result (Unit {0}) → Result (Unit {0})
  when_pattern id check = if spec.pattern_id == id then check else ok tt

  unfoldable pub validate_builtin_runtime_contract : Result (Unit {0})
  validate_builtin_runtime_contract =
      if not (contains implemented spec.pattern_id) then ok tt else do
        when_pattern "P01" validate_p01
        when_pattern "P02" validate_p02
        when_pattern "P07" validate_p07
        when_pattern "P10" validate_p10
        when_pattern "P12" validate_p12
