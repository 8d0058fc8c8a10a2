-- ===== src/Runtime/Graphs.antt =====
-- The graphs that the handlers register are wired.
use enterprise_databrick_fra.Prelude.{
  String, Option, none, some, List, [], ◌∷◌, ◌++◌, Result, ok, ◌≡◌, ◌⊎◌, inl, inr, refl, arith,
  Bool-cases, ◌<>◌, type_error, Result-cases,
}
use enterprise_databrick_fra.Metadata.Models.{TableSpec, QualityRule}
use enterprise_databrick_fra.Patterns.Contracts.{RuntimeContext}
use enterprise_databrick_fra.Names.{qualify_relation, runtime_name}
use enterprise_databrick_fra.Pipelines.{
  Call, returns, read_stream, Frame, table, materialized_view, temporary_view, filter,
  create_streaming_table, create_auto_cdc_flow, AutoCdc, read, with_watermark,
  drop_duplicates_within_watermark, create_auto_cdc_from_snapshot_flow,
}
use enterprise_databrick_fra.Runtime.Options.{
  source_relation, sequence_by, runtime_except_columns, cdc_target_properties, string_option,
  snapshot_source, or_none,
}
use enterprise_databrick_fra.Runtime.Register.{
  register_stream_bronze, register_batch_bronze, register_quarantine, quarantine_if,
  quarantine_rows, register_valid_stream_view, register_p01, register_p02, register_p07,
  register_p10, register_p12, filtered, quarantine_rules, optional_callable, transform_or,
  publish_p07, publish_p10, cdc_flow,
}
use enterprise_databrick_fra.Prelude.Dict.{Dict}
use enterprise_databrick_fra.Metadata.Enums.{bronze_contract_value}
use enterprise_databrick_fra.Quality.{decorate_expectations, valid_expression, invalid_expression}
use enterprise_databrick_fra.Prelude.Text.{is_empty}
use enterprise_databrick_fra.Reconciliation.Contracts.{option}

module _ (spec : TableSpec) (context : RuntimeContext) where
  -- The calls that the handlers make.
  abbrev pub stream_call : (source target : String) → Call
  stream_call source target =
      table target
        ("Bronze " <> (bronze_contract_value spec.bronze.contract <> (" for " <> spec.dataset_id)))
        (decorate_expectations
          (returns (runtime_name spec.dataset_id "bronze_stream") (read_stream source))
          spec.quality.rules)

  abbrev pub batch_call : (source target : String) → Call
  batch_call source target =
      materialized_view target
        ("Bronze " <> (bronze_contract_value spec.bronze.contract <> (" for " <> spec.dataset_id)))
        (decorate_expectations
          (returns (runtime_name spec.dataset_id "bronze_snapshot") (read source))
          spec.quality.rules)

  abbrev pub view_name : String
  view_name = runtime_name spec.dataset_id "valid_stream"

  abbrev pub valid_frame : String → Frame
  valid_frame bronze =
      filtered spec context (valid_expression (quarantine_rules spec context)) (read_stream bronze)

  abbrev pub view_call : (bronze : String) → Call
  view_call bronze =
      temporary_view view_name ("Valid records for " <> spec.dataset_id)
        (returns view_name (valid_frame bronze))

  abbrev pub quarantine_call : (bronze target expression : String) → Call
  quarantine_call bronze target expression =
      table target ("Quarantined records for " <> spec.dataset_id) (
        returns (runtime_name spec.dataset_id "quarantine")
          (filter (read_stream bronze) expression))

  -- What the quarantine step leaves: nothing new, or one table for the rows that fail a rule.
  abbrev pub QuarantineAdds : (bronze : String) (start final : List Call) → Type 0
  QuarantineAdds bronze start final =
      (final ≡ start)
      ⊎ ((quarantine expression target : String) × (invalid_expression
              (quarantine_rules spec context)
            ≡ some expression)
          × (qualify_relation context.catalog quarantine ≡ ok target)
          × (final ≡ start ++ quarantine_call bronze target expression ∷ []))

  quarantine_rows_adds :
      (bronze quarantine : String) (start final : List Call)
      → quarantine_rows spec context bronze quarantine start ≡ (ok tt, final)
      → (expression target : String) × (invalid_expression (quarantine_rules spec context)
          ≡ some expression)
        × (qualify_relation context.catalog quarantine ≡ ok target)
        × (final ≡ start ++ quarantine_call bronze target expression ∷ [])
  unfolding quarantine_rows
  quarantine_rows_adds bronze quarantine start final h = ground arith

  quarantine_if_adds :
      (bronze : String) (rules : List QualityRule) (quarantine : Option String)
      (start final : List Call)
      → quarantine_if spec context bronze rules quarantine start ≡ (ok tt, final)
      → QuarantineAdds bronze start final
  unfolding quarantine_if
  quarantine_if_adds bronze [] quarantine start final h = inl (ground arith)
  quarantine_if_adds bronze (r ∷ rules) none start final h = inl (ground arith)
  quarantine_if_adds bronze (r ∷ rules) (some q) start final h = elim (Bool-cases (is_empty q)) [
    | inl empty ↦ inl (ground arith)
    | inr given ↦
        let (expression, target, e, t, added) =
          quarantine_rows_adds bronze q start final (rw given at h) in
        inr (q, expression, target, e, t, added)
  ]

  pub quarantine_adds :
      (bronze : String) (start : List Call)
      → (register_quarantine spec context bronze start).0 ≡ ok tt
      → QuarantineAdds bronze start (register_quarantine spec context bronze start).1
  unfolding register_quarantine
  quarantine_adds bronze start h =
      quarantine_if_adds bronze (quarantine_rules spec context) spec.quality.quarantine_table start
        _ (λ i. (h i, (register_quarantine spec context bronze start).1))

  -- The quarantine step behind the Bronze table.
  abbrev pub quarantined :
      (source bronze : String) (start : List Call) → Result (Unit {0}) × List Call
  quarantined source bronze start =
      register_quarantine spec context bronze (start ++ stream_call source bronze ∷ [])

  pub register_p01_graph :
      (start calls : List Call)
      → register_p01 spec context start ≡ (ok tt, calls)
      → (source bronze silver : String) × (source_relation spec context ≡ ok source)
        × (qualify_relation context.catalog spec.bronze.table ≡ ok bronze)
        × (qualify_relation context.catalog spec.silver.table ≡ ok silver)
        × (calls
            ≡ (start ++ batch_call source bronze ∷ [])
              ++ materialized_view silver
                  ("Authoritative snapshot for " <> spec.dataset_id)
                  (returns (runtime_name spec.dataset_id "silver_snapshot") (read bronze))
                ∷ [])
  unfolding register_p01 register_batch_bronze
  register_p01_graph start calls h = ground arith

  pub register_p02_graph :
      (start calls : List Call)
      → register_p02 spec context start ≡ (ok tt, calls)
      → (snapshots silver : String) × (snapshot_source spec context ≡ ok snapshots)
        × (qualify_relation context.catalog spec.silver.table ≡ ok silver)
        × (calls
            ≡ (start
                ++ create_streaming_table silver
                    ("Snapshot-derived SCD2 for " <> spec.dataset_id)
                    none
                  ∷ [])
              ++ create_auto_cdc_from_snapshot_flow (record {
                target = silver;
                source = snapshots;
                keys = spec.identity.business_keys;
                stored_as_scd_type = 2;
                track_history_column_list = or_none spec.silver.tracked_columns;
              })
                ∷ [])
  unfolding register_p02
  register_p02_graph start calls h = ground arith

  -- The graph before the flow: Bronze, quarantine, the view of valid rows, and the Silver table.
  abbrev pub before_flow :
      (source bronze silver comment : String) (properties : Option (Dict String))
      (start : List Call)
      → List Call
  before_flow source bronze silver comment properties start =
      ((quarantined source bronze start).1 ++ view_call bronze ∷ [])
      ++ create_streaming_table silver comment properties ∷ []

  pub register_p07_graph :
      (start calls : List Call)
      → register_p07 spec context start ≡ (ok tt, calls)
      → (source bronze silver : String) × (source_relation spec context ≡ ok source)
        × (qualify_relation context.catalog spec.bronze.table ≡ ok bronze)
        × (qualify_relation context.catalog spec.silver.table ≡ ok silver)
        × ((quarantined source bronze start).0 ≡ ok tt)
        × (publish_p07 spec context silver view_name (
              before_flow source bronze silver
                ("Current state derived from raw observations for " <> spec.dataset_id)
                none
                start)
            ≡ (ok tt, calls))
  unfolding register_p07 register_stream_bronze register_valid_stream_view
  register_p07_graph start calls h = ground arith

  pub register_p10_graph :
      (start calls : List Call)
      → register_p10 spec context start ≡ (ok tt, calls)
      → (source bronze silver : String) × (properties : Option (Dict String)) × (source_relation
            spec context
          ≡ ok source)
        × (qualify_relation context.catalog spec.bronze.table ≡ ok bronze)
        × (qualify_relation context.catalog spec.silver.table ≡ ok silver)
        × ((quarantined source bronze start).0 ≡ ok tt)
        × (cdc_target_properties spec ≡ ok properties)
        × (publish_p10 spec context silver view_name (
              before_flow source bronze silver
                ("CDC-derived state/history for " <> spec.dataset_id)
                properties
                start)
            ≡ (ok tt, calls))
  unfolding register_p10 register_stream_bronze register_valid_stream_view
  register_p10_graph start calls h = ground arith

  -- One flow from the source into the target, sequenced by the authoritative ordering.
  abbrev pub PublishesFlow : (silver source : String) (start calls : List Call) → Type 0
  PublishesFlow silver source start calls =
      (flow : AutoCdc) × (calls ≡ start ++ create_auto_cdc_flow flow ∷ [])
      × (flow.source ≡ source)
      × (flow.target ≡ silver)
      × (sequence_by spec ≡ ok flow.sequence_by)

  pub publish_p07_graph :
      (silver source : String) (start calls : List Call)
      → publish_p07 spec context silver source start ≡ (ok tt, calls)
      → PublishesFlow silver source start calls
  unfolding publish_p07
  publish_p07_graph silver source start calls h = elim (Result-cases (sequence_by spec)) [
    | inl (sequence, e) ↦ elim (Result-cases (runtime_except_columns spec)) [
      | inl (columns, f) ↦ (
        cdc_flow spec context silver source "observation_auto_cdc" sequence none columns,
        ground arith,
        refl,
        refl,
        e,
      )
      | inr (x, f) ↦ absurd (ground arith)
    ]
    | inr (x, e) ↦ absurd (ground arith)
  ]

  -- The flow of P10 also has the condition of deletes that the options give.
  pub publish_p10_graph :
      (silver source : String) (start calls : List Call)
      → publish_p10 spec context silver source start ≡ (ok tt, calls)
      → (published : PublishesFlow silver source start calls) × (string_option spec
            "apply_as_deletes"
          ≡ ok published.0.apply_as_deletes)
  unfolding publish_p10
  publish_p10_graph silver source start calls h = elim (Result-cases (sequence_by spec)) [
    | inl (sequence, e) ↦ elim (Result-cases (string_option spec "apply_as_deletes")) [
      | inl (deletes, d) ↦ elim (Result-cases (runtime_except_columns spec)) [
        | inl (columns, f) ↦ (
          (
            cdc_flow spec context silver source "full_cdc_auto_cdc" sequence deletes columns,
            ground arith,
            refl,
            refl,
            e,
          ),
          d,
        )
        | inr (x, f) ↦ absurd (ground arith)
      ]
      | inr (x, d) ↦ absurd (ground arith)
    ]
    | inr (x, e) ↦ absurd (ground arith)
  ]

  pub register_p12_graph :
      (start calls : List Call)
      → register_p12 spec context start ≡ (ok tt, calls)
      → (source bronze silver event_time watermark : String) × (transform : Option String)
        × (source_relation spec context ≡ ok source)
        × (qualify_relation context.catalog spec.bronze.table ≡ ok bronze)
        × (qualify_relation context.catalog spec.silver.table ≡ ok silver)
        × (spec.silver.effective_time_column ≡ some event_time)
        × (string_option spec "dedup_watermark" ≡ ok (some watermark))
        × (optional_callable spec context
              (type_error
                (spec.dataset_id <> ": RuntimeContext.options['transform'] must be callable"))
              (option "transform" context.options)
            ≡ ok transform)
        × ((quarantined source bronze start).0 ≡ ok tt)
        × (calls
            ≡ (quarantined source bronze start).1
              ++ table silver ("Canonical business events for " <> spec.dataset_id) (
                  returns (runtime_name spec.dataset_id "canonical_events") (
                    transform_or spec context transform (
                      drop_duplicates_within_watermark
                        (with_watermark (valid_frame bronze) event_time watermark)
                        spec.identity.event_identity_columns)))
                ∷ [])
  unfolding register_p12 register_stream_bronze
  register_p12_graph start calls h = ground arith
