-- ===== src/Runtime/Failures.antt =====
-- What a handler that raises leaves in the pipeline graph.
use enterprise_databrick_fra.Prelude.{
  String, ◌<>◌, none, false, List, [], ◌∷◌, ◌++◌, Result, ok, err, Error, ◌≡◌, ◌⊎◌, inl, inr, refl,
  arith, ◌∙◌, ap, value_error, ◌==◌, Bool-cases, Result-cases, contains, string_eq,
}
use enterprise_databrick_fra.Prelude.Dict.{get}
use enterprise_databrick_fra.Metadata.Models.{TableSpec}
use enterprise_databrick_fra.Patterns.Contracts.{RuntimeContext}
use enterprise_databrick_fra.Pipelines.{
  Call, Exec, Pipelines, emit, lift, ◌>>=◌, ◌>>◌, create_streaming_table, create_auto_cdc_flow,
  AutoCdc,
}
use enterprise_databrick_fra.Names.{qualify_relation}
use enterprise_databrick_fra.Runtime.Options.{
  source_relation, snapshot_source, sequence_by, string_option, int_option, string_list_option,
}
use enterprise_databrick_fra.Runtime.Contract.{
  validate_builtin_runtime_contract, validate_p01, validate_p02, validate_p07, validate_p10,
  validate_p12, validate_cdc_delete, check_delays,
}
use enterprise_databrick_fra.Runtime.Graphs.{
  batch_call, stream_call, view_call, view_name, quarantined, publish_p07_graph,
}
use enterprise_databrick_fra.Runtime.Register.{
  register_p01, register_p02, register_p07, register_batch_bronze, register_stream_bronze,
  register_quarantine, quarantine_if, quarantine_rows, register_valid_stream_view, publish_p07,
}
use enterprise_databrick_fra.Runtime.Handlers.{build_builtin_runtime, builtin_runtime_handlers}

-- The handlers that register a stream.
abbrev pub streaming : List String
streaming = "P07" ∷ "P10" ∷ "P12" ∷ []

not_streaming :
    (id : String)
    → contains streaming id ≡ false
    → ((id == "P07") ≡ false) × ((id == "P10") ≡ false) × ((id == "P12") ≡ false)
not_streaming id h = ground arith

-- A pipelines module that takes every call.
abbrev pub takes_all : Pipelines
takes_all calls call = ok tt

module _ (pipelines : Pipelines) where
  -- An action was refused, with this error, the next one of the calls that the same action makes
  -- where every call is taken.
  abbrev pub IsRefused : (action undisturbed : Exec (Unit {0})) (start : List Call) → Error → Type 0
  IsRefused action undisturbed start e =
      (call : Call) × (rest : List Call) × (pipelines (action start).1 call ≡ err e)
      × (undisturbed start ≡ (ok tt, (action start).1 ++ call ∷ rest))

  -- An action that raises leaves the graph as it was, or was refused a call.
  abbrev pub Keeps : (action undisturbed : Exec (Unit {0})) (start : List Call) → Error → Type 0
  Keeps action undisturbed start e =
      (action start).0 ≡ err e → ((action start).1 ≡ start) ⊎ IsRefused action undisturbed start e

  lift-Keeps :
      {A : Type 0} (r : Result A) (f g : A → Exec (Unit {0})) (start : List Call) (e : Error)
      → ((a : A) → Keeps (f a) (g a) start e)
      → Keeps (lift r >>= f) (lift r >>= g) start e
  lift-Keeps (ok a) f g start e keeps h = keeps a h
  lift-Keeps (err x) f g start e keeps h = inl refl

  two_calls-Keeps :
      (a b : Call) (start : List Call) (e : Error)
      → Keeps (emit pipelines a >> emit pipelines b) (emit takes_all a >> emit takes_all b) start e
  two_calls-Keeps a b start e h = elim (Result-cases (pipelines start a)) [
    | inl (u, r) ↦ elim (Result-cases (pipelines (start ++ a ∷ []) b)) [
      | inl (u', r') ↦ absurd (cc (rw (r, r') at h))
      | inr (x, r') ↦
          let same : x ≡ e = cc (rw (r, r') at h) in
          rw (r, r') (inr (b, [], r' ∙ ap (λ y. err y) same, refl))
    ]
    | inr (x, r) ↦ rw r (inl refl)
  ]

module _ (spec : TableSpec) (context : RuntimeContext) where
  -- The context with a pipelines module that takes every call.
  abbrev pub undisturbed : RuntimeContext
  undisturbed = record context { pipelines = takes_all }

  register_p01-Keeps :
      (start : List Call) (e : Error)
      → Keeps context.pipelines (register_p01 spec context) (register_p01 spec undisturbed) start e
  unfolding register_p01 register_batch_bronze source_relation
  register_p01-Keeps start e =
      lift-Keeps context.pipelines (validate_builtin_runtime_contract spec) _ _ start e (λ _.
        lift-Keeps context.pipelines (source_relation spec context) _ _ start e (λ source.
          lift-Keeps context.pipelines (qualify_relation context.catalog spec.bronze.table) _ _
            start e
            (λ bronze.
              lift-Keeps context.pipelines (qualify_relation context.catalog spec.silver.table) _ _
                start e
                (λ silver.
                  two_calls-Keeps context.pipelines (batch_call spec context source bronze) _ start
                    e))))

  register_p02-Keeps :
      (start : List Call) (e : Error)
      → Keeps context.pipelines (register_p02 spec context) (register_p02 spec undisturbed) start e
  unfolding register_p02 snapshot_source
  register_p02-Keeps start e =
      lift-Keeps context.pipelines (validate_builtin_runtime_contract spec) _ _ start e (λ _.
        lift-Keeps context.pipelines (snapshot_source spec context) _ _ start e (λ snapshots.
          lift-Keeps context.pipelines (qualify_relation context.catalog spec.silver.table) _ _
            start e
            (λ silver.
              two_calls-Keeps context.pipelines
                (create_streaming_table silver ("Snapshot-derived SCD2 for " <> spec.dataset_id)
                  none)
                _ start e)))

  -- If the built-in runtime raises for a table whose pattern is none of P07, P10 and P12, the graph
  -- is as it was before, or the pipelines module refused, with the error that is raised, the next
  -- one of the calls that the runtime makes for the table where every call is taken.
  pub build_builtin_runtime_raises :
      (start : List Call) (e : Error)
      → contains streaming spec.pattern_id ≡ false
      → (build_builtin_runtime spec context start).0 ≡ err e
      → ((build_builtin_runtime spec context start).1 ≡ start)
        ⊎ IsRefused context.pipelines
            (build_builtin_runtime spec context)
            (build_builtin_runtime spec undisturbed)
            start
            e
  unfolding build_builtin_runtime builtin_runtime_handlers get
  build_builtin_runtime_raises start e other h = elim (Bool-cases (spec.pattern_id == "P01")) [
    | inl p01 ↦ rw p01 (register_p01-Keeps start e (rw p01 at h))
    | inr e1 ↦ elim (Bool-cases (spec.pattern_id == "P02")) [
      | inl p02 ↦ rw (e1, p02) (register_p02-Keeps start e (rw (e1, p02) at h))
      | inr e2 ↦
          let (e7, e10, e12) = not_streaming spec.pattern_id other in
          rw (e1, e2, e7, e10, e12) (inl refl)
    ]
  ]

module _ (spec : TableSpec) (context : RuntimeContext) where
  abbrev silver_call : (silver : String) → Call
  silver_call silver =
      create_streaming_table silver
        ("Current state derived from raw observations for " <> spec.dataset_id) none

  abbrev behind_bronze : (source bronze : String) (start : List Call) → List Call
  behind_bronze source bronze start = (quarantined spec context source bronze start).1

  abbrev behind_view : (source bronze : String) (start : List Call) → List Call
  behind_view source bronze start =
      behind_bronze source bronze start ++ view_call spec context bronze ∷ []

  -- Every step of a run that returns.
  register_p07_steps :
      (start calls : List Call)
      → register_p07 spec context start ≡ (ok tt, calls)
      → (source bronze silver : String) × (validate_builtin_runtime_contract spec ≡ ok tt)
        × (source_relation spec context ≡ ok source)
        × (qualify_relation context.catalog spec.bronze.table ≡ ok bronze)
        × (qualify_relation context.catalog spec.silver.table ≡ ok silver)
        × (context.pipelines start (stream_call spec context source bronze) ≡ ok tt)
        × ((quarantined spec context source bronze start).0 ≡ ok tt)
        × (context.pipelines (behind_bronze source bronze start) (view_call spec context bronze)
            ≡ ok tt)
        × (context.pipelines (behind_view source bronze start) (silver_call silver) ≡ ok tt)
        × (publish_p07 spec context silver
              (view_name spec context)
              (behind_view source bronze start ++ silver_call silver ∷ [])
            ≡ (ok tt, calls))
  unfolding register_p07 register_stream_bronze register_valid_stream_view
  register_p07_steps start calls h = ground arith

  -- The table without the ordering of its source.
  abbrev pub unordered : TableSpec
  unordered = record spec { ordering = none }

  contract_same :
      validate_builtin_runtime_contract unordered ≡ validate_builtin_runtime_contract spec
  unfolding validate_builtin_runtime_contract validate_p01 validate_p02 validate_p07 validate_p10
      validate_p12 validate_cdc_delete check_delays string_option int_option string_list_option
  contract_same = refl

  source_same : source_relation unordered context ≡ source_relation spec context
  unfolding source_relation
  source_same = refl

  quarantine_same : register_quarantine unordered context ≡ register_quarantine spec context
  unfolding register_quarantine quarantine_if quarantine_rows
  quarantine_same = refl

  -- If register_p07 returns for a table, then without the ordering of its source it raises, and
  -- leaves in the graph all the calls that it makes for the table but the flow.
  pub register_p07-unordered :
      (start calls : List Call)
      → register_p07 spec context start ≡ (ok tt, calls)
      → (before : List Call) × (flow : AutoCdc) × (calls ≡ before ++ create_auto_cdc_flow flow ∷ [])
        × (register_p07 unordered context start ≡ (
          err (value_error (spec.dataset_id <> ": authoritative source ordering is required")),
          before,
        ))
  unfolding register_p07 register_stream_bronze register_valid_stream_view publish_p07 sequence_by
  register_p07-unordered start calls h =
      let (source, bronze, silver, v, s, b, t, stream, q, view, table, published) =
        register_p07_steps start calls h in
      let (flow, added, from, into, sequenced) =
        publish_p07_graph spec context _ _ _ calls published in
      (
        _,
        flow,
        added,
        rw (contract_same, v, source_same, s, b, t, stream, quarantine_same, q, view, table) refl,
      )
