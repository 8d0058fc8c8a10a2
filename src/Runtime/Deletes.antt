-- ===== src/Runtime/Deletes.antt =====
-- Deletes in the flow of P10: what the contract of `validate_builtin_runtime_contract` ensures of the
-- calls that `register_p10` makes.
use enterprise_databrick_fra.Prelude.{
  ℕ, String, Option, none, some, List, [], ◌∷◌, ◌++◌, ok, ◌≡◌, ◌⊎◌, inl, inr, refl, sym, ap, ◌∙◌,
  arith, ◌<◌, string_eq, Result-cases, >>=-eq-ok, ◌<>◌,
}
use enterprise_databrick_fra.Prelude.Dict.{get}
use enterprise_databrick_fra.Prelude.Text.{decimal}
use enterprise_databrick_fra.Metadata.Enums.{DeleteStrategy, delete_strategy_eq}
use enterprise_databrick_fra.Metadata.Models.{TableSpec}
use enterprise_databrick_fra.Patterns.Contracts.{RuntimeContext}
use enterprise_databrick_fra.Pipelines.{Call, AutoCdc, create_streaming_table, create_auto_cdc_flow}
use enterprise_databrick_fra.Runtime.Options.{
  string_option, int_option, cdc_target_properties, retention_properties,
}
use enterprise_databrick_fra.Runtime.Contract.{
  check_delays, validate_cdc_delete, validate_p10, validate_builtin_runtime_contract,
}
use enterprise_databrick_fra.Runtime.Register.{register_p10}
use enterprise_databrick_fra.Runtime.Handlers.{build_builtin_runtime, builtin_runtime_handlers}
use enterprise_databrick_fra.Runtime.Graphs.{register_p10_graph, publish_p10_graph}

abbrev pub Made : Call → List Call → Type 0
Made call [] = ⊥
Made call (x ∷ calls) = (call ≡ x) ⊎ Made call calls

module _ (spec : TableSpec) where
  -- The options that a flow with deletes needs.
  pub record DeleteOptions : Type 0 where
    pub operation : String
    pub delay : ℕ
    pub retention : ℕ
    pub operation_given : string_option spec "apply_as_deletes" ≡ ok (some operation)
    pub delay_given : int_option spec "max_out_of_order_delay_seconds" ≡ ok (some delay)
    pub retention_given : int_option spec "cdc_tombstone_retention_seconds" ≡ ok (some retention)
    pub covered : delay < retention

  check_delays_sound :
      (delay retention : Option ℕ)
      → check_delays spec delay retention ≡ ok tt
      → (d r : ℕ) × (delay ≡ some d) × (retention ≡ some r) × (d < r)
  unfolding check_delays
  check_delays_sound none retention h = cc
  check_delays_sound (some d) none h = cc
  check_delays_sound (some d) (some r) h = (d, r, refl, refl, ground arith)

  validate_cdc_delete_sound : validate_cdc_delete spec ≡ ok tt → DeleteOptions
  unfolding validate_cdc_delete
  validate_cdc_delete_sound h = elim (Result-cases (string_option spec "apply_as_deletes")) [
    | inl (none, e) ↦ absurd (ground arith)
    | inl (some operation, e) ↦
        let (maximum, f, h1) =
          >>=-eq-ok (int_option spec "max_out_of_order_delay_seconds") _ (rw e at h) in
        let (given, g, h2) = >>=-eq-ok (int_option spec "cdc_tombstone_retention_seconds") _ h1 in
        let (delay, retention, d, r, covered) = check_delays_sound maximum given h2 in
        record {
          operation = operation;
          delay = delay;
          retention = retention;
          operation_given = e;
          delay_given = f ∙ ap (λ o. ok o) d;
          retention_given = g ∙ ap (λ o. ok o) r;
          covered = covered;
        }
    | inr (x, e) ↦ absurd (ground arith)
  ]

  validate_p10_deletes :
      spec.deletes.strategy ≡ DeleteStrategy.cdc_delete
      → validate_p10 spec ≡ ok tt
      → validate_cdc_delete spec ≡ ok tt
  unfolding validate_p10
  validate_p10_deletes s h = ground arith

  validate_builtin_runtime_contract_p10 :
      spec.pattern_id ≡ "P10"
      → validate_builtin_runtime_contract spec ≡ ok tt
      → validate_p10 spec ≡ ok tt
  unfolding validate_builtin_runtime_contract
  validate_builtin_runtime_contract_p10 p h = ground arith

  validated :
      (context : RuntimeContext) (calls : List Call)
      → register_p10 spec context [] ≡ (ok tt, calls)
      → validate_builtin_runtime_contract spec ≡ ok tt
  unfolding register_p10
  validated context calls h = ground arith

-- The calls of a flow that applies deletes.
pub record DeletesCovered (spec : TableSpec) (calls : List Call) : Type 0 where
  pub options : DeleteOptions spec
  pub silver : String
  pub comment : String
  pub flow : AutoCdc
  pub target_made :
      Made
        (create_streaming_table silver comment
          (some (("pipelines.cdc.tombstoneGCThresholdInSeconds", decimal options.retention) ∷ [])))
        calls
  pub flow_made : Made (create_auto_cdc_flow flow) calls
  pub flow_target : flow.target ≡ silver
  pub flow_deletes : flow.apply_as_deletes ≡ some options.operation

Made-last : (call : Call) (calls : List Call) → Made call (calls ++ call ∷ [])
Made-last call [] = inl refl
Made-last call (x ∷ calls) = inr (Made-last call calls)

Made-before : (call : Call) (calls more : List Call) → Made call calls → Made call (calls ++ more)
Made-before call [] more made = absurd made
Made-before call (x ∷ calls) more (inl e) = inl e
Made-before call (x ∷ calls) more (inr m) = inr (Made-before call calls more m)

Made-second :
    (a b c : Call) (calls final : List Call)
    → final ≡ (calls ++ a ∷ []) ++ b ∷ []
    → c ≡ a
    → Made c final
Made-second a b c calls final e same = rw (e, same) (Made-before a _ (b ∷ []) (Made-last a calls))

get-builtin_runtime_handlers :
    (id : String) → id ≡ "P10" → get id builtin_runtime_handlers ≡ some register_p10
unfolding get builtin_runtime_handlers string_eq
get-builtin_runtime_handlers id e = rw e refl

module _ (spec : TableSpec) (context : RuntimeContext) (p10 : spec.pattern_id ≡ "P10")
    (cdc : spec.deletes.strategy ≡ DeleteStrategy.cdc_delete) where
  register_p10-DeletesCovered :
      (calls : List Call)
      → register_p10 spec context [] ≡ (ok tt, calls)
      → DeletesCovered spec calls
  unfolding cdc_target_properties
  register_p10-DeletesCovered calls h =
      let options = validate_cdc_delete_sound spec (
        validate_p10_deletes spec cdc
          (validate_builtin_runtime_contract_p10 spec p10 (validated spec context calls h))) in
      let (source, bronze, silver, properties, e, b, s, q, p, published) =
        register_p10_graph spec context [] calls h in
      let ((flow, made, from, into, sequence), deletes) =
        publish_p10_graph spec context _ _ _ calls published in
      let property : properties ≡ retention_properties (some options.retention) =
        ground (arith, options.retention_given) in
      record {
        options = options;
        silver = silver;
        comment = "CDC-derived state/history for " <> spec.dataset_id;
        flow = flow;
        target_made =
            Made-second
              (create_streaming_table silver ("CDC-derived state/history for " <> spec.dataset_id)
                properties)
              (create_auto_cdc_flow flow) _ _ calls made
              (sym (
                ap
                  (λ o.
                    create_streaming_table silver
                      ("CDC-derived state/history for " <> spec.dataset_id) o)
                  property));
        flow_made = rw made (Made-last (create_auto_cdc_flow flow) _);
        flow_target = into;
        flow_deletes = ground (arith, options.operation_given);
      }

  -- If the built-in runtime returns for a table of pattern P10 with the delete strategy cdc_delete,
  -- the options give the condition of deletes, the greatest delay of a late change and a longer
  -- retention of tombstones, the flow applies that condition, and its target was created with that
  -- retention.
  pub build_builtin_runtime-DeletesCovered :
      (calls : List Call)
      → build_builtin_runtime spec context [] ≡ (ok tt, calls)
      → DeletesCovered spec calls
  unfolding build_builtin_runtime
  build_builtin_runtime-DeletesCovered calls h =
      register_p10-DeletesCovered calls (rw (get-builtin_runtime_handlers _ p10) at h)
