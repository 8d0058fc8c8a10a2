-- ===== src/Runtime/Snapshots.antt =====
-- Quality rules in the runtime of complete snapshots, `register_p01`.
use enterprise_databrick_fra.Prelude.{List, Result-cases, inl, inr, ◌≡◌, refl}
use enterprise_databrick_fra.Metadata.Enums.{DqAction}
use enterprise_databrick_fra.Metadata.Models.{QualityRule, QualitySpec, TableSpec}
use enterprise_databrick_fra.Patterns.Contracts.{RuntimeContext}
use enterprise_databrick_fra.Pipelines.{Call, Function}
use enterprise_databrick_fra.Quality.{decorate_expectations, rules_for_action}
use enterprise_databrick_fra.Names.{qualify_relation}
use enterprise_databrick_fra.Runtime.Options.{
  source_relation, string_option, int_option, string_list_option,
}
use enterprise_databrick_fra.Runtime.Contract.{
  validate_builtin_runtime_contract, validate_p01, validate_p02, validate_p07, validate_p10,
  validate_p12, validate_cdc_delete, check_delays,
}
use enterprise_databrick_fra.Runtime.Register.{register_p01, register_batch_bronze}

decorate_expectations_same :
    (f : Function) (rules rules' : List QualityRule)
    → rules_for_action rules DqAction.warn ≡ rules_for_action rules' DqAction.warn
    → rules_for_action rules DqAction.fail ≡ rules_for_action rules' DqAction.fail
    → decorate_expectations f rules ≡ decorate_expectations f rules'
unfolding decorate_expectations
decorate_expectations_same f rules rules' w e = rw (w, e) refl

module _ (spec : TableSpec) (quality : QualitySpec) (context : RuntimeContext) where
  abbrev changed : TableSpec
  changed = record spec { quality = quality }

  contract_same : validate_builtin_runtime_contract changed ≡ validate_builtin_runtime_contract spec
  unfolding validate_builtin_runtime_contract validate_p01 validate_p02 validate_p07 validate_p10
      validate_p12 validate_cdc_delete check_delays string_option int_option string_list_option
  contract_same = refl

  source_same : source_relation changed context ≡ source_relation spec context
  unfolding source_relation
  source_same = refl

  -- Two tables that differ in their quality alone, with the same rules of the actions warn and
  -- fail, make register_p01 register the same calls with the same result: quarantine rules and the
  -- quarantine table have no effect on it.
  pub register_p01_quality :
      (calls : List Call)
      → rules_for_action spec.quality.rules DqAction.warn
        ≡ rules_for_action quality.rules DqAction.warn
      → rules_for_action spec.quality.rules DqAction.fail
        ≡ rules_for_action quality.rules DqAction.fail
      → register_p01 spec context calls ≡ register_p01 changed context calls
  unfolding register_p01 register_batch_bronze
  register_p01_quality calls w e =
      rw (contract_same, source_same)
        (elim (Result-cases (validate_builtin_runtime_contract spec)) [
          | inr (x, c) ↦ rw c refl
          | inl (u, c) ↦ elim (Result-cases (source_relation spec context)) [
            | inr (x, s) ↦ rw (c, s) refl
            | inl (source, s) ↦
                elim (Result-cases (qualify_relation context.catalog spec.bronze.table)) [
                  | inr (x, b) ↦ rw (c, s, b) refl
                  | inl (bronze, b) ↦
                      elim (Result-cases (qualify_relation context.catalog spec.silver.table)) [
                        | inr (x, t) ↦ rw (c, s, b, t) refl
                        | inl (silver, t) ↦
                            rw (c, s, b, t)
                              (rw
                                (decorate_expectations_same _ spec.quality.rules quality.rules w e)
                                refl)
                      ]
                ]
          ]
        ])
