-- ===== src/Patterns/Builtins/Agreement.antt =====
-- Which tables `validate_builtin_pattern` accepts.
use enterprise_databrick_fra.Prelude.{
  true, false, Option, none, some, ok, contains, ◌≡◌, ◌↔◌, ◌⊎◌, arith,
}
use enterprise_databrick_fra.Prelude.Dict.{get}
use enterprise_databrick_fra.Metadata.Enums.{
  ChangeGranularity, data_semantics_eq, change_granularity_eq, bronze_contract_eq,
  silver_contract_eq,
}
use enterprise_databrick_fra.Metadata.Models.{TableSpec}
use enterprise_databrick_fra.Patterns.Contracts.{PatternDefinition}
use enterprise_databrick_fra.Patterns.Builtins.{
  expected_semantics, expected_change_granularity, other_granularity, validate_builtin_pattern,
}

-- The table has what the pattern demands.
pub record Agrees (spec : TableSpec) (d : PatternDefinition) : Type 0 where
  pub semantics : get d.id expected_semantics ≡ some spec.semantics
  pub granularity :
      (get d.id expected_change_granularity ≡ none)
      ⊎ (get d.id expected_change_granularity ≡ some spec.capture.change_granularity)
  pub bronze : spec.bronze.contract ≡ d.bronze_contract
  pub silver : contains d.supported_silver_contracts spec.silver.contract ≡ true

granularity_iff :
    (expected : Option ChangeGranularity) (granularity : ChangeGranularity)
    → (other_granularity expected granularity ≡ false)
      ↔ ((expected ≡ none) ⊎ (expected ≡ some granularity))
granularity_iff none granularity = ground arith
granularity_iff (some expected) granularity = ground arith

module _ (spec : TableSpec) (d : PatternDefinition) where
  validate_builtin_pattern_sound : validate_builtin_pattern spec d ≡ ok tt → Agrees spec d
  unfolding validate_builtin_pattern
  validate_builtin_pattern_sound h = record {
    semantics = ground arith;
    granularity = (granularity_iff _ _).0 (ground arith);
    bronze = ground arith;
    silver = ground arith;
  }

  validate_builtin_pattern_complete : Agrees spec d → validate_builtin_pattern spec d ≡ ok tt
  unfolding validate_builtin_pattern
  validate_builtin_pattern_complete a =
      let same : other_granularity (get d.id expected_change_granularity)
            spec.capture.change_granularity
          ≡ false =
        (granularity_iff _ _).1 a.granularity in
      ground (arith, a.semantics, a.bronze, a.silver)

  -- validate_builtin_pattern returns exactly when the table has the semantics that the tables list
  -- for the id of the pattern, its change granularity where one is listed, its Bronze contract, and
  -- one of its Silver contracts.
  pub validate_builtin_pattern_iff : (validate_builtin_pattern spec d ≡ ok tt) ↔ Agrees spec d
  validate_builtin_pattern_iff = (validate_builtin_pattern_sound, validate_builtin_pattern_complete)
