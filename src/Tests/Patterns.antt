-- ===== src/Tests/Patterns.antt =====
-- The registry of patterns, at the samples.
use enterprise_databrick_fra.Prelude.{
  ◌<>◌, true, Option, none, some, [], ◌∷◌, ◌++◌, ok, err, ◌≡◌, ◌≢◌, ◌↔◌, refl, value_error,
  key_error,
}
use enterprise_databrick_fra.Prelude.Dict.{get}
use enterprise_databrick_fra.Metadata.Models.{TableSpec}
use enterprise_databrick_fra.Patterns.Contracts.{PatternDefinition}
use enterprise_databrick_fra.Patterns.Registry.{
  builtin_registry, register_provider, validate, build_runtime, is_numbered,
}
use enterprise_databrick_fra.Patterns.Registry.Invariant.{
  IsConsistent, Reach, start, register, Reach-IsConsistent, builtin,
}
use enterprise_databrick_fra.Patterns.Registry.Registration.{
  IsFresh, entries, register_provider_iff, register_provider_appends, register_provider_partial,
}
use enterprise_databrick_fra.Patterns.Registry.Routing.{
  validate-Reach, build_runtime-Reach, validate_numbered,
}
use enterprise_databrick_fra.Metadata.Enums.{BronzeContract, SilverContract}
use enterprise_databrick_fra.Patterns.Builtins.{expected_semantics, validate_builtin_pattern}
use enterprise_databrick_fra.Patterns.Builtins.Agreement.{Agrees, validate_builtin_pattern_iff}
use enterprise_databrick_fra.Tests.Run.{run_all}
use enterprise_databrick_fra.Tests.Samples.{
  orders, production, extension, company, clashing, numbered, extended, renumbered,
}

extended_reached : Reach extended
extended_reached = register company start

renumbered_reached : Reach renumbered
renumbered_reached = register numbered start

abbrev p10 : PatternDefinition
p10 = record {
  id = "P10";
  name = "Full Changes -> Event Bronze";
  bronze_contract = BronzeContract.event_history;
  supported_silver_contracts =
      SilverContract.current ∷ SilverContract.scd1 ∷ SilverContract.scd2
      ∷ SilverContract.canonical_events ∷ [];
  description = "Preserve captured CDC events; sequence and deduplicate by event identity.";
  implementation_hint = "cdc/full_event";
}

abbrev invoices : TableSpec
invoices = record orders { pattern_id = "P15" }

company_registered : (register_provider company builtin_registry).0 ≡ ok tt
unfolding run_all
company_registered = refl

some-≢-none {ℓ} : {A : Type ℓ} {o : Option A} (a : A) → o ≡ some a → o ≢ none
some-≢-none a e n = cc

Reach-IsConsistent_example : IsConsistent extended
Reach-IsConsistent_example = Reach-IsConsistent extended_reached

register_provider_iff_example : ((register_provider company builtin_registry).0 ≡ ok tt) ↔ (
    (company.definitions ≢ [])
    × (company.build_runtime ≢ none)
    × IsFresh builtin_registry.definitions company.definitions)
register_provider_iff_example = register_provider_iff company builtin_registry

register_provider_appends_example :
    ((register_provider company builtin_registry).1.definitions
      ≡ builtin_registry.definitions ++ entries company.definitions)
    × ((register_provider company builtin_registry).1.providers
        ≡ builtin_registry.providers ++ company ∷ [])
register_provider_appends_example =
    register_provider_appends company builtin_registry company_registered

clashing_runs : clashing.build_runtime ≢ none
clashing_runs = some-≢-none _ refl

acme_new : get "ACME_1" builtin_registry.definitions ≡ none
unfolding run_all
acme_new = refl

p01_taken : get "P01" builtin_registry.definitions ≢ none
unfolding run_all
p01_taken = some-≢-none _ refl

register_provider_partial_example :
    let after = register_provider clashing builtin_registry in
    (after.0 ≡ err (value_error ("pattern already registered: " <> "P01")))
    × (get "ACME_1" after.1.definitions ≡ some (extension "ACME_1"))
    × (get "ACME_1" after.1.provider_by_pattern ≡ some clashing)
    × (after.1.providers ≡ builtin_registry.providers)
register_provider_partial_example =
    register_provider_partial clashing (extension "ACME_1") (extension "P01") [] builtin_registry
      refl clashing_runs acme_new p01_taken

builtin-p10 : builtin "P10" ≡ some p10
unfolding run_all
builtin-p10 = refl

orders_validated : validate builtin_registry orders ≡ ok p10
unfolding run_all
orders_validated = refl

validate-Reach_example : validate extended orders ≡ validate builtin_registry orders
validate-Reach_example = validate-Reach extended_reached orders p10 builtin-p10

build_runtime-Reach_example :
    build_runtime extended orders production []
    ≡ build_runtime builtin_registry orders production []
build_runtime-Reach_example =
    build_runtime-Reach extended_reached orders p10 builtin-p10 production []

p15_found : get "P15" renumbered.definitions ≡ some (extension "P15")
unfolding run_all
p15_found = refl

p15_numbered : is_numbered "P15" ≡ true
unfolding run_all
p15_numbered = refl

p15_missing : get "P15" expected_semantics ≡ none
unfolding run_all
p15_missing = refl

validate_numbered_example : validate renumbered invoices ≡ err (key_error "P15")
validate_numbered_example =
    validate_numbered renumbered_reached invoices (extension "P15") p15_found p15_numbered
      p15_missing

validate_builtin_pattern_iff_example :
    (validate_builtin_pattern orders p10 ≡ ok tt) ↔ Agrees orders p10
validate_builtin_pattern_iff_example = validate_builtin_pattern_iff orders p10
