-- ===== src/Extension.antt =====
-- templates/pattern-extension/src/company_pattern_extension/: the package that a team copies to add a
-- pattern, `CompanyPatternProvider` of provider.py and `register_runtime` of runtime.py.
pub mod Refusal
use enterprise_databrick_fra.Prelude.{
  String, ◌<>◌, Bool, true, false, not, Option, none, some, List, [], ◌∷◌, Result, ok, err,
  value_error, not_implemented_error, raise_if, if◌then◌else◌, ◌==◌, string_eq,
}
use enterprise_databrick_fra.Metadata.Enums.{BronzeContract, SilverContract}
use enterprise_databrick_fra.Metadata.Models.{TableSpec}
use enterprise_databrick_fra.Patterns.Contracts.{PatternDefinition, PatternProvider, RuntimeContext}
use enterprise_databrick_fra.Pipelines.{Exec, raise}

abbrev pub company_definition : PatternDefinition
company_definition = record {
  id = "X_COMPANY_001";
  name = "Company-specific source pattern";
  bronze_contract = BronzeContract.raw_append;
  supported_silver_contracts = SilverContract.current ∷ [];
  description = "Replace with the real semantic difference, not merely a vendor name.";
  implementation_hint = "company_package/custom_runtime";
}

-- `value != text` for an optional text
abbrev pub is_other : Option String → String → Bool
is_other none text = true
is_other (some value) text = not (value == text)

unfoldable pub validate_company : TableSpec → Result (Unit {0})
validate_company spec =
    if not (spec.pattern_id == "X_COMPANY_001")
    then ok tt
    else raise_if (is_other spec.capture.provider_package "company-pattern-extension")
        (value_error "X_COMPANY_001 requires company-pattern-extension")

abbrev pub register_runtime : TableSpec → RuntimeContext → Exec (Unit {0})
register_runtime spec context = raise (
    not_implemented_error
      ("Implement runtime for " <> (spec.pattern_id <> " in company_pattern_extension.runtime")))

-- `provider()`
abbrev pub company_provider : PatternProvider
company_provider = record {
  definitions = company_definition ∷ [];
  validate = validate_company;
  build_runtime = some register_runtime;
}
