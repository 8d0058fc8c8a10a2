-- ===== src/Extension/Refusal.antt =====
-- The template before it is filled in.
use enterprise_databrick_fra.Prelude.{
  String, ◌<>◌, Bool, true, false, Option, none, some, List, [], ◌∷◌, Result, ok, err, Error,
  value_error, not_implemented_error, raise_if, string_eq, ◌>>◌, ◌++◌, ◌≡◌, ◌↔◌, inl, inr, refl, ap,
  ◌∙◌, arith, Returns, Bool-cases, Result-cases,
}
use enterprise_databrick_fra.Prelude.Dict.{get, has, get-put}
use enterprise_databrick_fra.Metadata.Models.{TableSpec}
use enterprise_databrick_fra.Patterns.Contracts.{PatternDefinition, RuntimeContext}
use enterprise_databrick_fra.Patterns.Registry.{
  Registry, register_provider, register_definitions, validate, build_runtime, get_pattern,
  is_numbered, build_with, add_definition,
}
use enterprise_databrick_fra.Reconciliation.Contracts.{validate_reconciliation_contract}
use enterprise_databrick_fra.Pipelines.{Call}
use enterprise_databrick_fra.Extension.{
  company_definition, company_provider, validate_company, is_other,
}

is_other_iff :
    (provided : Option String) (name : String)
    → (is_other provided name ≡ false) ↔ (provided ≡ some name)
is_other_iff none name = (λ h. cc, λ h. cc)
is_other_iff (some value) name = ground arith

raise_if-Returns :
    (b : Bool) (e : Error) (d : PatternDefinition) → Returns (raise_if b e >> ok d) ↔ (b ≡ false)
raise_if-Returns true e d = (λ h. absurd (cc (h.1)), λ h. absurd (cc))
raise_if-Returns false e d = (λ h. refl, λ h. (d, refl))

abbrev pub stub_error : TableSpec → Error
stub_error spec =
    not_implemented_error
      ("Implement runtime for " <> (spec.pattern_id <> " in company_pattern_extension.runtime"))

-- What stops a build: what validation raised or, behind it, the stub.
abbrev pub refusal : TableSpec → Result PatternDefinition → Error
refusal spec (ok definition) = stub_error spec
refusal spec (err e) = e

module _ (r : Registry) (registered : (register_provider company_provider r).0 ≡ ok tt) where
  abbrev after : Registry
  after = (register_provider company_provider r).1

  is_new : has "X_COMPANY_001" r.definitions ≡ false
  unfolding register_provider register_definitions
  is_new = elim (Bool-cases (has "X_COMPANY_001" r.definitions)) [
    | inl taken ↦ absurd (cc (rw taken at registered))
    | inr new ↦ new
  ]

  added : register_provider company_provider r ≡ (
    ok tt,
    record (add_definition company_provider company_definition r) {
      providers = r.providers ++ company_provider ∷ [];
    },
  )
  unfolding register_provider register_definitions
  added = rw is_new refl

  found :
      (get "X_COMPANY_001" after.definitions ≡ some company_definition)
      × (get "X_COMPANY_001" after.provider_by_pattern ≡ some company_provider)
  found = (
    ap (λ p. get "X_COMPANY_001" p.1.definitions) added
        ∙ ground (arith, get-put "X_COMPANY_001" "X_COMPANY_001" company_definition r.definitions),
    ap (λ p. get "X_COMPANY_001" p.1.provider_by_pattern) added
        ∙ ground
            (arith, get-put "X_COMPANY_001" "X_COMPANY_001" company_provider r.provider_by_pattern),
  )

  get_pattern-after : get_pattern after "X_COMPANY_001" ≡ ok company_definition
  unfolding get_pattern
  get_pattern-after = rw (found.0, get_pattern) refl

  module _ (spec : TableSpec) (named : spec.pattern_id ≡ "X_COMPANY_001") where
    validate_after : validate after spec ≡ (
        validate_reconciliation_contract spec >> (validate_company spec >> ok company_definition))
    unfolding validate is_numbered
    validate_after = simp (named, get_pattern-after, found.1)

    validate_company_named :
        validate_company spec
        ≡ raise_if
            (is_other spec.capture.provider_package "company-pattern-extension")
            (value_error "X_COMPANY_001 requires company-pattern-extension")
    unfolding validate_company string_eq
    validate_company_named = simp named

    build_with_stub :
        (context : RuntimeContext) (calls : List Call)
        → build_with (get spec.pattern_id after.provider_by_pattern) spec context calls
          ≡ (err (stub_error spec), calls)
    build_with_stub context calls = simp (named, found.1)

    validate_steps :
        (contract : Result (Unit {0})) (provided : Option String)
        → Returns (
            contract
            >> (raise_if
                  (is_other provided "company-pattern-extension")
                  (value_error "X_COMPANY_001 requires company-pattern-extension")
                >> ok company_definition))
          ↔ ((contract ≡ ok tt) × (provided ≡ some "company-pattern-extension"))
    validate_steps (err e) provided = (λ h. absurd (cc (h.1)), λ h. absurd (cc (h.0)))
    validate_steps (ok u) provided = (
      λ h. (refl, (is_other_iff provided _).0 ((raise_if-Returns _ _ _).0 h)),
      λ h. (raise_if-Returns _ _ _).1 ((is_other_iff provided _).1 h.1),
    )

    -- In a registry in which the extension template was registered, a table with its pattern is
    -- accepted exactly when the contract of its rules is and it names the package of the template;
    -- a build raises, either way, what validation raised or behind it that the runtime is to be
    -- implemented, and registers nothing.
    pub build_runtime_refused :
        (context : RuntimeContext) (calls : List Call)
        → (Returns (validate after spec) ↔ (
            (validate_reconciliation_contract spec ≡ ok tt)
            × (spec.capture.provider_package ≡ some "company-pattern-extension")))
          × (build_runtime after spec context calls
              ≡ (err (refusal spec (validate after spec)), calls))
    unfolding build_runtime
    build_runtime_refused context calls = (
      rw (validate_after, validate_company_named)
          (validate_steps (validate_reconciliation_contract spec) spec.capture.provider_package),
      elim (Result-cases (validate after spec)) [
        | inl (d, e) ↦ rw e (build_with_stub context calls)
        | inr (x, e) ↦ rw e refl
      ],
    )
