-- ===== src/Patterns/Registry.antt =====
-- src/edp_framework/patterns/registry.py. A method returns its result and the registry that it
-- leaves, also where it raises.
pub mod Invariant
pub mod Registration
pub mod Routing
use Prim.Native.Char.{code}
use enterprise_databrick_fra.Prelude.{
  String, ◌<>◌, Bool, true, false, ◌&&◌, Option, none, some, List, [], ◌∷◌, ◌++◌, Result, ok, err,
  type_error, value_error, value_error_of, ◌>>=◌, ◌>>◌, if◌then◌else◌,
}
use enterprise_databrick_fra.Prelude.Text.{is_digits, between}
use enterprise_databrick_fra.Prelude.Dict.{Dict, get, has, put, values}
use enterprise_databrick_fra.Metadata.Models.{TableSpec}
use enterprise_databrick_fra.Metadata.Validators.{no_items, is_none}
use enterprise_databrick_fra.Patterns.Contracts.{PatternDefinition, PatternProvider, RuntimeContext}
use enterprise_databrick_fra.Patterns.Builtins.{builtin_patterns, validate_builtin_pattern}
use enterprise_databrick_fra.Reconciliation.Contracts.{validate_reconciliation_contract}
use enterprise_databrick_fra.Pipelines.{Exec, continue, raise}
use enterprise_databrick_fra.Runtime.Handlers.{build_builtin_runtime}

pub record Registry : Type 0 where
  pub definitions : Dict PatternDefinition
  pub providers : List PatternProvider
  pub provider_by_pattern : Dict PatternProvider

-- `{p.id: p for p in definitions}`
abbrev pub by_id : Dict PatternDefinition → List PatternDefinition → Dict PatternDefinition
by_id d [] = d
by_id d (p ∷ ps) = by_id (put p.id p d) ps

-- `PatternRegistry(load_plugins=False)`
unfoldable pub builtin_registry : Registry
builtin_registry = record {
  definitions = by_id [] builtin_patterns;
  providers = [];
  provider_by_pattern = [];
}

abbrev pub add_definition : PatternProvider → PatternDefinition → Registry → Registry
add_definition provider definition self = record self {
  definitions = put definition.id definition self.definitions;
  provider_by_pattern = put definition.id provider self.provider_by_pattern;
}

-- The loop over the definitions of a provider, and the append behind it.
unfoldable pub register_definitions :
    PatternProvider → List PatternDefinition → Registry → Result (Unit {0}) × Registry
register_definitions provider [] self =
    (ok tt, record self { providers = self.providers ++ provider ∷ [] })
register_definitions provider (definition ∷ definitions) self =
    let rest =
      register_definitions provider definitions (add_definition provider definition self) in
    if has definition.id self.definitions
    then (err (value_error ("pattern already registered: " <> definition.id)), self)
    else rest

unfoldable pub register_provider : PatternProvider → Registry → Result (Unit {0}) × Registry
register_provider provider self =
    if no_items provider.definitions
    then (err (value_error "pattern provider must register at least one definition"), self)
    else if is_none provider.build_runtime
    then (err (type_error "pattern provider must implement build_runtime(spec, context)"), self)
    else register_definitions provider provider.definitions self

-- `_load_entry_points`: `loaded` has, for each entry point, what loading and calling it gives.
unfoldable pub load_entry_points : List (Result PatternProvider) → Registry → Result Registry
load_entry_points [] self = ok self
load_entry_points (loaded ∷ entry_points) self = do
  provider ← loaded
  let (result, self') = register_provider provider self
  result
  load_entry_points entry_points self'

-- `PatternRegistry(load_plugins)`
unfoldable pub pattern_registry : Bool → List (Result PatternProvider) → Result Registry
pattern_registry load_plugins entry_points =
    if load_plugins then load_entry_points entry_points builtin_registry else ok builtin_registry

unfoldable pub definitions : Registry → List PatternDefinition
definitions self = values self.definitions

unfoldable pub get_pattern : Registry → String → Result PatternDefinition
get_pattern self pattern_id = elim (get pattern_id self.definitions) [
  | none ↦ err (value_error_of "unknown pattern_id" pattern_id)
  | some definition ↦ ok definition
]

-- `pattern_id.startswith("P") and pattern_id[1:].isdigit()`
unfoldable pub is_numbered : String → Bool
is_numbered String.[] = false
is_numbered (String.◌∷◌ c s) = between 80 80 (code c) && is_digits s

abbrev pub validate_provider : Option PatternProvider → TableSpec → Result (Unit {0})
validate_provider none spec = ok tt
validate_provider (some provider) spec = provider.validate spec

unfoldable pub validate : Registry → TableSpec → Result PatternDefinition
validate self spec = do
  definition ← get_pattern self spec.pattern_id
  if is_numbered spec.pattern_id then validate_builtin_pattern spec definition else ok tt
  validate_reconciliation_contract spec
  validate_provider (get spec.pattern_id self.provider_by_pattern) spec
  ok definition

-- `provider.build_runtime(spec, context)`; a value that is not callable raises.
abbrev pub call_build_runtime : PatternProvider → TableSpec → RuntimeContext → Exec (Unit {0})
call_build_runtime provider spec context = elim provider.build_runtime [
  | none ↦ raise (type_error "build_runtime is not callable")
  | some build ↦ build spec context
]

abbrev pub build_with : Option PatternProvider → TableSpec → RuntimeContext → Exec (Unit {0})
build_with none spec context = build_builtin_runtime spec context
build_with (some provider) spec context = call_build_runtime provider spec context

unfoldable pub build_runtime : Registry → TableSpec → RuntimeContext → Exec (Unit {0})
build_runtime self spec context =
    continue (validate self spec)
      (λ _. build_with (get spec.pattern_id self.provider_by_pattern) spec context)

abbrev pub build_extension : Option PatternProvider → TableSpec → RuntimeContext → Exec (Unit {0})
build_extension none spec context = raise (
    value_error
      (spec.pattern_id <> " is a built-in pattern; use build_runtime(), not an extension runtime"))
build_extension (some provider) spec context = call_build_runtime provider spec context

unfoldable pub build_extension_runtime : Registry → TableSpec → RuntimeContext → Exec (Unit {0})
build_extension_runtime self spec context =
    continue (validate self spec)
      (λ _. build_extension (get spec.pattern_id self.provider_by_pattern) spec context)
