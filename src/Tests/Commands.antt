-- ===== src/Tests/Commands.antt =====
-- The commands and the extension template, at two files.
use enterprise_databrick_fra.Prelude.{
  length, String, true, false, Option, none, some, [], ◌∷◌, map, ok, err, value_error, ◌==◌,
  string_eq, if◌then◌else◌, ◌≡◌, ◌↔◌, refl, Each, Returns,
}
use mathlib.Core.List.{Perm, Mem}
use enterprise_databrick_fra.Prelude.Text.Order.{le_text}
use enterprise_databrick_fra.Prelude.Sorting.{IsSorted}
use enterprise_databrick_fra.Metadata.Models.{TableSpec}
use enterprise_databrick_fra.Patterns.Builtins.{builtin_patterns}
use enterprise_databrick_fra.Patterns.Registry.{
  register_provider, pattern_registry, definitions, validate, build_runtime,
}
use enterprise_databrick_fra.Reconciliation.Contracts.{validate_reconciliation_contract}
use enterprise_databrick_fra.Commands.{
  Files, validate_metadata, patterns, le_id, listed, pattern_line, table_files, load_table_specs,
  validate_path, main,
}
use enterprise_databrick_fra.Commands.Loaded.{Loads, Distinct, load_table_specs_iff}
use enterprise_databrick_fra.Commands.Validated.{IsAccepted, validate_path_iff, main_no_files}
use enterprise_databrick_fra.Commands.Listing.{main_patterns}
use enterprise_databrick_fra.Extension.{company_provider}
use enterprise_databrick_fra.Extension.Refusal.{refusal, build_runtime_refused}
use enterprise_databrick_fra.Tests.Run.{run_all}
use enterprise_databrick_fra.Tests.Samples.{orders, customers, production, company, extended}

-- Two files that hold tables, and one that holds a list.
abbrev document : String → Option TableSpec
document path =
    if path == "tables/orders.yml"
    then some orders
    else if path == "tables/customers.yaml"
    then some customers
    else none

abbrev two_files : Files
two_files = record {
  Mapping = TableSpec;
  is_file = λ path. path == "tables/list.yml";
  rglob = λ root pattern.
      if pattern == "*.yml" then "tables/orders.yml" ∷ [] else "tables/customers.yaml" ∷ [];
  le_path = le_text;
  safe_load = λ path. ok (document path);
  read_fields = λ spec. ok spec;
}

both_loaded : load_table_specs two_files "tables" ≡ ok (orders ∷ customers ∷ [])
unfolding run_all
both_loaded = refl

list_refused :
    load_table_specs two_files "tables/list.yml"
    ≡ err (value_error "tables/list.yml: expected a YAML mapping")
unfolding run_all
list_refused = refl

two_validated :
    main two_files (ok company ∷ []) (validate_metadata "tables")
    ≡ ok ("OK: validated 2 table specification(s)" ∷ [])
unfolding run_all
two_validated = refl

load_table_specs_iff_example :
    (load_table_specs two_files "tables" ≡ ok (orders ∷ customers ∷ [])) ↔ (
      Loads two_files (table_files two_files "tables") (orders ∷ customers ∷ [])
      × Distinct (orders ∷ customers ∷ []))
load_table_specs_iff_example = load_table_specs_iff two_files "tables" (orders ∷ customers ∷ [])

validate_path_iff_example :
    (validate_path two_files [] "tables" ≡ ok 2)
    ↔ (IsAccepted two_files [] "tables" × (2 ≡ length (table_files two_files "tables")))
validate_path_iff_example = validate_path_iff two_files [] "tables" 2

company_loaded : pattern_registry true (ok company ∷ []) ≡ ok extended
unfolding run_all
company_loaded = refl

main_patterns_example :
    (main two_files (ok company ∷ []) patterns ≡ ok (map pattern_line (listed extended)))
    × Perm (listed extended) (definitions extended)
    × IsSorted le_id (listed extended)
    × Each (λ p. Mem p (listed extended)) builtin_patterns
main_patterns_example = main_patterns two_files (ok company ∷ []) extended company_loaded

template_registered : (register_provider company_provider extended).0 ≡ ok tt
unfolding run_all
template_registered = refl

abbrev template_table : TableSpec
template_table = record orders {
  pattern_id = "X_COMPANY_001";
  capture = record orders.capture { provider_package = some "company-pattern-extension" };
}

build_runtime_refused_example :
    (Returns (validate (register_provider company_provider extended).1 template_table) ↔ (
      (validate_reconciliation_contract template_table ≡ ok tt)
      × (template_table.capture.provider_package ≡ some "company-pattern-extension")))
    × (build_runtime (register_provider company_provider extended).1 template_table production []
        ≡ (
          err (
              refusal template_table
                (validate (register_provider company_provider extended).1 template_table)),
          [],
        ))
build_runtime_refused_example =
    build_runtime_refused extended template_registered template_table refl production []

-- A path that names nothing.
abbrev no_files : Files
no_files = record two_files { rglob = λ root pattern. [] }

tabels_no_file : no_files.is_file "tabels" ≡ false
unfolding run_all
tabels_no_file = refl

main_no_files_example :
    main no_files (ok company ∷ []) (validate_metadata "tabels")
    ≡ ok ("OK: validated 0 table specification(s)" ∷ [])
main_no_files_example =
    main_no_files no_files (ok company ∷ []) extended "tabels" company_loaded tabels_no_file refl
      refl
