-- ===== src/Commands.antt =====
-- src/edp_framework/metadata/loader.py, metadata/validation.py and cli.py: the tables of a path, and
-- the commands of `edp`. The files and what YAML and pydantic read in them are the argument `files`.
pub mod Loaded
pub mod Validated
pub mod Listing
use enterprise_databrick_fra.Prelude.{
  length, ℕ, zero, suc, String, ◌<>◌, Bool, true, false, Option, none, some, List, [], ◌∷◌, ◌++◌,
  map, Result, ok, err, value_error, raise_if, ◌>>=◌, ◌>>◌, for_each, contains, string_eq,
  if◌then◌else◌,
}
use enterprise_databrick_fra.Prelude.Text.{decimal}
use enterprise_databrick_fra.Prelude.Text.Order.{le_text}
use enterprise_databrick_fra.Prelude.Sorting.{sort_by}
use enterprise_databrick_fra.Metadata.Models.{TableSpec}
use enterprise_databrick_fra.Metadata.Construct.{model_validate}
use enterprise_databrick_fra.Patterns.Contracts.{PatternDefinition, PatternProvider}
use enterprise_databrick_fra.Patterns.Registry.{Registry, pattern_registry, definitions, validate}

-- `rglob` lists the files below a path in no order; `le_path` compares two paths. `safe_load` opens a
-- file and reads its YAML, and gives a mapping or, for any other document, nothing. `read_fields`
-- reads the values of a mapping into the declared types.
pub record Files : Type 1 where
  pub Mapping : Type 0
  pub is_file : (path : String) → Bool
  pub rglob : (root pattern : String) → List String
  pub le_path : String → String → Bool
  pub safe_load : (path : String) → Result (Option Mapping)
  pub read_fields : Mapping → Result TableSpec

module _ (files : Files) where
  -- `if not isinstance(payload, dict): raise …`
  abbrev pub mapping : (path : String) → Option files.Mapping → Result files.Mapping
  mapping path none = err (value_error (path <> ": expected a YAML mapping"))
  mapping path (some payload) = ok payload

  unfoldable pub load_table_spec : (path : String) → Result TableSpec
  load_table_spec path = do
    document ← files.safe_load path
    payload ← mapping path document
    fields ← files.read_fields payload
    model_validate fields

  unfoldable pub table_files : (root : String) → List String
  table_files root =
      if files.is_file root
      then root ∷ []
      else sort_by files.le_path (files.rglob root "*.yml")
        ++ sort_by files.le_path (files.rglob root "*.yaml")

  -- The loop over the files.
  unfoldable pub load_each :
      List String → (specs : List TableSpec) → (seen : List String) → Result (List TableSpec)
  load_each [] specs seen = ok specs
  load_each (file ∷ rest) specs seen = do
    spec ← load_table_spec file
    raise_if (contains seen spec.dataset_id)
        (value_error ("duplicate dataset_id: " <> spec.dataset_id))
    load_each rest (specs ++ spec ∷ []) (spec.dataset_id ∷ seen)

  unfoldable pub load_table_specs : (root : String) → Result (List TableSpec)
  load_table_specs root = load_each (table_files root) [] []

  -- `entry_points` has what loading and calling each entry point gives.
  module _ (entry_points : List (Result PatternProvider)) where
    unfoldable pub validate_path : (path : String) → Result ℕ
    validate_path path = do
      registry ← pattern_registry true entry_points
      specs ← load_table_specs path
      for_each (λ spec. validate registry spec >> ok tt) specs
      ok (length specs)

-- The parsed arguments.
pub data Command : Type 0 where
  validate_metadata : (path : String) → Command
  patterns : Command

abbrev pub le_id : PatternDefinition → PatternDefinition → Bool
le_id a b = le_text a.id b.id

unfoldable pub listed : Registry → List PatternDefinition
listed registry = sort_by le_id (definitions registry)

abbrev pub pattern_line : PatternDefinition → String
pattern_line definition =
    definition.id
    <> (": " <> (definition.name <> (" [" <> (definition.implementation_hint <> "]"))))

-- `main()`: the lines that it prints.
unfoldable pub main :
    Files → (entry_points : List (Result PatternProvider)) → Command → Result (List String)
main files entry_points (validate_metadata path) = do
  count ← validate_path files entry_points path
  ok (("OK: validated " <> (decimal count <> " table specification(s)")) ∷ [])
main files entry_points patterns = do
  registry ← pattern_registry true entry_points
  ok (map pattern_line (listed registry))
