-- ===== src/Commands/Validated.antt =====
-- When `edp validate` reports a number of tables.
use enterprise_databrick_fra.Prelude.{
  length, ℕ, suc, String, true, false, List, [], ◌∷◌, Result, ok, ◌>>◌, for_each, ◌≡◌, ◌↔◌, refl,
  sym, ap, ◌∙◌, arith, Each, Each-map, Returns, >>=-eq-ok, >>-eq-ok, for_each_iff, >>-returned,
}
use enterprise_databrick_fra.Prelude.Text.{decimal}
use enterprise_databrick_fra.Prelude.Sorting.{sort_by}
use enterprise_databrick_fra.Metadata.Models.{TableSpec}
use enterprise_databrick_fra.Metadata.Construct.Valid.{IsValid}
use enterprise_databrick_fra.Metadata.Construct.Same.{model_validate-IsValid}
use enterprise_databrick_fra.Patterns.Contracts.{PatternProvider}
use enterprise_databrick_fra.Patterns.Registry.{Registry, pattern_registry, validate}
use enterprise_databrick_fra.Commands.{
  Files, main, validate_metadata, load_each, mapping, load_table_spec, table_files,
  load_table_specs, validate_path,
}
use enterprise_databrick_fra.Commands.Loaded.{Loads, Distinct, load_table_specs_iff}

passes :
    (registry : Registry) (specs : List TableSpec)
    → Returns (for_each (λ spec. validate registry spec >> ok tt) specs)
      ↔ Each (λ spec. Returns (validate registry spec)) specs
passes registry specs = (
  λ h.
      Each-map (λ spec (u, e). (>>-eq-ok (validate registry spec) (ok tt) e).0) specs
        ((for_each_iff _ specs).0 h),
  λ h. (for_each_iff _ specs).1 (
      Each-map {Q = λ spec. Returns (validate registry spec >> ok tt)}
        (λ spec r. (tt, >>-returned (ok tt) r)) specs h),
)

module _ (files : Files) where
  load_table_spec-IsValid :
      (path : String) (spec : TableSpec) → load_table_spec files path ≡ ok spec → IsValid spec
  unfolding load_table_spec
  load_table_spec-IsValid path spec h =
      let (document, e, h1) = >>=-eq-ok (files.safe_load path) _ h in
      let (payload, e1, h2) = >>=-eq-ok (mapping files path document) _ h1 in
      let (fields, e2, h3) = >>=-eq-ok (files.read_fields payload) _ h2 in
      (model_validate-IsValid fields spec h3).1

  Loads-IsValid :
      (paths : List String) (specs : List TableSpec)
      → Loads files paths specs
      → Each IsValid specs × (length specs ≡ length paths)
  Loads-IsValid [] [] loads = (tt, refl)
  Loads-IsValid [] (spec ∷ specs) loads = absurd loads
  Loads-IsValid (path ∷ paths) [] loads = absurd loads
  Loads-IsValid (path ∷ paths) (spec ∷ specs) loads =
      let (valid, same) = Loads-IsValid paths specs loads.1 in
      ((load_table_spec-IsValid path spec loads.0, valid), ap suc same)

  module _ (entry_points : List (Result PatternProvider)) (path : String) where
    -- Each file of the path holds a table; the tables are valid, have different ids and pass the
    -- contracts of their patterns in the registry that the entry points make.
    abbrev pub IsAccepted : Type 0
    IsAccepted =
        (registry : Registry) × (specs : List TableSpec) × (pattern_registry true entry_points
          ≡ ok registry)
        × Loads files (table_files files path) specs
        × Distinct specs
        × Each IsValid specs
        × Each (λ spec. Returns (validate registry spec)) specs

    -- validate_path returns a number exactly when the entry points make a registry, each file of
    -- the path holds a table, and the tables are valid, have different ids and pass the contracts
    -- of their patterns in that registry; the number is that of the files.
    pub validate_path_iff :
        (n : ℕ)
        → (validate_path files entry_points path ≡ ok n)
          ↔ (IsAccepted × (n ≡ length (table_files files path)))
    unfolding validate_path
    validate_path_iff n = (
      λ h.
          let (registry, e, h1) = >>=-eq-ok (pattern_registry true entry_points) _ h in
          let (specs, e1, h2) = >>=-eq-ok (load_table_specs files path) _ h1 in
          let (loads, distinct) = (load_table_specs_iff files path specs).0 e1 in
          let (valid, counted) = Loads-IsValid (table_files files path) specs loads in
          let (u, h3) = >>-eq-ok (for_each (λ spec. validate registry spec >> ok tt) specs) _ h2 in
          let same : n ≡ length specs = ground arith in
          (
            (registry, specs, e, loads, distinct, valid, (passes registry specs).0 u),
            same ∙ counted,
          ),
      λ ((registry, specs, e, loads, distinct, valid, passed), counted).
          rw (e, (load_table_specs_iff files path specs).1 (loads, distinct))
            (>>-returned _ ((passes registry specs).1 passed)
              ∙ ap ok ((Loads-IsValid (table_files files path) specs loads).1 ∙ sym counted)),
    )

module _ (files : Files) (entry_points : List (Result PatternProvider)) (registry : Registry)
    (path : String) where
  -- If the entry points make a registry, the command validate reports success with zero tables for
  -- a path that is no file and below which there is no YAML file.
  pub main_no_files :
      pattern_registry true entry_points ≡ ok registry
      → files.is_file path ≡ false
      → files.rglob path "*.yml" ≡ []
      → files.rglob path "*.yaml" ≡ []
      → main files entry_points (validate_metadata path)
        ≡ ok ("OK: validated 0 table specification(s)" ∷ [])
  unfolding main validate_path load_table_specs table_files sort_by load_each for_each decimal
  main_no_files loaded dir no_yml no_yaml = rw (loaded, dir, no_yml, no_yaml) refl
