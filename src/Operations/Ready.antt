-- ===== src/Operations/Ready.antt =====
-- The control tables that are created are those that the smoke check looks for. What is assumed of a
-- session is what Spark documents of CREATE ... IF NOT EXISTS and of `tableExists`, and where a
-- theorem says so, that the user may create.
use enterprise_databrick_fra.Prelude.{
  String, ◌<>◌, true, false, List, [], ◌∷◌, map, ok, err, value_error_of, ◌≡◌, ◌⊎◌, inl, inr, refl,
  Bool-cases, Result-cases, Each,
}
use enterprise_databrick_fra.Prelude.Text.{is_identifier, decimal}
use enterprise_databrick_fra.Operations.Tasks.{bootstrap_control, release_smoke}
use enterprise_databrick_fra.Session.{Session}
use enterprise_databrick_fra.Operations.Tables.{ControlTable, control_tables}
use enterprise_databrick_fra.Operations.ControlTables.{
  create_table, create_schema, ident, control_table_ddl, execute, ensure_control_tables,
}
use enterprise_databrick_fra.Operations.ReleaseSmoke.{
  required_tables, full_name, missing_tables, assert_control_plane_ready,
}

abbrev pub quoted : String → String
quoted catalog = "`" <> (catalog <> "`")

abbrev pub IsOneOf : ControlTable → List ControlTable → Type 0
IsOneOf table [] = ⊥
IsOneOf table (t ∷ tables) = (table ≡ t) ⊎ IsOneOf table tables

-- The statements that create something in the catalog.
abbrev pub IsCreation : (catalog statement : String) → Type 0
IsCreation catalog statement =
    (statement ≡ create_schema (quoted catalog))
    ⊎ ((table : ControlTable) × IsOneOf table control_tables
        × (statement ≡ create_table (quoted catalog) table))

-- A session that creates tables: a statement that returns has created its table, and one that
-- creates something drops nothing.
pub record Creates (spark : Session) (catalog : String) : Type 0 where
  pub created :
      (table : ControlTable) (s : spark.State)
      → IsOneOf table control_tables
      → (spark.sql (create_table (quoted catalog) table) s).0 ≡ ok tt
      → spark.table_exists
          (spark.sql (create_table (quoted catalog) table) s).1
          (full_name catalog table.name)
        ≡ ok true
  pub kept :
      (statement name : String) (s : spark.State)
      → IsCreation catalog statement
      → (spark.sql statement s).0 ≡ ok tt
      → spark.table_exists s name ≡ ok true
      → spark.table_exists (spark.sql statement s).1 name ≡ ok true

module _ (spark : Session) (catalog : String) where
  -- A session whose user may create the schema of a catalog and tables in it: where the catalog is
  -- there, the schema is there behind the statement for it, and where the schema is there a control
  -- table is created, and it stays.
  pub record IsPermitted (HasCatalog HasSchema : spark.State → Type 0) : Type 0 where
    pub schema_created :
        (s : spark.State)
        → HasCatalog s
        → ((spark.sql (create_schema (quoted catalog)) s).0 ≡ ok tt)
          × HasSchema (spark.sql (create_schema (quoted catalog)) s).1
    pub table_created :
        (table : ControlTable) (s : spark.State)
        → IsOneOf table control_tables
        → HasSchema s
        → ((spark.sql (create_table (quoted catalog) table) s).0 ≡ ok tt)
          × HasSchema (spark.sql (create_table (quoted catalog) table) s).1

module _ (spark : Session) (catalog : String) (lawful : Creates spark catalog) where
  abbrev Finds : spark.State → String → Type 0
  Finds s name = spark.table_exists s name ≡ ok true

  execute_keeps :
      (statements : List String) (name : String) (s : spark.State)
      → Each (IsCreation catalog) statements
      → (execute spark statements s).0 ≡ ok tt
      → Finds s name
      → Finds (execute spark statements s).1 name
  unfolding execute
  execute_keeps [] name s each h found = found
  execute_keeps (statement ∷ statements) name s each h found =
      elim (Result-cases (spark.sql statement s).0) [
        | inl (u, e) ↦ rw e (
            execute_keeps statements name (spark.sql statement s).1 each.1 (rw e at h)
              (lawful.kept statement name s each.0 e found))
        | inr (x, e) ↦ absurd (cc (rw e at h))
      ]

  creations :
      (tables : List ControlTable)
      → ((table : ControlTable) → IsOneOf table tables → IsOneOf table control_tables)
      → Each (IsCreation catalog) (map (create_table (quoted catalog)) tables)
  creations [] sub = tt
  creations (t ∷ tables) sub =
      (inr (t, sub t (inl refl), refl), creations tables (λ x n. sub x (inr n)))

  -- Every table of a list of creations is found in the end.
  execute-Finds :
      (tables : List ControlTable) (s : spark.State)
      → ((table : ControlTable) → IsOneOf table tables → IsOneOf table control_tables)
      → (execute spark (map (create_table (quoted catalog)) tables) s).0 ≡ ok tt
      → (table : ControlTable) → IsOneOf table tables
      → Finds
          (execute spark (map (create_table (quoted catalog)) tables) s).1
          (full_name catalog table.name)
  unfolding execute
  execute-Finds [] s sub h table m = absurd m
  execute-Finds (t ∷ tables) s sub h table m =
      elim (Result-cases (spark.sql (create_table (quoted catalog) t) s).0) [
        | inl (u, e) ↦ elim m [
          | inl same ↦
              rw (e, same)
                (execute_keeps (map (create_table (quoted catalog)) tables)
                  (full_name catalog t.name) (spark.sql (create_table (quoted catalog) t) s).1
                  (creations tables (λ x n. sub x (inr n))) (rw e at h)
                  (lawful.created t s (sub t (inl refl)) e))
          | inr behind ↦ rw e (
              execute-Finds tables (spark.sql (create_table (quoted catalog) t) s).1
                (λ x n. sub x (inr n)) (rw e at h) table behind)
        ]
        | inr (x, e) ↦ absurd (cc (rw e at h))
      ]

  missing_tables_none :
      (s : spark.State) (names : List String)
      → Each (λ name. Finds s (full_name catalog name)) names
      → missing_tables spark catalog s names ≡ ok []
  unfolding missing_tables
  missing_tables_none s [] each = refl
  missing_tables_none s (name ∷ names) each = rw (each.0, missing_tables_none s names each.1) refl

  -- The tables of a list, by their names.
  Finds-names :
      (tables : List ControlTable) (s : spark.State)
      → ((table : ControlTable) → IsOneOf table tables → Finds s (full_name catalog table.name))
      → Each (λ name. Finds s (full_name catalog name)) (map (λ t. t.name) tables)
  Finds-names [] s found = tt
  Finds-names (t ∷ tables) s found =
      (found t (inl refl), Finds-names tables s (λ x n. found x (inr n)))

  assert_control_plane_ready_found :
      (s : spark.State)
      → is_identifier catalog ≡ true
      → Each (λ name. Finds s (full_name catalog name)) required_tables
      → assert_control_plane_ready spark catalog s ≡ ok required_tables
  unfolding assert_control_plane_ready
  assert_control_plane_ready_found s safe each =
      rw (safe, missing_tables_none s required_tables each) refl

  control_table_ddl_safe :
      is_identifier catalog ≡ true
      → control_table_ddl catalog
        ≡ ok (create_schema (quoted catalog) ∷ map (create_table (quoted catalog)) control_tables)
  unfolding control_table_ddl ident
  control_table_ddl_safe safe = rw safe refl

  control_table_ddl_unsafe :
      is_identifier catalog ≡ false
      → control_table_ddl catalog ≡ err (value_error_of "unsafe Unity Catalog identifier" catalog)
  unfolding control_table_ddl ident
  control_table_ddl_unsafe unsafe = rw unsafe refl

  -- All the tables, behind the statement for the schema.
  execute_ready :
      (s : spark.State)
      → is_identifier catalog ≡ true
      → (execute spark
          (create_schema (quoted catalog) ∷ map (create_table (quoted catalog)) control_tables)
          s).0
        ≡ ok tt
      → assert_control_plane_ready spark catalog
          (execute spark
            (create_schema (quoted catalog) ∷ map (create_table (quoted catalog)) control_tables)
            s).1
        ≡ ok required_tables
  unfolding execute
  execute_ready s safe h = elim (Result-cases (spark.sql (create_schema (quoted catalog)) s).0) [
    | inl (u, e) ↦
        let s' = (spark.sql (create_schema (quoted catalog)) s).1 in
        rw e (
          assert_control_plane_ready_found _ safe
            (Finds-names control_tables _ (execute-Finds control_tables s' (λ x m. m) (rw e at h))))
    | inr (x, e) ↦ absurd (cc (rw e at h))
  ]

  -- On a session that creates tables and keeps the ones it has while it does, if the statements for
  -- the control tables return, then the smoke check finds every table that it requires.
  pub assert_control_plane_ready-ensure_control_tables :
      (s : spark.State)
      → (ensure_control_tables spark catalog s).0 ≡ ok tt
      → assert_control_plane_ready spark catalog (ensure_control_tables spark catalog s).1
        ≡ ok required_tables
  unfolding ensure_control_tables
  assert_control_plane_ready-ensure_control_tables s h = elim (Bool-cases (is_identifier catalog)) [
    | inl safe ↦
        rw (control_table_ddl_safe safe)
          (execute_ready s safe (rw (control_table_ddl_safe safe) at h))
    | inr unsafe ↦ absurd (cc (rw (control_table_ddl_unsafe unsafe) at h))
  ]

  module _ (HasCatalog HasSchema : spark.State → Type 0) where
    execute_returns :
        IsPermitted spark catalog HasCatalog HasSchema
        → (tables : List ControlTable) (s : spark.State)
        → ((table : ControlTable) → IsOneOf table tables → IsOneOf table control_tables)
        → HasSchema s
        → (execute spark (map (create_table (quoted catalog)) tables) s).0 ≡ ok tt
    unfolding execute
    execute_returns permitted [] s sub has = refl
    execute_returns permitted (t ∷ tables) s sub has =
        let (done, kept) = permitted.table_created t s (sub t (inl refl)) has in
        rw done (execute_returns permitted tables _ (λ x m. sub x (inr m)) kept)

    ensure_control_tables_returns :
        IsPermitted spark catalog HasCatalog HasSchema
        → is_identifier catalog ≡ true
        → (s : spark.State) → HasCatalog s
        → (ensure_control_tables spark catalog s).0 ≡ ok tt
    unfolding ensure_control_tables execute
    ensure_control_tables_returns permitted safe s has_catalog =
        let (done, has) = permitted.schema_created s has_catalog in
        rw (control_table_ddl_safe safe, done)
          (execute_returns permitted control_tables _ (λ x m. m) has)

    -- On a session that creates tables and keeps the ones it has while it does, and whose user may
    -- create the schema of the control tables where the catalog is there and the control tables
    -- where that schema is there, the bootstrap task returns for a catalog that is an identifier
    -- and is there, whatever else the state holds, and the smoke task behind it reports that all
    -- eleven control tables are there.
    pub release_smoke-bootstrap_control :
        IsPermitted spark catalog HasCatalog HasSchema
        → is_identifier catalog ≡ true
        → (s : spark.State) → HasCatalog s
        → let (r, s') = bootstrap_control spark catalog s in
          (r ≡ ok tt)
          × (release_smoke spark catalog s'
              ≡ (ok ("[PASS] control plane ready in " <> (catalog <> "; verified 11 tables")), s'))
    unfolding bootstrap_control release_smoke decimal
    release_smoke-bootstrap_control permitted safe s has =
        let done = ensure_control_tables_returns permitted safe s has in
        (done, rw (assert_control_plane_ready-ensure_control_tables s done) refl)
