-- ===== src/Tests/Sessions.antt =====
-- Two sessions: one that keeps the statements that it ran, and one that infers the types of a frame.
use enterprise_databrick_fra.Prelude.{
  runtime_error, Result, String, Bool, true, false, ◌&&◌, ◌||◌, Option, some, List, [], ◌∷◌, ok,
  err, value_error, ◌≡◌, ◌≢◌, inl, inr, refl, ap, arith, ◌==◌, contains, string_eq, if◌then◌else◌,
  Each,
}
use enterprise_databrick_fra.Prelude.Dict.{get, keys, get-nil, get-cons}
use enterprise_databrick_fra.Session.{Session, Cell, Row, null}
use enterprise_databrick_fra.Operations.Tables.{ControlTable, control_tables}
use enterprise_databrick_fra.Operations.ControlTables.{create_schema, create_table}
use enterprise_databrick_fra.Operations.ReleaseSmoke.{full_name}
use enterprise_databrick_fra.Operations.Ready.{Creates, IsPermitted, IsOneOf}
use enterprise_databrick_fra.Reconciliation.Audit.Unmeasured.{InfersTypes}

module _ (name_of statement_of : ControlTable → String) where
  -- Some table of the list has the name, and the statement that creates it was run.
  abbrev made : List ControlTable → List String → (name : String) → Bool
  made [] s name = false
  made (t ∷ tables) s name =
      ((name_of t == name) && contains s (statement_of t)) || made tables s name

  made_self :
      (tables : List ControlTable) (table : ControlTable) (s : List String)
      → IsOneOf table tables
      → made tables (statement_of table ∷ s) (name_of table) ≡ true
  made_self [] table s m = absurd m
  made_self (t ∷ tables) table s (inl same) = rw same (ground arith)
  made_self (t ∷ tables) table s (inr behind) = ground (arith, made_self tables table s behind)

  made_kept :
      (tables : List ControlTable) (statement name : String) (s : List String)
      → made tables s name ≡ true
      → made tables (statement ∷ s) name ≡ true
  made_kept [] statement name s h = h
  made_kept (t ∷ tables) statement name s h = ground (arith, made_kept tables statement name s)

found_made : (b : Bool) → ok b ≡ ok true → b ≡ true
found_made true h = refl
found_made false h = cc

abbrev pub create_catalog : String
create_catalog = "CREATE CATALOG `main`"

-- A statement runs if the schema is there, or if it creates the catalog, or the schema in it.
abbrev run : List String → (statement schema : String) → Result (Unit {0}) × List String
run s statement schema =
    if contains s schema
      || ((statement == create_catalog) || ((statement == schema) && contains s create_catalog))
    then (ok tt, statement ∷ s)
    else (err (runtime_error "SCHEMA_NOT_FOUND"), s)

abbrev pub lakehouse : Session
lakehouse = record {
  State = List String;
  sql = λ statement s. run s statement (create_schema "`main`");
  append = λ table rows s. (ok tt, table ∷ s);
  table_exists = λ s name.
      ok (made (λ t. full_name "main" t.name) (create_table "`main`") control_tables s name);
}

-- A statement that returned stands in the state.
run_done :
    (s : List String) (statement schema : String)
    → (run s statement schema).0 ≡ ok tt
    → (run s statement schema).1 ≡ statement ∷ s
run_done s statement schema h = ground arith

pub lakehouse-Creates : Creates lakehouse "main"
lakehouse-Creates = record {
  created = λ table s m h.
      rw (run_done s (create_table "`main`" table) (create_schema "`main`") h) (
        ap ok (
          made_self (λ t. full_name "main" t.name) (create_table "`main`") control_tables table s
            m));
  kept = λ statement name s is h found. rw (run_done s statement (create_schema "`main`") h) (
      ap ok (
        made_kept (λ t. full_name "main" t.name) (create_table "`main`") control_tables statement
          name s
          (found_made
            (made (λ t. full_name "main" t.name) (create_table "`main`") control_tables s name)
            found)));
}

-- The catalog was created before, and the schema.
abbrev pub HasCatalog : List String → Type 0
HasCatalog s = contains s create_catalog ≡ true

abbrev pub HasSchema : List String → Type 0
HasSchema s = contains s (create_schema "`main`") ≡ true

pub lakehouse-IsPermitted : IsPermitted lakehouse "main" HasCatalog HasSchema
lakehouse-IsPermitted = record {
  schema_created = λ s has. ground arith;
  table_created = λ table s is has. ground arith;
}

-- A column that is null in every row.
abbrev is_null : Option Cell → Bool
is_null (some null) = true
is_null _ = false

abbrev all_null : String → List Row → Bool
all_null k [] = true
all_null k (row ∷ rows) = is_null (get k row) && all_null k rows

abbrev any_null : List String → List Row → Bool
any_null [] rows = false
any_null (k ∷ ks) rows = all_null k rows || any_null ks rows

abbrev untyped : List Row → Bool
untyped [] = false
untyped (row ∷ rows) = any_null (keys row) (row ∷ rows)

abbrev pub inferring : Session
inferring = record {
  State = List String;
  sql = λ statement s. (ok tt, statement ∷ s);
  append = λ table rows s.
      if untyped rows then (err (value_error "CANNOT_DETERMINE_TYPE"), s) else (ok tt, table ∷ s);
  table_exists = λ s name. ok true;
}

any_null_found :
    (column : String) (row : Row) (rows : List Row)
    → get column row ≡ some null
    → all_null column rows ≡ true
    → any_null (keys row) rows ≡ true
any_null_found column [] rows h all = absurd (cc (get-nil {V = Cell} column))
any_null_found column ((k, v) ∷ row) rows h all = elim (string_eq.dec column k) [
  | yes same ↦ rw⁻¹ same (ground arith)
  | no other ↦ ground (arith, get-cons column k v row, any_null_found column row rows)
]

all_null_found :
    (column : String) (rows : List Row)
    → Each (λ row. get column row ≡ some null) rows
    → all_null column rows ≡ true
all_null_found column [] each = refl
all_null_found column (row ∷ rows) each = rw (each.0, all_null_found column rows each.1) refl

untyped_found :
    (column : String) (rows : List Row)
    → rows ≢ []
    → Each (λ row. get column row ≡ some null) rows
    → untyped rows ≡ true
untyped_found column [] given each = absurd (given refl)
untyped_found column (row ∷ rows) given each =
    any_null_found column row (row ∷ rows) each.0 (all_null_found column (row ∷ rows) each)

pub inferring-InfersTypes : InfersTypes inferring
inferring-InfersTypes table column rows s given each =
    (value_error "CANNOT_DETERMINE_TYPE", rw (untyped_found column rows given each) refl)
