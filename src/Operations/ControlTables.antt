-- ===== src/Operations/ControlTables.antt =====
-- src/edp_framework/operations/control_tables.py: the statements that create the control tables. The
-- columns of a table are a list (Tables), and `create_table` writes them as the source does.
use enterprise_databrick_fra.Prelude.{
  String, ◌<>◌, not, List, [], ◌∷◌, map, Result, ok, err, value_error_of, ◌>>=◌, if◌then◌else◌,
}
use enterprise_databrick_fra.Prelude.Text.{is_identifier, join}
use enterprise_databrick_fra.Operations.Tables.{
  Column, ControlTable, sql_type_value, control_tables,
}
use enterprise_databrick_fra.Session.{Session, Run, continue}

abbrev pub column_text : Column → String
column_text column =
    column.name
    <> (" " <> (sql_type_value column.type <> (if column.required then " NOT NULL" else "")))

-- The text behind the quoted name of the table.
abbrev pub columns_text : List Column → String
columns_text columns =
    "` (\n          "
    <> (join ",\n          " (map column_text columns) <> "\n        ) USING DELTA")

-- `c` is the quoted catalog.
abbrev pub create_table : (c : String) → ControlTable → String
create_table c table =
    "CREATE TABLE IF NOT EXISTS "
    <> (c <> (".`platform_control`.`" <> (table.name <> columns_text table.columns)))

abbrev pub create_schema : (c : String) → String
create_schema c = "CREATE SCHEMA IF NOT EXISTS " <> (c <> ".`platform_control`")

unfoldable pub ident : String → Result String
ident value =
    if not (is_identifier value)
    then err (value_error_of "unsafe Unity Catalog identifier" value)
    else ok ("`" <> (value <> "`"))

unfoldable pub control_table_ddl : (catalog : String) → Result (List String)
control_table_ddl catalog = do
  c ← ident catalog
  ok (create_schema c ∷ map (create_table c) control_tables)

module _ (spark : Session) where
  -- The loop over the statements.
  unfoldable pub execute : List String → Run spark.State (Unit {0})
  execute [] s = (ok tt, s)
  execute (statement ∷ statements) s =
      let (r, s') = spark.sql statement s in continue r (λ _. execute statements) s'

  unfoldable pub ensure_control_tables : (catalog : String) → Run spark.State (Unit {0})
  ensure_control_tables catalog s = continue (control_table_ddl catalog) execute s
