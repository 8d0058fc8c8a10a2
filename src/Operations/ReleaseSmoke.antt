-- ===== src/Operations/ReleaseSmoke.antt =====
-- src/edp_framework/operations/release_smoke.py
use enterprise_databrick_fra.Prelude.{
  String, ◌<>◌, not, List, [], ◌∷◌, Result, ok, runtime_error, value_error_of, raise_if, ◌>>=◌,
  ◌>>◌, if◌then◌else◌,
}
use enterprise_databrick_fra.Prelude.Text.{is_identifier, join}
use enterprise_databrick_fra.Metadata.Validators.{no_items}
use enterprise_databrick_fra.Session.{Session}

abbrev pub required_tables : List String
required_tables =
    "release_history" ∷ "pipeline_run" ∷ "table_run" ∷ "source_state" ∷ "reconciliation_run"
    ∷ "reconciliation_result" ∷ "quality_result" ∷ "repair_request" ∷ "repair_run"
    ∷ "schema_change_event" ∷ "incident_event" ∷ []

abbrev pub full_name : (catalog table : String) → String
full_name catalog table = catalog <> (".platform_control." <> table)

module _ (spark : Session) (catalog : String) (s : spark.State) where
  -- The tables of a list that the session does not find.
  unfoldable pub missing_tables : List String → Result (List String)
  missing_tables [] = ok []
  missing_tables (table ∷ tables) = do
    found ← spark.table_exists s (full_name catalog table)
    missing ← missing_tables tables
    ok (if not found then table ∷ missing else missing)

  unfoldable pub assert_control_plane_ready : Result (List String)
  assert_control_plane_ready = do
    raise_if (not (is_identifier catalog))
        (value_error_of "unsafe Unity Catalog identifier" catalog)
    missing ← missing_tables required_tables
    raise_if (not (no_items missing))
        (runtime_error ("control plane smoke check failed; missing tables: " <> join ", " missing))
    ok required_tables
