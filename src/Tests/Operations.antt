-- ===== src/Tests/Operations.antt =====
-- The control tables and the release evidence, at a session that keeps its statements.
use enterprise_databrick_fra.Prelude.{String, ◌<>◌, true, false, ◌&&◌, [], ◌∷◌, ok, err, ◌≡◌, refl}
use enterprise_databrick_fra.Prelude.Text.{is_identifier}
use enterprise_databrick_fra.Operations.Tables.{release_history}
use enterprise_databrick_fra.Operations.ControlTables.{create_table, ensure_control_tables}
use enterprise_databrick_fra.Operations.ReleaseHistory.{
  Release, ReleaseEvidenceRow, evidence_cells, is_hex_of, validate_git_sha,
}
use enterprise_databrick_fra.Operations.ReleaseHistory.Sha.{IsLowerHex, validate_git_sha-IsLowerHex}
use enterprise_databrick_fra.Operations.ReleaseHistory.Evidence.{
  IsEvidence, printed, recorded_line, refusal, record_release-IsEvidence, record_release_refused,
}
use enterprise_databrick_fra.Operations.ReleaseSmoke.{required_tables, assert_control_plane_ready}
use enterprise_databrick_fra.Operations.Tasks.{bootstrap_control, record_release, release_smoke}
use enterprise_databrick_fra.Operations.Ready.{
  assert_control_plane_ready-ensure_control_tables, release_smoke-bootstrap_control,
}
use enterprise_databrick_fra.Tests.Run.{run_all}
use enterprise_databrick_fra.Tests.Sessions.{
  lakehouse, lakehouse-Creates, HasCatalog, HasSchema, lakehouse-IsPermitted, create_catalog,
}

-- The statement of the source, as text.
release_history_ddl :
    create_table "`main`" release_history
    ≡ "CREATE TABLE IF NOT EXISTS `main`.`platform_control`.`release_history` (\n"
      <> ("          release_id STRING NOT NULL,\n"
          <> ("          git_sha STRING NOT NULL,\n"
              <> ("          environment STRING NOT NULL,\n"
                  <> ("          bundle_target STRING NOT NULL,\n"
                      <> ("          workflow_run_id STRING,\n"
                          <> ("          deployed_at TIMESTAMP NOT NULL,\n"
                              <> ("          deployed_by STRING NOT NULL,\n"
                                  <> ("          status STRING NOT NULL,\n"
                                      <> ("          metadata MAP<STRING, STRING>\n"
                                          <> ("        ) USING DELTA"))))))))))
unfolding run_all
release_history_ddl = refl

main_safe : is_identifier "main" ≡ true
unfolding run_all
main_safe = refl

bootstrapped : (ensure_control_tables lakehouse "main" (create_catalog ∷ [])).0 ≡ ok tt
unfolding run_all
bootstrapped = refl

assert_control_plane_ready-ensure_control_tables_example :
    assert_control_plane_ready lakehouse "main"
      (ensure_control_tables lakehouse "main" (create_catalog ∷ [])).1
    ≡ ok required_tables
assert_control_plane_ready-ensure_control_tables_example =
    assert_control_plane_ready-ensure_control_tables lakehouse "main" lakehouse-Creates
      (create_catalog ∷ []) bootstrapped

catalog_there : HasCatalog (create_catalog ∷ [])
unfolding run_all
catalog_there = refl

release_smoke-bootstrap_control_example :
    (let (r, s') = bootstrap_control lakehouse "main" (create_catalog ∷ []) in
      (r ≡ ok tt)
      × (release_smoke lakehouse "main" s'
          ≡ (ok ("[PASS] control plane ready in " <> ("main" <> "; verified 11 tables")), s')))
release_smoke-bootstrap_control_example =
    release_smoke-bootstrap_control lakehouse "main" lakehouse-Creates HasCatalog HasSchema
      lakehouse-IsPermitted main_safe (create_catalog ∷ []) catalog_there

abbrev upper_sha : String
upper_sha = "0123456789ABCDEF0123456789abcdef01234567"

abbrev lower_sha : String
lower_sha = "0123456789abcdef0123456789abcdef01234567"

sha_lowered : validate_git_sha upper_sha ≡ ok lower_sha
unfolding run_all
sha_lowered = refl

validate_git_sha-IsLowerHex_example :
    IsLowerHex 40 lower_sha × (validate_git_sha lower_sha ≡ ok lower_sha)
validate_git_sha-IsLowerHex_example = validate_git_sha-IsLowerHex upper_sha lower_sha sha_lowered

abbrev release : Release
release = record {
  git_sha = upper_sha;
  environment = "prod";
  bundle_target = "prod";
  workflow_run_id = "7";
  deployed_by = "ci";
  repository = "edp";
}

record_release-IsEvidence_example :
    (row : ReleaseEvidenceRow) × IsEvidence release "id" lower_sha 5 row
    × (record_release lakehouse "main" release "id" 5 []
        ≡ printed (recorded_line release "id") (
            lakehouse.append
              ("main" <> ".platform_control.release_history")
              (evidence_cells row ∷ [])
              []))
record_release-IsEvidence_example =
    record_release-IsEvidence lakehouse "main" release "id" 5 [] lower_sha main_safe sha_lowered

short_refused : (is_identifier "main" && is_hex_of 40 "abc") ≡ false
unfolding run_all
short_refused = refl

record_release_refused_example :
    record_release lakehouse "main" (record release { git_sha = "abc" }) "id" 5 []
    ≡ (err (refusal "main"), [])
record_release_refused_example =
    record_release_refused lakehouse "main" (record release { git_sha = "abc" }) "id" 5 []
      short_refused
