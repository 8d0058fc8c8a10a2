-- ===== src/Operations/Tasks.antt =====
-- The `main` functions of src/edp_framework/databricks_tasks/, from the parsed arguments on. A task
-- gives the line that it prints, or nothing.
use enterprise_databrick_fra.Prelude.{length, ℕ, String, ◌<>◌, ok}
use enterprise_databrick_fra.Prelude.Text.{decimal}
use enterprise_databrick_fra.Session.{Session, Run, continue}
use enterprise_databrick_fra.Operations.ControlTables.{ensure_control_tables}
use enterprise_databrick_fra.Operations.ReleaseHistory.{Release, append_release_evidence}
use enterprise_databrick_fra.Operations.ReleaseSmoke.{assert_control_plane_ready}

module _ (spark : Session) (catalog : String) where
  -- bootstrap_control.py
  unfoldable pub bootstrap_control : Run spark.State (Unit {0})
  bootstrap_control = ensure_control_tables spark catalog

  -- record_release.py
  unfoldable pub record_release : Release → (fresh_id : String) → (now : ℕ) → Run spark.State String
  record_release args fresh_id now s =
      let (r, s') = append_release_evidence spark catalog args fresh_id now s in
      continue r
        (λ release_id s. (
          ok (
              "[RECORDED] release_id="
              <> (release_id
                  <> (" git_sha=" <> (args.git_sha <> (" target=" <> args.bundle_target))))),
          s,
        ))
        s'

  -- release_smoke.py
  unfoldable pub release_smoke : Run spark.State String
  release_smoke s =
      continue (assert_control_plane_ready spark catalog s)
        (λ tables s. (
          ok (
              "[PASS] control plane ready in "
              <> (catalog <> ("; verified " <> (decimal (length tables) <> " tables")))),
          s,
        ))
        s
