-- ===== src/Operations/ReleaseHistory/Evidence.antt =====
-- What the task of record_release.py leaves in the table `release_history`.
use enterprise_databrick_fra.Prelude.{
  ℕ, String, ◌<>◌, true, false, ◌&&◌, [], ◌∷◌, Result, ok, err, Error, value_error, value_error_of,
  if◌then◌else◌, ◌≡◌, inl, inr, refl, sym, ap, arith, Bool-cases, string_eq,
}
use enterprise_databrick_fra.Prelude.Text.{is_identifier}
use enterprise_databrick_fra.Prelude.Dict.{get}
use enterprise_databrick_fra.Session.{Session, continue}
use enterprise_databrick_fra.Operations.Tables.{release_history}
use enterprise_databrick_fra.Operations.Schema.{conforms}
use enterprise_databrick_fra.Operations.ReleaseHistory.{
  Release, ReleaseEvidenceRow, evidence_cells, is_hex_of, validate_git_sha, release_evidence_row,
  append_release_evidence,
}
use enterprise_databrick_fra.Operations.Tasks.{record_release}

-- The evidence of a release under an id, a commit and a time, in the columns of the table.
abbrev pub IsEvidence : Release → String → String → ℕ → ReleaseEvidenceRow → Type 0
IsEvidence release fresh_id sha now row =
    (row.release_id ≡ fresh_id)
    × (row.git_sha ≡ sha)
    × (row.deployed_at ≡ now)
    × (row.environment ≡ release.environment)
    × (row.bundle_target ≡ release.bundle_target)
    × (row.status ≡ "SUCCESS")
    × (conforms release_history.columns (evidence_cells row) ≡ true)

-- The answer of the task to that of the append.
abbrev pub printed : {S : Type 0} → (line : String) → Result (Unit {0}) × S → Result String × S
printed line (ok u, s) = (ok line, s)
printed line (err e, s) = (err e, s)

abbrev pub recorded_line : Release → (fresh_id : String) → String
recorded_line release fresh_id =
    "[RECORDED] release_id="
    <> (fresh_id <> (" git_sha=" <> (release.git_sha <> (" target=" <> release.bundle_target))))

-- What is raised for an unsafe catalog or, with a safe one, for a text that is no full commit.
abbrev pub refusal : (catalog : String) → Error
refusal catalog =
    if is_identifier catalog
    then value_error "git_sha must be the full 40-character hexadecimal commit SHA"
    else value_error_of "unsafe Unity Catalog identifier" catalog

module _ (spark : Session) (catalog : String) (release : Release) (fresh_id : String) (now : ℕ)
    (s : spark.State) where
  release_evidence_row-IsEvidence :
      (sha : String)
      → validate_git_sha release.git_sha ≡ ok sha
      → (row : ReleaseEvidenceRow) × (release_evidence_row release fresh_id now ≡ ok row)
        × IsEvidence release fresh_id sha now row
  unfolding release_evidence_row get string_eq
  release_evidence_row-IsEvidence sha h = (
    record {
      release_id = fresh_id;
      git_sha = sha;
      environment = release.environment;
      bundle_target = release.bundle_target;
      workflow_run_id = release.workflow_run_id;
      deployed_at = now;
      deployed_by = release.deployed_by;
      status = "SUCCESS";
      metadata =
          ("repository", release.repository) ∷ ("release_contract", "immutable_git_sha") ∷ [];
    },
    rw h refl,
    (refl, refl, refl, refl, refl, refl, refl),
  )

  printed-continue :
      (id line : String) (p : Result (Unit {0}) × spark.State)
      → line ≡ recorded_line release id
      → (let (r, s') : Result String × spark.State =
            (let (r, s') = p in continue r (λ _ s. (ok id, s)) s') in
          continue r (λ release_id s. (ok (recorded_line release release_id), s)) s')
        ≡ printed line p
  printed-continue id line (ok u, s) e = rw e refl
  printed-continue id line (err x, s) e = refl

  -- For a catalog that is an identifier and a full commit, the task that records a release appends
  -- one row to the table release_history, with the new id, the validated commit, the time and the
  -- target, which fits the columns of the table, and answers with its line where the append returns
  -- and with its error where it raises.
  pub record_release-IsEvidence :
      (sha : String)
      → is_identifier catalog ≡ true
      → validate_git_sha release.git_sha ≡ ok sha
      → (row : ReleaseEvidenceRow) × IsEvidence release fresh_id sha now row
        × (record_release spark catalog release fresh_id now s
            ≡ printed (recorded_line release fresh_id) (
                spark.append
                  (catalog <> ".platform_control.release_history")
                  (evidence_cells row ∷ [])
                  s))
  unfolding record_release append_release_evidence
  record_release-IsEvidence sha safe h =
      let (row, found, is) = release_evidence_row-IsEvidence sha h in
      (
        row,
        is,
        rw (safe, found)
            (printed-continue row.release_id _ _ (ap (recorded_line release) (sym is.0))),
      )

  -- For a catalog that is no identifier, or a text that is no full commit, the task that records a
  -- release raises, for the catalog first, and leaves the state as it is.
  pub record_release_refused :
      (is_identifier catalog && is_hex_of 40 release.git_sha) ≡ false
      → record_release spark catalog release fresh_id now s ≡ (err (refusal catalog), s)
  unfolding record_release append_release_evidence release_evidence_row validate_git_sha
  record_release_refused h = elim (Bool-cases (is_identifier catalog)) [
    | inl safe ↦
        let bad : is_hex_of 40 release.git_sha ≡ false = ground arith in rw (safe, bad) refl
    | inr unsafe ↦ rw unsafe refl
  ]
