-- ===== src/Operations/ReleaseHistory.antt =====
-- src/edp_framework/operations/release_history.py. The release id is a new one and `now` is the
-- reading of the clock; both are arguments.
pub mod Sha
pub mod Evidence
use Prim.Native.Char.{Char, code}
use enterprise_databrick_fra.Prelude.{
  ℕ, zero, suc, ◌+◌, String, ◌<>◌, Bool, true, false, not, ◌&&◌, ◌||◌, List, [], ◌∷◌, Result, ok,
  err, value_error, value_error_of, raise_if, ◌>>=◌, ◌>>◌, if◌then◌else◌, is_zero, leb,
}
use enterprise_databrick_fra.Prelude.Text.{is_identifier, between}
use enterprise_databrick_fra.Prelude.Dict.{Dict}
use enterprise_databrick_fra.Session.{Session, Run, Row, text, timestamp, entries, continue}

-- The class [0-9a-fA-F].
abbrev pub is_hex : ℕ → Bool
is_hex c = between 48 57 c || between 97 102 c || between 65 70 c

-- A full match of the class, n times.
unfoldable pub is_hex_of : ℕ → String → Bool
is_hex_of zero String.[] = true
is_hex_of zero (String.◌∷◌ c s) = false
is_hex_of (suc n) String.[] = false
is_hex_of (suc n) (String.◌∷◌ c s) = is_hex (code c) && is_hex_of n s

abbrev pub lower_char : Char → Char
lower_char c =
    if between 65 65 (code c)
    then "a"
    else if between 66 66 (code c)
    then "b"
    else if between 67 67 (code c)
    then "c"
    else if between 68 68 (code c)
    then "d"
    else if between 69 69 (code c)
    then "e"
    else if between 70 70 (code c)
    then "f"
    else c

-- `value.lower()` of a text of hexadecimal digits.
unfoldable pub lower : String → String
lower String.[] = String.[]
lower (String.◌∷◌ c s) = String.◌∷◌ (lower_char c) (lower s)

unfoldable pub validate_git_sha : String → Result String
validate_git_sha value = do
  raise_if (not (is_hex_of 40 value))
      (value_error "git_sha must be the full 40-character hexadecimal commit SHA")
  ok (lower value)

pub record ReleaseEvidenceRow : Type 0 where
  pub release_id : String
  pub git_sha : String
  pub environment : String
  pub bundle_target : String
  pub workflow_run_id : String
  pub deployed_at : ℕ
  pub deployed_by : String
  pub status : String
  pub metadata : Dict String

-- The keyword arguments that the two functions share.
pub record Release : Type 0 where
  pub git_sha : String
  pub environment : String
  pub bundle_target : String
  pub workflow_run_id : String
  pub deployed_by : String
  pub repository : String

unfoldable pub release_evidence_row :
    Release → (fresh_id : String) → (now : ℕ) → Result ReleaseEvidenceRow
release_evidence_row release fresh_id now = do
  git_sha ← validate_git_sha release.git_sha
  ok (record {
    release_id = fresh_id;
    git_sha = git_sha;
    environment = release.environment;
    bundle_target = release.bundle_target;
    workflow_run_id = release.workflow_run_id;
    deployed_at = now;
    deployed_by = release.deployed_by;
    status = "SUCCESS";
    metadata = ("repository", release.repository) ∷ ("release_contract", "immutable_git_sha") ∷ [];
  })

-- The dict as a row of a frame.
abbrev pub evidence_cells : ReleaseEvidenceRow → Row
evidence_cells row =
    ("release_id", text row.release_id)
    ∷ ("git_sha", text row.git_sha)
    ∷ ("environment", text row.environment)
    ∷ ("bundle_target", text row.bundle_target)
    ∷ ("workflow_run_id", text row.workflow_run_id)
    ∷ ("deployed_at", timestamp row.deployed_at)
    ∷ ("deployed_by", text row.deployed_by)
    ∷ ("status", text row.status)
    ∷ ("metadata", entries row.metadata)
    ∷ []

unfoldable pub append_release_evidence :
    (spark : Session)
    → (catalog : String) → Release
    → (fresh_id : String) → (now : ℕ) → Run spark.State String
append_release_evidence spark catalog release fresh_id now s =
    if not (is_identifier catalog)
    then (err (value_error_of "unsafe Unity Catalog identifier" catalog), s)
    else continue (release_evidence_row release fresh_id now)
        (λ row s.
          let (r, s') =
            spark.append (catalog <> ".platform_control.release_history") (evidence_cells row ∷ [])
              s in
          continue r (λ _ s. (ok row.release_id, s)) s')
        s
