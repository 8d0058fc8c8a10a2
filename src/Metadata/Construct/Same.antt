-- ===== src/Metadata/Construct/Same.antt =====
-- A construction that returns leaves the table as it is.
use mathlib.Core.Path.{subst}
use enterprise_databrick_fra.Prelude.{ok, ◌≡◌, sym, arith}
use enterprise_databrick_fra.Metadata.Models.{TableSpec}
use enterprise_databrick_fra.Metadata.Validators.{validate_semantics}
use enterprise_databrick_fra.Metadata.Construct.{model_validate}
use enterprise_databrick_fra.Metadata.Construct.Valid.{IsValid, model_validate_iff}

validate_semantics_same : (t u : TableSpec) → validate_semantics t ≡ ok u → t ≡ u
unfolding validate_semantics
validate_semantics_same t u h = ground arith

model_validate_same : (t u : TableSpec) → model_validate t ≡ ok u → t ≡ u
unfolding model_validate
model_validate_same t u h = ground (arith, validate_semantics_same t u)

pub model_validate-IsValid : (t u : TableSpec) → model_validate t ≡ ok u → (t ≡ u) × IsValid u
model_validate-IsValid t u h =
    let same = model_validate_same t u h in
    (same, subst IsValid same ((model_validate_iff t).0 (rw (sym same) at h)))
