-- ===== src/Metadata/Construct/Valid.antt =====
-- The whole record: which tables `model_validate` accepts, and what an accepted table promises
-- about recovery.
use enterprise_databrick_fra.Prelude.{
  true, Option, none, some, [], ok, ◌≡◌, ◌≢◌, ◌↔◌, ◌∙◌, refl, >>-eq-ok, >>-returned, raise_if-eq-ok,
  WhenGiven, Each,
}
use enterprise_databrick_fra.Prelude.Int.{ℤ, pos, ◌≤ℤ◌, scale}
use enterprise_databrick_fra.Prelude.Double.{le_double, zero_double}
use enterprise_databrick_fra.Metadata.Enums.{
  CaptureMechanism, DeleteStrategy, RecoveryMode, DeliveryGuarantee, recovery_mode_eq,
}
use enterprise_databrick_fra.Metadata.Models.{TableSpec}
use enterprise_databrick_fra.Metadata.Coherent.{IsCoherent, Covers, validate_semantics_iff}
use enterprise_databrick_fra.Metadata.Construct.{model_validate}
use enterprise_databrick_fra.Metadata.Construct.Laws.{
  Given, NeedsHandoff, IsRetention, IsQuality, IsSla, below_one_iff, validate_handoff_iff,
  validate_at_least_once_iff, validate_custom_provider_iff, validate_soft_delete_iff,
  construct_retention_iff, construct_cursor_iff, construct_ordering_iff, construct_bronze_iff,
  construct_quality_iff, construct_reconciliation_iff, construct_sla_iff,
}

-- A table whose parts keep their own contracts, and whose parts fit together.
pub record IsValid (t : TableSpec) : Type 0 where
  pub version_positive : pos 1 ≤ℤ t.version
  pub provider_given :
      t.capture.mechanism ≡ CaptureMechanism.custom_package → Given t.capture.provider_package
  pub handoff_given : NeedsHandoff t.bootstrap.mode → Given t.bootstrap.handoff_position
  pub idempotent :
      t.delivery.guarantee ≡ DeliveryGuarantee.at_least_once
      → t.delivery.idempotency_key_columns ≢ []
  pub retention : IsRetention t.retention
  pub cursor_columns : WhenGiven (λ c. c.columns ≢ []) t.cursor
  pub ordering_columns : WhenGiven (λ o. o.columns ≢ []) t.ordering
  pub bronze_retained : pos 1 ≤ℤ t.bronze.retention_days
  pub indicator_given :
      t.deletes.strategy ≡ DeleteStrategy.source_soft_delete → Given t.deletes.indicator_column
  pub quality : IsQuality t.quality
  pub tolerances : Each (λ r. le_double zero_double r.tolerance ≡ true) t.reconciliation.rules
  pub sla : IsSla t.sla
  pub coherent : IsCoherent t

module _ (t : TableSpec) where
  model_validate_sound : model_validate t ≡ ok t → IsValid t
  unfolding model_validate
  model_validate_sound h =
      let (version, h1) = raise_if-eq-ok _ _ _ h in
      let (provider, h2) = >>-eq-ok _ _ h1 in
      let (handoff, h3) = >>-eq-ok _ _ h2 in
      let (delivery, h4) = >>-eq-ok _ _ h3 in
      let (retention, h5) = >>-eq-ok _ _ h4 in
      let (cursor, h6) = >>-eq-ok _ _ h5 in
      let (ordering, h7) = >>-eq-ok _ _ h6 in
      let (bronze, h8) = >>-eq-ok _ _ h7 in
      let (deletes, h9) = >>-eq-ok _ _ h8 in
      let (quality, h10) = >>-eq-ok _ _ h9 in
      let (reconciliation, h11) = >>-eq-ok _ _ h10 in
      let (sla, semantics) = >>-eq-ok _ _ h11 in
      record {
        version_positive = (below_one_iff _).0 version;
        provider_given = (validate_custom_provider_iff _).0 provider;
        handoff_given = (validate_handoff_iff _).0 handoff;
        idempotent = (validate_at_least_once_iff _).0 delivery;
        retention = (construct_retention_iff _).0 retention;
        cursor_columns = (construct_cursor_iff _).0 cursor;
        ordering_columns = (construct_ordering_iff _).0 ordering;
        bronze_retained = (construct_bronze_iff _).0 bronze;
        indicator_given = (validate_soft_delete_iff _).0 deletes;
        quality = (construct_quality_iff _).0 quality;
        tolerances = (construct_reconciliation_iff _).0 reconciliation;
        sla = (construct_sla_iff _).0 sla;
        coherent = (validate_semantics_iff t).0 semantics;
      }

  model_validate_complete : IsValid t → model_validate t ≡ ok t
  unfolding model_validate
  model_validate_complete v = rw ((below_one_iff _).1 v.version_positive) (
      >>-returned _ ((validate_custom_provider_iff _).1 v.provider_given)
      ∙ >>-returned _ ((validate_handoff_iff _).1 v.handoff_given)
      ∙ >>-returned _ ((validate_at_least_once_iff _).1 v.idempotent)
      ∙ >>-returned _ ((construct_retention_iff _).1 v.retention)
      ∙ >>-returned _ ((construct_cursor_iff _).1 v.cursor_columns)
      ∙ >>-returned _ ((construct_ordering_iff _).1 v.ordering_columns)
      ∙ >>-returned _ ((construct_bronze_iff _).1 v.bronze_retained)
      ∙ >>-returned _ ((validate_soft_delete_iff _).1 v.indicator_given)
      ∙ >>-returned _ ((construct_quality_iff _).1 v.quality)
      ∙ >>-returned _ ((construct_reconciliation_iff _).1 v.tolerances)
      ∙ >>-returned _ ((construct_sla_iff _).1 v.sla)
      ∙ (validate_semantics_iff t).1 v.coherent)

  -- Construction accepts a table exactly when its parts keep their contracts and fit together, and
  -- returns it unchanged.
  pub model_validate_iff : (model_validate t ≡ ok t) ↔ IsValid t
  model_validate_iff = (model_validate_sound, model_validate_complete)

Covers-given : (o : Option ℤ) (n : ℤ) → o ≢ none → WhenGiven (λ w. n ≤ℤ w) o → Covers o n
Covers-given none n given h = absurd (given refl)
Covers-given (some w) n given h = h

-- The window over which the primary recovery mode can replay.
abbrev pub ReplayCovers : TableSpec → RecoveryMode → Type 0
ReplayCovers t RecoveryMode.replay_bronze =
    t.retention.required_recovery_window_hours ≤ℤ scale t.bronze.retention_days 24
ReplayCovers t RecoveryMode.replay_source =
    Covers t.retention.source_replay_window_hours t.retention.required_recovery_window_hours
ReplayCovers t _ = Unit

replay-IsValid :
    (t : TableSpec) (m : RecoveryMode) → IsValid t → t.recovery.primary ≡ m → ReplayCovers t m
replay-IsValid t RecoveryMode.replay_bronze v e = v.coherent.bronze_covers e
replay-IsValid t RecoveryMode.replay_source v e =
    Covers-given _ _ (v.coherent.source_bounded (rw e at v.coherent.primary_allowed))
      v.retention.source_covers
replay-IsValid t _ v e = tt

-- In a table that construction accepts, the replay that recovery primarily relies on, of Bronze or
-- of the source, reaches back over the whole required recovery window.
pub model_validate-ReplayCovers :
    (t : TableSpec) → model_validate t ≡ ok t → ReplayCovers t t.recovery.primary
model_validate-ReplayCovers t h =
    replay-IsValid t t.recovery.primary ((model_validate_iff t).0 h) refl
