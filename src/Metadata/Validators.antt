-- ===== src/Metadata/Validators.antt =====
-- The `@model_validator(mode="after")` methods of src/edp_framework/metadata/models.py.
-- A method raises or returns the record that it was given.
use enterprise_databrick_fra.Prelude.{
  String, ◌<>◌, Bool, true, false, not, ◌&&◌, ◌||◌, Option, none, some, List, [], ◌∷◌, Result, ok,
  value_error, raise_if, ◌>>◌, ◌==◌, contains,
}
use enterprise_databrick_fra.Prelude.Int.{ℤ, ltb_ℤ, scale}
use enterprise_databrick_fra.Prelude.Text.{is_empty}
use enterprise_databrick_fra.Metadata.Enums.{
  CaptureMechanism, ChangeGranularity, BronzeContract, SilverContract, DeleteStrategy, DqAction,
  RecoveryMode, BootstrapMode, DeliveryGuarantee, capture_mechanism_eq, change_granularity_eq,
  bronze_contract_eq, silver_contract_eq, delete_strategy_eq, dq_action_eq, recovery_mode_eq,
  bootstrap_mode_eq, delivery_guarantee_eq, bootstrap_mode_value, silver_contract_value,
}
use enterprise_databrick_fra.Metadata.Models.{
  BootstrapSpec, DeliverySpec, RetentionSpec, CaptureSpec, OrderingSpec, DeleteSpec, QualityRule,
  QualitySpec, TableSpec,
}

-- `not value` for a `str | None` field.
abbrev pub unset : Option String → Bool
unset none = true
unset (some s) = is_empty s

-- `not xs`
abbrev pub no_items {ℓ} : {A : Type ℓ} → List A → Bool
no_items [] = true
no_items (x ∷ xs) = false

-- `value is None`
abbrev pub is_none {ℓ} : {A : Type ℓ} → Option A → Bool
is_none none = true
is_none (some _) = false

abbrev pub explicit_handoff : List BootstrapMode
explicit_handoff =
    BootstrapMode.full_then_incremental ∷ BootstrapMode.snapshot_at_source_position
    ∷ BootstrapMode.event_stream_from_position ∷ []

unfoldable pub validate_handoff : BootstrapSpec → Result BootstrapSpec
validate_handoff self = do
  raise_if (contains explicit_handoff self.mode && unset self.handoff_position)
      (value_error (bootstrap_mode_value self.mode <> " requires handoff_position"))
  ok self

unfoldable pub validate_at_least_once : DeliverySpec → Result DeliverySpec
validate_at_least_once self = do
  raise_if
      (self.guarantee == DeliveryGuarantee.at_least_once && no_items self.idempotency_key_columns)
      (value_error "at_least_once delivery requires idempotency_key_columns")
  ok self

abbrev pub window_too_short : Option ℤ → ℤ → Bool
window_too_short none required = false
window_too_short (some window) required = ltb_ℤ window required

unfoldable pub validate_source_window : RetentionSpec → Result RetentionSpec
validate_source_window self = do
  raise_if (window_too_short self.source_replay_window_hours self.required_recovery_window_hours) (
      value_error (
        "source_replay_window_hours must cover required_recovery_window_hours "
        <> "or source replay cannot be claimed as a recovery guarantee"))
  ok self

unfoldable pub validate_custom_provider : CaptureSpec → Result CaptureSpec
validate_custom_provider self = do
  raise_if (self.mechanism == CaptureMechanism.custom_package && unset self.provider_package)
      (value_error "custom_package capture requires provider_package")
  ok self

unfoldable pub validate_soft_delete : DeleteSpec → Result DeleteSpec
validate_soft_delete self = do
  raise_if (self.strategy == DeleteStrategy.source_soft_delete && unset self.indicator_column)
      (value_error "source_soft_delete requires indicator_column")
  ok self

abbrev pub any_quarantine : List QualityRule → Bool
any_quarantine [] = false
any_quarantine (r ∷ rules) = r.action == DqAction.quarantine || any_quarantine rules

unfoldable pub validate_quarantine : QualitySpec → Result QualitySpec
validate_quarantine self = do
  raise_if (any_quarantine self.rules && unset self.quarantine_table)
      (value_error "quarantine rules require quarantine_table")
  ok self

abbrev pub merge_like : List SilverContract
merge_like =
    SilverContract.current ∷ SilverContract.current_soft_delete ∷ SilverContract.scd1
    ∷ SilverContract.scd2 ∷ []

abbrev pub complete_snapshots : List CaptureMechanism
complete_snapshots = CaptureMechanism.full_snapshot ∷ CaptureMechanism.snapshot_diff ∷ []

-- `self.ordering is not None and bool(self.ordering.columns)`
abbrev pub has_ordering_identity : Option OrderingSpec → Bool
has_ordering_identity none = false
has_ordering_identity (some ordering) = not (no_items ordering.columns)

-- The conditions of `validate_semantics`, in the order in which it tests them.
module _ (self : TableSpec) where
  unfoldable pub lacks_keys : Bool
  lacks_keys = contains merge_like self.silver.contract && no_items self.identity.business_keys

  unfoldable pub scd2_unordered : Bool
  scd2_unordered = self.silver.contract == SilverContract.scd2 && is_none self.ordering

  unfoldable pub watermark_without_cursor : Bool
  watermark_without_cursor =
      self.capture.mechanism == CaptureMechanism.watermark && is_none self.cursor

  -- `self.capture.change_granularity is not ChangeGranularity.NONE`
  abbrev pub has_changes : Bool
  has_changes = not (self.capture.change_granularity == ChangeGranularity.none)

  unfoldable pub incremental_or_change : Bool
  incremental_or_change = self.capture.mechanism == CaptureMechanism.watermark || has_changes

  unfoldable pub lacks_handoff : Bool
  unfolding incremental_or_change
  lacks_handoff = incremental_or_change && self.bootstrap.mode == BootstrapMode.snapshot_only

  unfoldable pub changes_unordered : Bool
  changes_unordered = has_changes && is_none self.ordering

  unfoldable pub events_unidentified : Bool
  events_unidentified =
      self.bronze.contract == BronzeContract.event_history
      && not (
          not (no_items self.identity.event_identity_columns)
          || has_ordering_identity self.ordering)

  unfoldable pub soft_delete_without_strategy : Bool
  soft_delete_without_strategy =
      self.deletes.strategy == DeleteStrategy.none
      && self.silver.contract == SilverContract.current_soft_delete

  unfoldable pub reconciles_nothing : Bool
  reconciles_nothing = self.reconciliation.enabled && no_items self.reconciliation.rules

  unfoldable pub primary_not_allowed : Bool
  primary_not_allowed = not (contains self.recovery.allowed self.recovery.primary)

  unfoldable pub bronze_too_short : Bool
  bronze_too_short =
      self.recovery.primary == RecoveryMode.replay_bronze
      && ltb_ℤ (scale self.bronze.retention_days 24) self.retention.required_recovery_window_hours

  unfoldable pub source_replay_unbounded : Bool
  source_replay_unbounded =
      contains self.recovery.allowed RecoveryMode.replay_source
      && is_none self.retention.source_replay_window_hours

  unfoldable pub absence_without_snapshots : Bool
  absence_without_snapshots =
      self.deletes.strategy == DeleteStrategy.snapshot_absence
      && not (contains complete_snapshots self.capture.mechanism)

  unfoldable pub cdc_delete_without_changes : Bool
  cdc_delete_without_changes =
      self.deletes.strategy == DeleteStrategy.cdc_delete
      && self.capture.change_granularity == ChangeGranularity.none

unfoldable pub validate_semantics : TableSpec → Result TableSpec
validate_semantics self = do
  raise_if (lacks_keys self)
      (value_error (silver_contract_value self.silver.contract <> " requires stable business_keys"))
  raise_if (scd2_unordered self) (value_error "scd2 requires authoritative source ordering")
  raise_if (watermark_without_cursor self) (value_error "watermark capture requires cursor")
  raise_if (lacks_handoff self)
      (value_error "incremental/change processing requires an explicit baseline-to-change handoff")
  raise_if (changes_unordered self) (value_error "change feeds require source ordering")
  raise_if (events_unidentified self)
      (value_error "event_history requires event identity or source ordering")
  raise_if (soft_delete_without_strategy self)
      (value_error "current_soft_delete requires explicit delete strategy")
  raise_if (reconciles_nothing self)
      (value_error "enabled reconciliation requires at least one rule")
  raise_if (primary_not_allowed self)
      (value_error "recovery.primary must also appear in recovery.allowed")
  raise_if (bronze_too_short self)
      (value_error "Bronze retention does not cover the required recovery window")
  raise_if (source_replay_unbounded self)
      (value_error "replay_source requires an explicit source_replay_window_hours contract")
  raise_if (absence_without_snapshots self)
      (value_error "snapshot_absence delete detection requires complete comparable snapshots")
  raise_if (cdc_delete_without_changes self)
      (value_error "cdc_delete requires a change feed contract")
  ok self
