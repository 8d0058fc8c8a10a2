-- ===== src/Metadata/Coherent.antt =====
-- What `validate_semantics` and the validators of the parts promise of a record that they return.
use enterprise_databrick_fra.Prelude.{
  String, true, false, ◌&&◌, Option, none, some, List, [], ok, contains, ◌≡◌, ◌≢◌, ◌⊎◌, ◌↔◌, arith,
}
use enterprise_databrick_fra.Prelude.Int.{ℤ, scale, ◌≤ℤ◌}
use enterprise_databrick_fra.Metadata.Enums.{
  CaptureMechanism, ChangeGranularity, BronzeContract, SilverContract, DeleteStrategy, RecoveryMode,
  BootstrapMode, capture_mechanism_eq, change_granularity_eq, bronze_contract_eq,
  silver_contract_eq, delete_strategy_eq, dq_action_eq, recovery_mode_eq, bootstrap_mode_eq,
  delivery_guarantee_eq,
}
use enterprise_databrick_fra.Metadata.Models.{OrderingSpec, TableSpec}
use enterprise_databrick_fra.Metadata.Validators.{
  merge_like, no_items, lacks_keys, scd2_unordered, watermark_without_cursor, lacks_handoff,
  changes_unordered, events_unidentified, soft_delete_without_strategy, reconciles_nothing,
  primary_not_allowed, bronze_too_short, source_replay_unbounded, absence_without_snapshots,
  cdc_delete_without_changes, validate_semantics,
}

-- The table needs stable business keys.
abbrev pub MergesByKey : SilverContract → Type 0
MergesByKey SilverContract.current = Unit
MergesByKey SilverContract.current_soft_delete = Unit
MergesByKey SilverContract.scd1 = Unit
MergesByKey SilverContract.scd2 = Unit
MergesByKey _ = ⊥

-- The change granularity promises individual changes.
abbrev pub IsChangeFeed : TableSpec → Type 0
IsChangeFeed t = t.capture.change_granularity ≢ ChangeGranularity.none

-- One declared window is at least as long as another.
abbrev pub Covers : Option ℤ → ℤ → Type 0
Covers none required = ⊥
Covers (some window) required = required ≤ℤ window

-- The cross-field contract of a table.
pub record IsCoherent (t : TableSpec) : Type 0 where
  pub keyed : MergesByKey t.silver.contract → t.identity.business_keys ≢ []
  pub history_ordered : t.silver.contract ≡ SilverContract.scd2 → t.ordering ≢ none
  pub cursor_given : t.capture.mechanism ≡ CaptureMechanism.watermark → t.cursor ≢ none
  pub watermark_handoff :
      t.capture.mechanism ≡ CaptureMechanism.watermark
      → t.bootstrap.mode ≢ BootstrapMode.snapshot_only
  pub change_handoff : IsChangeFeed t → t.bootstrap.mode ≢ BootstrapMode.snapshot_only
  pub changes_ordered : IsChangeFeed t → t.ordering ≢ none
  pub events_identified :
      t.bronze.contract ≡ BronzeContract.event_history
      → (t.identity.event_identity_columns ≢ [])
        ⊎ ((o : OrderingSpec) × (t.ordering ≡ some o) × (o.columns ≢ []))
  pub soft_deletes_found :
      t.silver.contract ≡ SilverContract.current_soft_delete
      → t.deletes.strategy ≢ DeleteStrategy.none
  pub rules_given : t.reconciliation.enabled ≡ true → t.reconciliation.rules ≢ []
  pub primary_allowed : contains t.recovery.allowed t.recovery.primary ≡ true
  pub bronze_covers :
      t.recovery.primary ≡ RecoveryMode.replay_bronze
      → t.retention.required_recovery_window_hours ≤ℤ scale t.bronze.retention_days 24
  pub source_bounded :
      contains t.recovery.allowed RecoveryMode.replay_source ≡ true
      → t.retention.source_replay_window_hours ≢ none
  pub snapshots_complete :
      t.deletes.strategy ≡ DeleteStrategy.snapshot_absence
      → (t.capture.mechanism ≡ CaptureMechanism.full_snapshot)
        ⊎ (t.capture.mechanism ≡ CaptureMechanism.snapshot_diff)
  pub deletes_captured : t.deletes.strategy ≡ DeleteStrategy.cdc_delete → IsChangeFeed t

merge_keys_iff :
    (c : SilverContract) (keys : List String)
    → ((contains merge_like c && no_items keys) ≡ false) ↔ (MergesByKey c → keys ≢ [])
unfolding silver_contract_eq
merge_keys_iff SilverContract.current keys = ground arith
merge_keys_iff SilverContract.current_soft_delete keys = ground arith
merge_keys_iff SilverContract.scd1 keys = ground arith
merge_keys_iff SilverContract.scd2 keys = ground arith
merge_keys_iff _ keys = ground arith

module _ (t : TableSpec) where
  lacks_keys_iff :
      (lacks_keys t ≡ false) ↔ (MergesByKey t.silver.contract → t.identity.business_keys ≢ [])
  unfolding lacks_keys
  lacks_keys_iff = merge_keys_iff t.silver.contract t.identity.business_keys

  scd2_unordered_iff :
      (scd2_unordered t ≡ false) ↔ (t.silver.contract ≡ SilverContract.scd2 → t.ordering ≢ none)
  unfolding scd2_unordered
  scd2_unordered_iff = ground arith

  watermark_without_cursor_iff :
      (watermark_without_cursor t ≡ false)
      ↔ (t.capture.mechanism ≡ CaptureMechanism.watermark → t.cursor ≢ none)
  unfolding watermark_without_cursor
  watermark_without_cursor_iff = ground arith

  lacks_handoff_iff : (lacks_handoff t ≡ false) ↔ (
      (t.capture.mechanism ≡ CaptureMechanism.watermark
        → t.bootstrap.mode ≢ BootstrapMode.snapshot_only)
      × (IsChangeFeed t → t.bootstrap.mode ≢ BootstrapMode.snapshot_only))
  unfolding lacks_handoff
  lacks_handoff_iff = ground arith

  changes_unordered_iff : (changes_unordered t ≡ false) ↔ (IsChangeFeed t → t.ordering ≢ none)
  unfolding changes_unordered
  changes_unordered_iff = ground arith

  events_unidentified_iff : (events_unidentified t ≡ false) ↔ (
      t.bronze.contract ≡ BronzeContract.event_history
      → (t.identity.event_identity_columns ≢ [])
        ⊎ ((o : OrderingSpec) × (t.ordering ≡ some o) × (o.columns ≢ [])))
  unfolding events_unidentified
  events_unidentified_iff = ground arith

  soft_delete_without_strategy_iff : (soft_delete_without_strategy t ≡ false) ↔ (
      t.silver.contract ≡ SilverContract.current_soft_delete
      → t.deletes.strategy ≢ DeleteStrategy.none)
  unfolding soft_delete_without_strategy
  soft_delete_without_strategy_iff = ground arith

  reconciles_nothing_iff :
      (reconciles_nothing t ≡ false)
      ↔ (t.reconciliation.enabled ≡ true → t.reconciliation.rules ≢ [])
  unfolding reconciles_nothing
  reconciles_nothing_iff = ground arith

  primary_not_allowed_iff :
      (primary_not_allowed t ≡ false) ↔ (contains t.recovery.allowed t.recovery.primary ≡ true)
  unfolding primary_not_allowed
  primary_not_allowed_iff = ground arith

  bronze_too_short_iff : (bronze_too_short t ≡ false) ↔ (
      t.recovery.primary ≡ RecoveryMode.replay_bronze
      → t.retention.required_recovery_window_hours ≤ℤ scale t.bronze.retention_days 24)
  unfolding bronze_too_short
  bronze_too_short_iff = ground arith

  source_replay_unbounded_iff : (source_replay_unbounded t ≡ false) ↔ (
      contains t.recovery.allowed RecoveryMode.replay_source ≡ true
      → t.retention.source_replay_window_hours ≢ none)
  unfolding source_replay_unbounded
  source_replay_unbounded_iff = ground arith

  absence_without_snapshots_iff : (absence_without_snapshots t ≡ false) ↔ (
      t.deletes.strategy ≡ DeleteStrategy.snapshot_absence
      → (t.capture.mechanism ≡ CaptureMechanism.full_snapshot)
        ⊎ (t.capture.mechanism ≡ CaptureMechanism.snapshot_diff))
  unfolding absence_without_snapshots
  absence_without_snapshots_iff = ground arith

  cdc_delete_without_changes_iff :
      (cdc_delete_without_changes t ≡ false)
      ↔ (t.deletes.strategy ≡ DeleteStrategy.cdc_delete → IsChangeFeed t)
  unfolding cdc_delete_without_changes
  cdc_delete_without_changes_iff = ground arith

  validate_semantics_sound : validate_semantics t ≡ ok t → IsCoherent t
  unfolding validate_semantics
  validate_semantics_sound h = record {
    keyed = lacks_keys_iff.0 (ground arith);
    history_ordered = scd2_unordered_iff.0 (ground arith);
    cursor_given = watermark_without_cursor_iff.0 (ground arith);
    watermark_handoff = (lacks_handoff_iff.0 (ground arith)).0;
    change_handoff = (lacks_handoff_iff.0 (ground arith)).1;
    changes_ordered = changes_unordered_iff.0 (ground arith);
    events_identified = events_unidentified_iff.0 (ground arith);
    soft_deletes_found = soft_delete_without_strategy_iff.0 (ground arith);
    rules_given = reconciles_nothing_iff.0 (ground arith);
    primary_allowed = primary_not_allowed_iff.0 (ground arith);
    bronze_covers = bronze_too_short_iff.0 (ground arith);
    source_bounded = source_replay_unbounded_iff.0 (ground arith);
    snapshots_complete = absence_without_snapshots_iff.0 (ground arith);
    deletes_captured = cdc_delete_without_changes_iff.0 (ground arith);
  }

  validate_semantics_complete : IsCoherent t → validate_semantics t ≡ ok t
  unfolding validate_semantics
  validate_semantics_complete c = rw (
    lacks_keys_iff.1 c.keyed,
    scd2_unordered_iff.1 c.history_ordered,
    watermark_without_cursor_iff.1 c.cursor_given,
    lacks_handoff_iff.1 (c.watermark_handoff, c.change_handoff),
    changes_unordered_iff.1 c.changes_ordered,
    events_unidentified_iff.1 c.events_identified,
    soft_delete_without_strategy_iff.1 c.soft_deletes_found,
    reconciles_nothing_iff.1 c.rules_given,
    primary_not_allowed_iff.1 c.primary_allowed,
    bronze_too_short_iff.1 c.bronze_covers,
    source_replay_unbounded_iff.1 c.source_bounded,
    absence_without_snapshots_iff.1 c.snapshots_complete,
    cdc_delete_without_changes_iff.1 c.deletes_captured,
  )

  -- validate_semantics returns the table exactly when the fourteen rules across its parts hold.
  pub validate_semantics_iff : (validate_semantics t ≡ ok t) ↔ IsCoherent t
  validate_semantics_iff = (validate_semantics_sound, validate_semantics_complete)
