-- ===== src/Metadata/Construct/Laws.antt =====
-- What holds of every table that could be constructed.
use text.Mathlib.TextLemmas.{cons≢nil}
use enterprise_databrick_fra.Prelude.{
  WhenGiven, Each, Each-map, for_each_iff, ◌∙◌, raise_if-eq-ok, Returns, >>-eq-ok, >>-returned,
  String, true, false, Option, none, some, [], ◌≡◌, ◌≢◌, ◌↔◌, contains, arith, refl,
}
use enterprise_databrick_fra.Prelude.Int.{ℤ, pos, ◌≤ℤ◌}
use enterprise_databrick_fra.Prelude.Double.{le_double, zero_double}
use enterprise_databrick_fra.Metadata.Enums.{
  CaptureMechanism, DeleteStrategy, BootstrapMode, DeliveryGuarantee, capture_mechanism_eq,
  delete_strategy_eq, dq_action_eq, recovery_mode_eq, bootstrap_mode_eq, delivery_guarantee_eq,
}
use enterprise_databrick_fra.Metadata.Models.{
  BootstrapSpec, DeliverySpec, CaptureSpec, RetentionSpec, DeleteSpec, CursorSpec, OrderingSpec,
  BronzeSpec, QualityRule, QualitySpec, ReconciliationRule, ReconciliationSpec, SlaSpec,
}
use enterprise_databrick_fra.Metadata.Validators.{
  window_too_short, unset, any_quarantine, explicit_handoff, validate_handoff,
  validate_at_least_once, validate_source_window, validate_custom_provider, validate_soft_delete,
  validate_quarantine,
}
use enterprise_databrick_fra.Metadata.Construct.{
  is_fraction, below_one, given_below_one, construct_retention, construct_cursor,
  construct_ordering, construct_bronze, construct_quality_rule, construct_quality,
  construct_reconciliation_rule, construct_reconciliation, construct_sla,
}

-- A text that was given and is not empty.
abbrev pub Given : Option String → Type 0
Given o = (s : String) × (o ≡ some s) × (s ≢ "")

-- The baseline is handed over to the changes at a named position.
abbrev pub NeedsHandoff : BootstrapMode → Type 0
NeedsHandoff BootstrapMode.full_then_incremental = Unit
NeedsHandoff BootstrapMode.snapshot_at_source_position = Unit
NeedsHandoff BootstrapMode.event_stream_from_position = Unit
NeedsHandoff _ = ⊥

unset-Given : (o : Option String) → (unset o ≡ false) ↔ Given o
unset-Given none = ground arith
unset-Given (some String.[]) = ground arith
unset-Given (some (String.◌∷◌ c s)) = (λ _. (String.◌∷◌ c s, refl, cons≢nil), λ _. refl)

NeedsHandoff-iff : (m : BootstrapMode) → (contains explicit_handoff m ≡ true) ↔ NeedsHandoff m
unfolding bootstrap_mode_eq
NeedsHandoff-iff BootstrapMode.full_then_incremental = ground arith
NeedsHandoff-iff BootstrapMode.snapshot_at_source_position = ground arith
NeedsHandoff-iff BootstrapMode.event_stream_from_position = ground arith
NeedsHandoff-iff _ = ground arith

pub validate_handoff_iff :
    (b : BootstrapSpec)
    → Returns (validate_handoff b) ↔ (NeedsHandoff b.mode → Given b.handoff_position)
unfolding validate_handoff
validate_handoff_iff b = (
  λ r. ground (arith, NeedsHandoff-iff b.mode, unset-Given b.handoff_position),
  λ h. (b, ground (arith, NeedsHandoff-iff b.mode, unset-Given b.handoff_position)),
)

pub validate_at_least_once_iff :
    (d : DeliverySpec)
    → Returns (validate_at_least_once d)
      ↔ (d.guarantee ≡ DeliveryGuarantee.at_least_once → d.idempotency_key_columns ≢ [])
unfolding validate_at_least_once
validate_at_least_once_iff d = (λ r. ground arith, λ h. (d, ground arith))

pub validate_custom_provider_iff :
    (c : CaptureSpec)
    → Returns (validate_custom_provider c)
      ↔ (c.mechanism ≡ CaptureMechanism.custom_package → Given c.provider_package)
unfolding validate_custom_provider
validate_custom_provider_iff c = (
  λ r. ground (arith, unset-Given c.provider_package),
  λ h. (c, ground (arith, unset-Given c.provider_package)),
)

pub validate_soft_delete_iff :
    (d : DeleteSpec)
    → Returns (validate_soft_delete d)
      ↔ (d.strategy ≡ DeleteStrategy.source_soft_delete → Given d.indicator_column)
unfolding validate_soft_delete
validate_soft_delete_iff d = (
  λ r. ground (arith, unset-Given d.indicator_column),
  λ h. (d, ground (arith, unset-Given d.indicator_column)),
)

-- The windows of a retention contract are positive, and a declared source window is long enough.
pub record IsRetention (r : RetentionSpec) : Type 0 where
  pub source_positive : WhenGiven (λ w. pos 1 ≤ℤ w) r.source_replay_window_hours
  pub required_positive : pos 1 ≤ℤ r.required_recovery_window_hours
  pub alert_positive : pos 1 ≤ℤ r.alert_before_expiry_hours
  pub source_covers :
      WhenGiven (λ w. r.required_recovery_window_hours ≤ℤ w) r.source_replay_window_hours

given_positive_iff : (o : Option ℤ) → (given_below_one o ≡ false) ↔ WhenGiven (λ w. pos 1 ≤ℤ w) o
given_positive_iff none = ground arith
given_positive_iff (some w) = ground arith

retention_covers_iff :
    (o : Option ℤ) (n : ℤ) → (window_too_short o n ≡ false) ↔ WhenGiven (λ w. n ≤ℤ w) o
retention_covers_iff none n = ground arith
retention_covers_iff (some w) n = ground arith

pub below_one_iff : (n : ℤ) → (below_one n ≡ false) ↔ (pos 1 ≤ℤ n)
below_one_iff n = ground arith

construct_retention_sound : (r : RetentionSpec) → Returns (construct_retention r) → IsRetention r
unfolding construct_retention validate_source_window
construct_retention_sound r (s, e) =
    let (h1, e1) = raise_if-eq-ok _ _ _ e in
    let (h2, e2) = raise_if-eq-ok _ _ _ e1 in
    let (h3, e3) = raise_if-eq-ok _ _ _ e2 in
    let (h4, e4) = raise_if-eq-ok _ _ _ e3 in
    record {
      source_positive = (given_positive_iff _).0 h1;
      required_positive = (below_one_iff _).0 h2;
      alert_positive = (below_one_iff _).0 h3;
      source_covers = (retention_covers_iff _ _).0 h4;
    }

pub construct_retention_iff : (r : RetentionSpec) → Returns (construct_retention r) ↔ IsRetention r
unfolding construct_retention validate_source_window
construct_retention_iff r = (
  construct_retention_sound r,
  λ v. (
    r,
    rw (
      (given_positive_iff _).1 v.source_positive,
      (below_one_iff _).1 v.required_positive,
      (below_one_iff _).1 v.alert_positive,
      (retention_covers_iff _ _).1 v.source_covers,
    ),
  ),
)

pub construct_cursor_iff :
    (c : Option CursorSpec) → Returns (construct_cursor c) ↔ WhenGiven (λ c. c.columns ≢ []) c
unfolding construct_cursor
construct_cursor_iff none = (λ r. tt, λ h. (none, refl))
construct_cursor_iff (some c) = (λ r. ground arith, λ h. (some c, ground arith))

pub construct_ordering_iff :
    (o : Option OrderingSpec) → Returns (construct_ordering o) ↔ WhenGiven (λ o. o.columns ≢ []) o
unfolding construct_ordering
construct_ordering_iff none = (λ r. tt, λ h. (none, refl))
construct_ordering_iff (some o) = (λ r. ground arith, λ h. (some o, ground arith))

pub construct_bronze_iff :
    (b : BronzeSpec) → Returns (construct_bronze b) ↔ (pos 1 ≤ℤ b.retention_days)
unfolding construct_bronze
construct_bronze_iff b = (λ r. ground arith, λ h. (b, ground arith))

quality_rule_iff : (r : QualityRule) → Returns (construct_quality_rule r) ↔ (is_fraction r ≡ true)
unfolding construct_quality_rule
quality_rule_iff r = (λ s. ground arith, λ h. (tt, ground arith))

reconciliation_rule_iff :
    (r : ReconciliationRule)
    → Returns (construct_reconciliation_rule r) ↔ (le_double zero_double r.tolerance ≡ true)
unfolding construct_reconciliation_rule
reconciliation_rule_iff r = (λ s. ground arith, λ h. (tt, ground arith))

quarantine_iff :
    (q : QualitySpec)
    → Returns (validate_quarantine q) ↔ (any_quarantine q.rules ≡ true → Given q.quarantine_table)
unfolding validate_quarantine
quarantine_iff q = (
  λ r. ground (arith, unset-Given q.quarantine_table),
  λ h. (q, ground (arith, unset-Given q.quarantine_table)),
)

-- The thresholds are fractions, and there is a table for the rows that a rule quarantines.
pub record IsQuality (q : QualitySpec) : Type 0 where
  pub thresholds : Each (λ r. is_fraction r ≡ true) q.rules
  pub quarantine : any_quarantine q.rules ≡ true → Given q.quarantine_table

pub construct_quality_iff : (q : QualitySpec) → Returns (construct_quality q) ↔ IsQuality q
unfolding construct_quality
construct_quality_iff q = (
  λ (r, e).
      let (rules, rest) = >>-eq-ok _ _ e in
      record {
        thresholds =
            Each-map (λ r. (quality_rule_iff r).0) q.rules ((for_each_iff _ q.rules).0 rules);
        quarantine = (quarantine_iff q).0 (r, rest);
      },
  λ v.
      let (r, e) = (quarantine_iff q).1 v.quarantine in
      (
        r,
        >>-returned _ (
              (for_each_iff _ q.rules).1
                (Each-map (λ r. (quality_rule_iff r).1) q.rules v.thresholds))
            ∙ e,
      ),
)

pub construct_reconciliation_iff :
    (c : ReconciliationSpec)
    → Returns (construct_reconciliation c)
      ↔ Each (λ r. le_double zero_double r.tolerance ≡ true) c.rules
unfolding construct_reconciliation
construct_reconciliation_iff c = (
  λ (r, e).
      Each-map (λ r. (reconciliation_rule_iff r).0) c.rules
        ((for_each_iff _ c.rules).0 (>>-eq-ok _ _ e).0),
  λ v. (
    c,
    >>-returned _
        ((for_each_iff _ c.rules).1 (Each-map (λ r. (reconciliation_rule_iff r).1) c.rules v)),
  ),
)

-- The agreed minutes are positive, if they are given.
pub record IsSla (s : SlaSpec) : Type 0 where
  pub freshness : WhenGiven (λ m. pos 1 ≤ℤ m) s.freshness_minutes
  pub recovery : WhenGiven (λ m. pos 1 ≤ℤ m) s.max_recovery_minutes

pub construct_sla_iff : (s : SlaSpec) → Returns (construct_sla s) ↔ IsSla s
unfolding construct_sla
construct_sla_iff s = (
  λ (r, e).
      let (h1, e1) = raise_if-eq-ok _ _ _ e in
      let (h2, e2) = raise_if-eq-ok _ _ _ e1 in
      record { freshness = (given_positive_iff _).0 h1; recovery = (given_positive_iff _).0 h2 },
  λ v. (s, rw ((given_positive_iff _).1 v.freshness, (given_positive_iff _).1 v.recovery)),
)
