-- ===== src/Metadata/Models.antt =====
-- The records of src/edp_framework/metadata/models.py, in the order of the source, and its literal types.
use enterprise_databrick_fra.Prelude.{String, Bool, Option, List}
use enterprise_databrick_fra.Prelude.Dict.{Dict}
use enterprise_databrick_fra.Prelude.Values.{Value}
use enterprise_databrick_fra.Prelude.Int.{ℤ}
use enterprise_databrick_fra.Prelude.Double.{Double}
use enterprise_databrick_fra.Metadata.Enums.{
  DataSemantics, CaptureMechanism, ChangeGranularity, ExecutionMode, BronzeContract, SilverContract,
  CursorType, DeleteStrategy, DqAction, RecoveryMode, BootstrapMode, DeliveryGuarantee,
  FidelityLevel,
}

pub record SourceRef : Type 0 where
  pub system : String
  pub object : String
  pub owner : Option String
  pub connection_ref : Option String

pub record BootstrapSpec : Type 0 where
  pub mode : BootstrapMode
  pub handoff_position : Option String
  pub overlap_idempotent : Bool
  pub notes : Option String

pub record DeliverySpec : Type 0 where
  pub guarantee : DeliveryGuarantee
  pub idempotency_key_columns : List String
  pub retry_safe : Bool

pub record FidelitySpec : Type 0 where
  pub level : FidelityLevel
  pub caveat : String

pub record RetentionSpec : Type 0 where
  pub source_replay_window_hours : Option ℤ
  pub required_recovery_window_hours : ℤ
  pub alert_before_expiry_hours : ℤ

pub record CaptureSpec : Type 0 where
  pub mechanism : CaptureMechanism
  pub change_granularity : ChangeGranularity
  pub execution : ExecutionMode
  pub provider_package : Option String
  pub options : Dict Value

pub data Boundary : Type 0 where
  lower_exclusive_upper_inclusive provider_defined : Boundary

pub record CursorSpec : Type 0 where
  pub type : CursorType
  pub columns : List String
  pub lookback : Option String
  pub boundary : Boundary

pub record OrderingSpec : Type 0 where
  pub columns : List String
  pub authoritative : Bool

pub record IdentitySpec : Type 0 where
  pub business_keys : List String
  pub source_version_columns : List String
  pub event_identity_columns : List String
  pub delivery_identity_columns : List String

pub record BronzeSpec : Type 0 where
  pub contract : BronzeContract
  pub table : String
  pub preserve_raw_payload : Bool
  pub retention_days : ℤ
  pub append_delivery_attempts : Bool

pub record SilverSpec : Type 0 where
  pub contract : SilverContract
  pub table : String
  pub tracked_columns : List String
  pub ignored_history_columns : List String
  pub effective_time_column : Option String

pub record DeleteSpec : Type 0 where
  pub strategy : DeleteStrategy
  pub indicator_column : Option String
  pub deleted_values : List Value

pub record QualityRule : Type 0 where
  pub name : String
  pub expression : String
  pub action : DqAction
  pub threshold : Double
  pub owner : Option String

pub record QualitySpec : Type 0 where
  pub rules : List QualityRule
  pub quarantine_table : Option String

pub data RuleKind : Type 0 where
  row_count key_count pk_presence aggregate hash source_position operation_count : RuleKind
  scd2_current_uniqueness scd2_no_overlap custom : RuleKind

pub data Severity : Type 0 where
  warn fail : Severity

pub record ReconciliationRule : Type 0 where
  pub name : String
  pub kind : RuleKind
  pub severity : Severity
  pub tolerance : Double
  pub options : Dict Value

pub data CutoffStrategy : Type 0 where
  captured_upper_bound source_position snapshot_id provider_defined : CutoffStrategy

pub record ReconciliationSpec : Type 0 where
  pub enabled : Bool
  pub cutoff_strategy : CutoffStrategy
  pub rules : List ReconciliationRule

-- The literals of the fields of `SchemaEvolutionSpec`, each with the choices that it has.
pub data AllowReviewFail : Type 0 where
  allow review fail : AllowReviewFail

pub data ReviewFail : Type 0 where
  review fail : ReviewFail

pub data ReviewFailQuarantine : Type 0 where
  review fail quarantine : ReviewFailQuarantine

pub record SchemaEvolutionSpec : Type 0 where
  pub add_nullable : AllowReviewFail
  pub add_required : ReviewFail
  pub drop : ReviewFail
  pub rename : ReviewFail
  pub widen_type : AllowReviewFail
  pub incompatible_type : ReviewFailQuarantine
  pub rescued_data : Bool

pub record RecoverySpec : Type 0 where
  pub primary : RecoveryMode
  pub allowed : List RecoveryMode
  pub key_replay : Bool
  pub time_window_replay : Bool
  pub partition_replay : Bool
  pub requires_approval : Bool

pub record SlaSpec : Type 0 where
  pub freshness_minutes : Option ℤ
  pub max_recovery_minutes : Option ℤ

pub record TableSpec : Type 0 where
  pub version : ℤ
  pub dataset_id : String
  pub pattern_id : String
  pub enabled : Bool
  pub source : SourceRef
  pub semantics : DataSemantics
  pub capture : CaptureSpec
  pub bootstrap : BootstrapSpec
  pub delivery : DeliverySpec
  pub fidelity : FidelitySpec
  pub retention : RetentionSpec
  pub cursor : Option CursorSpec
  pub ordering : Option OrderingSpec
  pub identity : IdentitySpec
  pub bronze : BronzeSpec
  pub silver : SilverSpec
  pub deletes : DeleteSpec
  pub quality : QualitySpec
  pub reconciliation : ReconciliationSpec
  pub schema_evolution : SchemaEvolutionSpec
  pub recovery : RecoverySpec
  pub sla : SlaSpec
  pub tags : Dict String
