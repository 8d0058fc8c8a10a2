-- ===== src/Metadata/Enums.antt =====
-- The `str` enumerations of src/edp_framework/metadata/models.py, with the text of each member.
use Prim.Native.String.{String}
use enterprise_databrick_fra.Prelude.{Eq}

pub data DataSemantics : Type 0 where
  current_state change_feed business_events derived_changes : DataSemantics

pub data CaptureMechanism : Type 0 where
  full_snapshot watermark native_cdc debezium delta_cdf kafka api file lakeflow_connect
        snapshot_diff custom_package :
      CaptureMechanism

pub data ChangeGranularity : Type 0 where
  none net full : ChangeGranularity

pub data ExecutionMode : Type 0 where
  triggered continuous : ExecutionMode

pub data BronzeContract : Type 0 where
  current_replica raw_append snapshot_history event_history : BronzeContract

pub data SilverContract : Type 0 where
  current current_soft_delete scd1 scd2 canonical_events snapshot_replace custom : SilverContract

pub data CursorType : Type 0 where
  timestamp rowversion lsn scn kafka_offset delta_version api_cursor snapshot_id file_position
        custom :
      CursorType

pub data DeleteStrategy : Type 0 where
  none source_soft_delete cdc_delete snapshot_absence periodic_reconciliation custom :
      DeleteStrategy

pub data DqAction : Type 0 where
  warn quarantine fail : DqAction

pub data RecoveryMode : Type 0 where
  replay_bronze replay_source snapshot_reload full_rebuild delta_restore custom : RecoveryMode

pub data BootstrapMode : Type 0 where
  snapshot_only full_then_incremental snapshot_at_source_position event_stream_from_position
        provider_managed custom :
      BootstrapMode

pub data DeliveryGuarantee : Type 0 where
  at_least_once effectively_once provider_defined : DeliveryGuarantee

pub data FidelityLevel : Type 0 where
  current_only snapshot_interval ingestion_observation net_change_window full_captured_change
        domain_event :
      FidelityLevel

unfoldable pub data_semantics_value : DataSemantics → String
data_semantics_value DataSemantics.current_state = "current_state"
data_semantics_value DataSemantics.change_feed = "change_feed"
data_semantics_value DataSemantics.business_events = "business_events"
data_semantics_value DataSemantics.derived_changes = "derived_changes"

DataSemantics-discrete : Discrete DataSemantics
DataSemantics-discrete = hlevel

instance unfoldable pub data_semantics_eq : Eq DataSemantics
unfolding DataSemantics-discrete
data_semantics_eq = record { dec = DataSemantics-discrete }

unfoldable pub capture_mechanism_value : CaptureMechanism → String
capture_mechanism_value CaptureMechanism.full_snapshot = "full_snapshot"
capture_mechanism_value CaptureMechanism.watermark = "watermark"
capture_mechanism_value CaptureMechanism.native_cdc = "native_cdc"
capture_mechanism_value CaptureMechanism.debezium = "debezium"
capture_mechanism_value CaptureMechanism.delta_cdf = "delta_cdf"
capture_mechanism_value CaptureMechanism.kafka = "kafka"
capture_mechanism_value CaptureMechanism.api = "api"
capture_mechanism_value CaptureMechanism.file = "file"
capture_mechanism_value CaptureMechanism.lakeflow_connect = "lakeflow_connect"
capture_mechanism_value CaptureMechanism.snapshot_diff = "snapshot_diff"
capture_mechanism_value CaptureMechanism.custom_package = "custom_package"

CaptureMechanism-discrete : Discrete CaptureMechanism
CaptureMechanism-discrete = hlevel

instance unfoldable pub capture_mechanism_eq : Eq CaptureMechanism
unfolding CaptureMechanism-discrete
capture_mechanism_eq = record { dec = CaptureMechanism-discrete }

unfoldable pub change_granularity_value : ChangeGranularity → String
change_granularity_value ChangeGranularity.none = "none"
change_granularity_value ChangeGranularity.net = "net_changes"
change_granularity_value ChangeGranularity.full = "full_changes"

ChangeGranularity-discrete : Discrete ChangeGranularity
ChangeGranularity-discrete = hlevel

instance unfoldable pub change_granularity_eq : Eq ChangeGranularity
unfolding ChangeGranularity-discrete
change_granularity_eq = record { dec = ChangeGranularity-discrete }

unfoldable pub execution_mode_value : ExecutionMode → String
execution_mode_value ExecutionMode.triggered = "triggered"
execution_mode_value ExecutionMode.continuous = "continuous"

ExecutionMode-discrete : Discrete ExecutionMode
ExecutionMode-discrete = hlevel

instance unfoldable pub execution_mode_eq : Eq ExecutionMode
unfolding ExecutionMode-discrete
execution_mode_eq = record { dec = ExecutionMode-discrete }

unfoldable pub bronze_contract_value : BronzeContract → String
bronze_contract_value BronzeContract.current_replica = "current_replica"
bronze_contract_value BronzeContract.raw_append = "raw_append"
bronze_contract_value BronzeContract.snapshot_history = "snapshot_history"
bronze_contract_value BronzeContract.event_history = "event_history"

BronzeContract-discrete : Discrete BronzeContract
BronzeContract-discrete = hlevel

instance unfoldable pub bronze_contract_eq : Eq BronzeContract
unfolding BronzeContract-discrete
bronze_contract_eq = record { dec = BronzeContract-discrete }

unfoldable pub silver_contract_value : SilverContract → String
silver_contract_value SilverContract.current = "current"
silver_contract_value SilverContract.current_soft_delete = "current_soft_delete"
silver_contract_value SilverContract.scd1 = "scd1"
silver_contract_value SilverContract.scd2 = "scd2"
silver_contract_value SilverContract.canonical_events = "canonical_events"
silver_contract_value SilverContract.snapshot_replace = "snapshot_replace"
silver_contract_value SilverContract.custom = "custom"

SilverContract-discrete : Discrete SilverContract
SilverContract-discrete = hlevel

instance unfoldable pub silver_contract_eq : Eq SilverContract
unfolding SilverContract-discrete
silver_contract_eq = record { dec = SilverContract-discrete }

unfoldable pub cursor_type_value : CursorType → String
cursor_type_value CursorType.timestamp = "timestamp"
cursor_type_value CursorType.rowversion = "rowversion"
cursor_type_value CursorType.lsn = "lsn"
cursor_type_value CursorType.scn = "scn"
cursor_type_value CursorType.kafka_offset = "kafka_offset"
cursor_type_value CursorType.delta_version = "delta_version"
cursor_type_value CursorType.api_cursor = "api_cursor"
cursor_type_value CursorType.snapshot_id = "snapshot_id"
cursor_type_value CursorType.file_position = "file_position"
cursor_type_value CursorType.custom = "custom"

CursorType-discrete : Discrete CursorType
CursorType-discrete = hlevel

instance unfoldable pub cursor_type_eq : Eq CursorType
unfolding CursorType-discrete
cursor_type_eq = record { dec = CursorType-discrete }

unfoldable pub delete_strategy_value : DeleteStrategy → String
delete_strategy_value DeleteStrategy.none = "none"
delete_strategy_value DeleteStrategy.source_soft_delete = "source_soft_delete"
delete_strategy_value DeleteStrategy.cdc_delete = "cdc_delete"
delete_strategy_value DeleteStrategy.snapshot_absence = "snapshot_absence"
delete_strategy_value DeleteStrategy.periodic_reconciliation = "periodic_reconciliation"
delete_strategy_value DeleteStrategy.custom = "custom"

DeleteStrategy-discrete : Discrete DeleteStrategy
DeleteStrategy-discrete = hlevel

instance unfoldable pub delete_strategy_eq : Eq DeleteStrategy
unfolding DeleteStrategy-discrete
delete_strategy_eq = record { dec = DeleteStrategy-discrete }

unfoldable pub dq_action_value : DqAction → String
dq_action_value DqAction.warn = "warn"
dq_action_value DqAction.quarantine = "quarantine"
dq_action_value DqAction.fail = "fail"

DqAction-discrete : Discrete DqAction
DqAction-discrete = hlevel

instance unfoldable pub dq_action_eq : Eq DqAction
unfolding DqAction-discrete
dq_action_eq = record { dec = DqAction-discrete }

unfoldable pub recovery_mode_value : RecoveryMode → String
recovery_mode_value RecoveryMode.replay_bronze = "replay_bronze"
recovery_mode_value RecoveryMode.replay_source = "replay_source"
recovery_mode_value RecoveryMode.snapshot_reload = "snapshot_reload"
recovery_mode_value RecoveryMode.full_rebuild = "full_rebuild"
recovery_mode_value RecoveryMode.delta_restore = "delta_restore"
recovery_mode_value RecoveryMode.custom = "custom"

RecoveryMode-discrete : Discrete RecoveryMode
RecoveryMode-discrete = hlevel

instance unfoldable pub recovery_mode_eq : Eq RecoveryMode
unfolding RecoveryMode-discrete
recovery_mode_eq = record { dec = RecoveryMode-discrete }

unfoldable pub bootstrap_mode_value : BootstrapMode → String
bootstrap_mode_value BootstrapMode.snapshot_only = "snapshot_only"
bootstrap_mode_value BootstrapMode.full_then_incremental = "full_then_incremental"
bootstrap_mode_value BootstrapMode.snapshot_at_source_position = "snapshot_at_source_position"
bootstrap_mode_value BootstrapMode.event_stream_from_position = "event_stream_from_position"
bootstrap_mode_value BootstrapMode.provider_managed = "provider_managed"
bootstrap_mode_value BootstrapMode.custom = "custom"

BootstrapMode-discrete : Discrete BootstrapMode
BootstrapMode-discrete = hlevel

instance unfoldable pub bootstrap_mode_eq : Eq BootstrapMode
unfolding BootstrapMode-discrete
bootstrap_mode_eq = record { dec = BootstrapMode-discrete }

unfoldable pub delivery_guarantee_value : DeliveryGuarantee → String
delivery_guarantee_value DeliveryGuarantee.at_least_once = "at_least_once"
delivery_guarantee_value DeliveryGuarantee.effectively_once = "effectively_once"
delivery_guarantee_value DeliveryGuarantee.provider_defined = "provider_defined"

DeliveryGuarantee-discrete : Discrete DeliveryGuarantee
DeliveryGuarantee-discrete = hlevel

instance unfoldable pub delivery_guarantee_eq : Eq DeliveryGuarantee
unfolding DeliveryGuarantee-discrete
delivery_guarantee_eq = record { dec = DeliveryGuarantee-discrete }

unfoldable pub fidelity_level_value : FidelityLevel → String
fidelity_level_value FidelityLevel.current_only = "current_only"
fidelity_level_value FidelityLevel.snapshot_interval = "snapshot_interval"
fidelity_level_value FidelityLevel.ingestion_observation = "ingestion_observation"
fidelity_level_value FidelityLevel.net_change_window = "net_change_window"
fidelity_level_value FidelityLevel.full_captured_change = "full_captured_change"
fidelity_level_value FidelityLevel.domain_event = "domain_event"

FidelityLevel-discrete : Discrete FidelityLevel
FidelityLevel-discrete = hlevel

instance unfoldable pub fidelity_level_eq : Eq FidelityLevel
unfolding FidelityLevel-discrete
fidelity_level_eq = record { dec = FidelityLevel-discrete }
