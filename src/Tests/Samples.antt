-- ===== src/Tests/Samples.antt =====
-- Tables, contexts, providers and registries to run the package on.
use enterprise_databrick_fra.Prelude.{String, true, false, none, some, List, [], ◌∷◌, ok}
use enterprise_databrick_fra.Prelude.Int.{pos}
use enterprise_databrick_fra.Prelude.Double.{zero_double, one_double}
use enterprise_databrick_fra.Prelude.Values.{str, int}
use enterprise_databrick_fra.Metadata.Enums.{
  DataSemantics, CaptureMechanism, ChangeGranularity, ExecutionMode, BronzeContract, SilverContract,
  DeleteStrategy, DqAction, RecoveryMode, BootstrapMode, DeliveryGuarantee, FidelityLevel,
  CursorType,
}
use enterprise_databrick_fra.Metadata.Models.{
  QualityRule, ReconciliationRule, RuleKind, Severity, CutoffStrategy, AllowReviewFail, ReviewFail,
  ReviewFailQuarantine, TableSpec, Boundary,
}
use enterprise_databrick_fra.Patterns.Contracts.{PatternDefinition, PatternProvider, RuntimeContext}
use enterprise_databrick_fra.Patterns.Registry.{Registry, builtin_registry, register_provider}
use enterprise_databrick_fra.Pipelines.{pure}

abbrev pub amount_rule : QualityRule
amount_rule = record {
  name = "amount_positive";
  expression = "amount > 0";
  action = DqAction.quarantine;
  threshold = one_double;
  owner = none;
}

abbrev pub id_rule : QualityRule
id_rule = record amount_rule {
  name = "id_given";
  expression = "id IS NOT NULL";
  action = DqAction.fail;
}

abbrev pub count_rule : ReconciliationRule
count_rule = record {
  name = "rows";
  kind = RuleKind.key_count;
  severity = Severity.fail;
  tolerance = zero_double;
  options = [];
}

-- A change feed with deletes.
abbrev pub orders : TableSpec
orders = record {
  version = pos 1;
  dataset_id = "sales.orders";
  pattern_id = "P10";
  enabled = true;
  source = record { system = "erp"; object = "orders"; owner = none; connection_ref = none };
  semantics = DataSemantics.change_feed;
  capture = record {
    mechanism = CaptureMechanism.debezium;
    change_granularity = ChangeGranularity.full;
    execution = ExecutionMode.triggered;
    provider_package = none;
    options =
        ("reference_source_relation", str "landing.orders")
        ∷ ("apply_as_deletes", str "op = 'd'")
        ∷ ("max_out_of_order_delay_seconds", int (pos 60))
        ∷ ("cdc_tombstone_retention_seconds", int (pos 3600))
        ∷ [];
  };
  bootstrap = record {
    mode = BootstrapMode.snapshot_at_source_position;
    handoff_position = some "lsn";
    overlap_idempotent = true;
    notes = none;
  };
  delivery = record {
    guarantee = DeliveryGuarantee.at_least_once;
    idempotency_key_columns = "event_id" ∷ [];
    retry_safe = true;
  };
  fidelity = record { level = FidelityLevel.full_captured_change; caveat = "" };
  retention = record {
    source_replay_window_hours = some (pos 72);
    required_recovery_window_hours = pos 48;
    alert_before_expiry_hours = pos 24;
  };
  cursor = none;
  ordering = some (record { columns = "lsn" ∷ []; authoritative = true });
  identity = record {
    business_keys = "id" ∷ [];
    source_version_columns = [];
    event_identity_columns = "event_id" ∷ [];
    delivery_identity_columns = [];
  };
  bronze = record {
    contract = BronzeContract.event_history;
    table = "bronze.orders";
    preserve_raw_payload = true;
    retention_days = pos 2;
    append_delivery_attempts = false;
  };
  silver = record {
    contract = SilverContract.scd1;
    table = "silver.orders";
    tracked_columns = [];
    ignored_history_columns = [];
    effective_time_column = none;
  };
  deletes = record {
    strategy = DeleteStrategy.cdc_delete;
    indicator_column = none;
    deleted_values = [];
  };
  quality = record {
    rules = amount_rule ∷ id_rule ∷ [];
    quarantine_table = some "bronze.orders_quarantine";
  };
  reconciliation = record {
    enabled = true;
    cutoff_strategy = CutoffStrategy.captured_upper_bound;
    rules = count_rule ∷ [];
  };
  schema_evolution = record {
    add_nullable = AllowReviewFail.allow;
    add_required = ReviewFail.review;
    drop = ReviewFail.fail;
    rename = ReviewFail.fail;
    widen_type = AllowReviewFail.review;
    incompatible_type = ReviewFailQuarantine.fail;
    rescued_data = true;
  };
  recovery = record {
    primary = RecoveryMode.replay_bronze;
    allowed = RecoveryMode.replay_bronze ∷ RecoveryMode.replay_source ∷ [];
    key_replay = true;
    time_window_replay = true;
    partition_replay = false;
    requires_approval = true;
  };
  sla = record { freshness_minutes = some (pos 60); max_recovery_minutes = none };
  tags = [];
}

-- A watermarked table with soft deletes and no ordering of the source.
abbrev pub customers : TableSpec
customers = record orders {
  dataset_id = "crm.customers";
  pattern_id = "P07";
  semantics = DataSemantics.current_state;
  capture = record {
    mechanism = CaptureMechanism.watermark;
    change_granularity = ChangeGranularity.none;
    execution = ExecutionMode.triggered;
    provider_package = none;
    options = ("reference_source_relation", str "landing.customers") ∷ [];
  };
  cursor = some (record {
    type = CursorType.timestamp;
    columns = "updated_at" ∷ [];
    lookback = none;
    boundary = Boundary.lower_exclusive_upper_inclusive;
  });
  ordering = none;
  bronze = record {
    contract = BronzeContract.raw_append;
    table = "bronze.customers";
    preserve_raw_payload = true;
    retention_days = pos 2;
    append_delivery_attempts = false;
  };
  silver = record {
    contract = SilverContract.current_soft_delete;
    table = "silver.customers";
    tracked_columns = [];
    ignored_history_columns = [];
    effective_time_column = none;
  };
  deletes = record {
    strategy = DeleteStrategy.source_soft_delete;
    indicator_column = some "is_deleted";
    deleted_values = [];
  };
}

abbrev pub production : RuntimeContext
production = record {
  environment = "prod";
  catalog = "main";
  pipelines = λ calls call. ok tt;
  options = [];
}

-- An extension pattern under an id, and a provider of two.
abbrev pub extension : String → PatternDefinition
extension id = record {
  id = id;
  name = "Extension";
  bronze_contract = BronzeContract.raw_append;
  supported_silver_contracts = SilverContract.current ∷ [];
  description = "";
  implementation_hint = "";
}

abbrev pub provider_of : List PatternDefinition → PatternProvider
provider_of definitions = record {
  definitions = definitions;
  validate = λ spec. ok tt;
  build_runtime = some (λ spec context. pure tt);
}

abbrev pub company : PatternProvider
company = provider_of (extension "ACME_1" ∷ extension "ACME_2" ∷ [])

abbrev pub clashing : PatternProvider
clashing = provider_of (extension "ACME_1" ∷ extension "P01" ∷ [])

abbrev pub numbered : PatternProvider
numbered = provider_of (extension "P15" ∷ [])

abbrev pub extended : Registry
extended = (register_provider company builtin_registry).1

abbrev pub renumbered : Registry
renumbered = (register_provider numbered builtin_registry).1

-- A complete snapshot with a quarantine rule.
abbrev pub products : TableSpec
products = record orders {
  dataset_id = "catalog.products";
  pattern_id = "P01";
  bronze = record orders.bronze { contract = BronzeContract.current_replica };
  silver = record orders.silver { contract = SilverContract.current };
}
