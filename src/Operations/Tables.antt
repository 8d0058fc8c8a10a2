-- ===== src/Operations/Tables.antt =====
-- The control tables of src/edp_framework/operations/control_tables.py, as lists of columns.
use enterprise_databrick_fra.Prelude.{String, Bool, true, false, List, [], ◌∷◌}

pub data SqlType : Type 0 where
  string bigint double boolean timestamp string_map : SqlType

abbrev pub sql_type_value : SqlType → String
sql_type_value SqlType.string = "STRING"
sql_type_value SqlType.bigint = "BIGINT"
sql_type_value SqlType.double = "DOUBLE"
sql_type_value SqlType.boolean = "BOOLEAN"
sql_type_value SqlType.timestamp = "TIMESTAMP"
sql_type_value SqlType.string_map = "MAP<STRING, STRING>"

pub record Column : Type 0 where
  pub name : String
  pub type : SqlType
  pub required : Bool

pub record ControlTable : Type 0 where
  pub name : String
  pub columns : List Column

abbrev pub needs : String → SqlType → Column
needs name type = record { name = name; type = type; required = true }

abbrev pub takes : String → SqlType → Column
takes name type = record { name = name; type = type; required = false }

abbrev pub release_history : ControlTable
release_history = record {
  name = "release_history";
  columns =
      needs "release_id" SqlType.string
      ∷ needs "git_sha" SqlType.string
      ∷ needs "environment" SqlType.string
      ∷ needs "bundle_target" SqlType.string
      ∷ takes "workflow_run_id" SqlType.string
      ∷ needs "deployed_at" SqlType.timestamp
      ∷ needs "deployed_by" SqlType.string
      ∷ needs "status" SqlType.string
      ∷ takes "metadata" SqlType.string_map
      ∷ [];
}

abbrev pub pipeline_run : ControlTable
pipeline_run = record {
  name = "pipeline_run";
  columns =
      needs "run_id" SqlType.string
      ∷ needs "pipeline_id" SqlType.string
      ∷ needs "started_at" SqlType.timestamp
      ∷ takes "ended_at" SqlType.timestamp
      ∷ needs "status" SqlType.string
      ∷ takes "git_sha" SqlType.string
      ∷ takes "correlation_id" SqlType.string
      ∷ takes "error_class" SqlType.string
      ∷ takes "error_message" SqlType.string
      ∷ [];
}

abbrev pub table_run : ControlTable
table_run = record {
  name = "table_run";
  columns =
      needs "run_id" SqlType.string
      ∷ needs "dataset_id" SqlType.string
      ∷ takes "source_lower_position" SqlType.string
      ∷ takes "source_upper_position" SqlType.string
      ∷ takes "source_rows" SqlType.bigint
      ∷ takes "bronze_rows" SqlType.bigint
      ∷ takes "silver_rows" SqlType.bigint
      ∷ needs "started_at" SqlType.timestamp
      ∷ takes "ended_at" SqlType.timestamp
      ∷ needs "status" SqlType.string
      ∷ takes "error_class" SqlType.string
      ∷ takes "error_message" SqlType.string
      ∷ [];
}

abbrev pub source_state : ControlTable
source_state = record {
  name = "source_state";
  columns =
      needs "dataset_id" SqlType.string
      ∷ takes "committed_position" SqlType.string
      ∷ takes "position_type" SqlType.string
      ∷ takes "committed_at" SqlType.timestamp
      ∷ takes "run_id" SqlType.string
      ∷ takes "metadata" SqlType.string_map
      ∷ [];
}

abbrev pub reconciliation_run : ControlTable
reconciliation_run = record {
  name = "reconciliation_run";
  columns =
      needs "reconciliation_run_id" SqlType.string
      ∷ needs "dataset_id" SqlType.string
      ∷ needs "cutoff_type" SqlType.string
      ∷ needs "cutoff_value" SqlType.string
      ∷ needs "started_at" SqlType.timestamp
      ∷ takes "ended_at" SqlType.timestamp
      ∷ needs "status" SqlType.string
      ∷ [];
}

abbrev pub reconciliation_result : ControlTable
reconciliation_result = record {
  name = "reconciliation_result";
  columns =
      needs "reconciliation_run_id" SqlType.string
      ∷ needs "rule_name" SqlType.string
      ∷ needs "rule_kind" SqlType.string
      ∷ takes "expected_value" SqlType.string
      ∷ takes "actual_value" SqlType.string
      ∷ takes "variance" SqlType.double
      ∷ needs "severity" SqlType.string
      ∷ needs "passed" SqlType.boolean
      ∷ takes "details" SqlType.string_map
      ∷ [];
}

abbrev pub quality_result : ControlTable
quality_result = record {
  name = "quality_result";
  columns =
      needs "run_id" SqlType.string
      ∷ needs "dataset_id" SqlType.string
      ∷ needs "rule_name" SqlType.string
      ∷ needs "action" SqlType.string
      ∷ takes "evaluated_rows" SqlType.bigint
      ∷ takes "failed_rows" SqlType.bigint
      ∷ needs "passed" SqlType.boolean
      ∷ needs "recorded_at" SqlType.timestamp
      ∷ [];
}

abbrev pub repair_request : ControlTable
repair_request = record {
  name = "repair_request";
  columns =
      needs "request_id" SqlType.string
      ∷ needs "dataset_id" SqlType.string
      ∷ needs "repair_type" SqlType.string
      ∷ takes "start_position" SqlType.string
      ∷ takes "end_position" SqlType.string
      ∷ takes "key_filter" SqlType.string
      ∷ takes "partition_filter" SqlType.string
      ∷ needs "requested_by" SqlType.string
      ∷ needs "requested_at" SqlType.timestamp
      ∷ takes "approved_by" SqlType.string
      ∷ takes "approved_at" SqlType.timestamp
      ∷ needs "reason" SqlType.string
      ∷ needs "status" SqlType.string
      ∷ [];
}

abbrev pub repair_run : ControlTable
repair_run = record {
  name = "repair_run";
  columns =
      needs "repair_run_id" SqlType.string
      ∷ needs "request_id" SqlType.string
      ∷ needs "started_at" SqlType.timestamp
      ∷ takes "ended_at" SqlType.timestamp
      ∷ needs "status" SqlType.string
      ∷ takes "source_version" SqlType.string
      ∷ takes "target_version_before" SqlType.bigint
      ∷ takes "target_version_after" SqlType.bigint
      ∷ takes "reconciliation_run_id" SqlType.string
      ∷ takes "error_message" SqlType.string
      ∷ [];
}

abbrev pub schema_change_event : ControlTable
schema_change_event = record {
  name = "schema_change_event";
  columns =
      needs "event_id" SqlType.string
      ∷ needs "dataset_id" SqlType.string
      ∷ needs "detected_at" SqlType.timestamp
      ∷ needs "change_type" SqlType.string
      ∷ needs "compatibility" SqlType.string
      ∷ takes "old_schema_json" SqlType.string
      ∷ takes "new_schema_json" SqlType.string
      ∷ needs "action" SqlType.string
      ∷ takes "run_id" SqlType.string
      ∷ [];
}

abbrev pub incident_event : ControlTable
incident_event = record {
  name = "incident_event";
  columns =
      needs "incident_id" SqlType.string
      ∷ takes "dataset_id" SqlType.string
      ∷ needs "opened_at" SqlType.timestamp
      ∷ takes "closed_at" SqlType.timestamp
      ∷ needs "severity" SqlType.string
      ∷ needs "category" SqlType.string
      ∷ needs "status" SqlType.string
      ∷ takes "run_id" SqlType.string
      ∷ takes "repair_request_id" SqlType.string
      ∷ needs "summary" SqlType.string
      ∷ [];
}

abbrev pub control_tables : List ControlTable
control_tables =
    release_history ∷ pipeline_run ∷ table_run ∷ source_state ∷ reconciliation_run
    ∷ reconciliation_result ∷ quality_result ∷ repair_request ∷ repair_run ∷ schema_change_event
    ∷ incident_event ∷ []
