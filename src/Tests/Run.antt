-- ===== src/Tests/Run.antt =====
-- All that the package computes with, for runs on the samples.
use enterprise_databrick_fra.Prelude.{for_each, string_eq}
use enterprise_databrick_fra.Prelude.Dict.{get, put}
use enterprise_databrick_fra.Prelude.Text.{
  is_blank, is_digits, all_name_chars, is_identifier, split_dots, join, replace_others, decimal,
  sorted,
}
use enterprise_databrick_fra.Prelude.Double.{le_double}
use enterprise_databrick_fra.Prelude.Values.{truthy, all_texts}
use enterprise_databrick_fra.Metadata.Enums.{
  data_semantics_value, data_semantics_eq, capture_mechanism_value, capture_mechanism_eq,
  change_granularity_value, change_granularity_eq, execution_mode_value, execution_mode_eq,
  bronze_contract_value, bronze_contract_eq, silver_contract_value, silver_contract_eq,
  cursor_type_value, cursor_type_eq, delete_strategy_value, delete_strategy_eq, dq_action_value,
  dq_action_eq, recovery_mode_value, recovery_mode_eq, bootstrap_mode_value, bootstrap_mode_eq,
  delivery_guarantee_value, delivery_guarantee_eq, fidelity_level_value, fidelity_level_eq,
}
use enterprise_databrick_fra.Metadata.Validators.{
  validate_handoff, validate_at_least_once, validate_source_window, validate_custom_provider,
  validate_soft_delete, validate_quarantine, lacks_keys, scd2_unordered, watermark_without_cursor,
  incremental_or_change, lacks_handoff, changes_unordered, events_unidentified,
  soft_delete_without_strategy, reconciles_nothing, primary_not_allowed, bronze_too_short,
  source_replay_unbounded, absence_without_snapshots, cdc_delete_without_changes,
  validate_semantics,
}
use enterprise_databrick_fra.Names.{qualify_relation, runtime_name}
use enterprise_databrick_fra.Quality.{
  rules_for_action, valid_expression, invalid_expression, decorate_expectations,
}
use enterprise_databrick_fra.Reconciliation.Contracts.{
  rule_kind_eq, rule_keys, require_non_empty_string, check_mode, check_column_option, validate_rule,
  validate_reconciliation_contract,
}
use enterprise_databrick_fra.Patterns.Builtins.{
  builtin_patterns, expected_semantics, expected_change_granularity, validate_builtin_pattern,
}
use enterprise_databrick_fra.Patterns.Registry.{
  builtin_registry, register_definitions, register_provider, load_entry_points, pattern_registry,
  definitions, get_pattern, is_numbered, validate, build_runtime, build_extension_runtime,
}
use enterprise_databrick_fra.Runtime.Options.{
  string_option, int_option, string_list_option, unique, source_relation, snapshot_source,
  sequence_by, runtime_except_columns, cdc_target_properties,
}
use enterprise_databrick_fra.Runtime.Contract.{
  validate_p01, validate_p02, validate_p07, check_delays, validate_cdc_delete, validate_p10,
  validate_p12, validate_builtin_runtime_contract,
}
use enterprise_databrick_fra.Runtime.Register.{
  register_stream_bronze, register_batch_bronze, quarantine_rows, quarantine_if,
  register_quarantine, register_valid_stream_view, register_p01, register_p02, publish_p07,
  publish_p10, register_p07, register_p10, register_p12,
}
use enterprise_databrick_fra.Runtime.Handlers.{
  builtin_runtime_handlers, implemented_builtin_patterns, build_builtin_runtime,
}
use enterprise_databrick_fra.Metadata.Construct.{construct_all, model_validate}
use enterprise_databrick_fra.Prelude.Int.{scale, ◌-ℤ◌}
use enterprise_databrick_fra.Reconciliation.Engine.{
  distinct, categories, category_variance, compared_variance, numeric_result, categorical_result,
}
use enterprise_databrick_fra.Reconciliation.Evaluate.{
  keys_for, required_expression, required_operation_column, evaluate_rule, evaluate_rules, failing,
  status_of, evaluate_reconciliation,
}
use enterprise_databrick_fra.Prelude.Text.Order.{le_text}
use enterprise_databrick_fra.Prelude.Sorting.{insert_by, sort_by}
use enterprise_databrick_fra.Operations.ControlTables.{
  ident, control_table_ddl, execute, ensure_control_tables,
}
use enterprise_databrick_fra.Operations.ReleaseHistory.{
  is_hex_of, lower, validate_git_sha, release_evidence_row, append_release_evidence,
}
use enterprise_databrick_fra.Operations.ReleaseSmoke.{missing_tables, assert_control_plane_ready}
use enterprise_databrick_fra.Operations.Tasks.{bootstrap_control, record_release, release_smoke}
use enterprise_databrick_fra.Reconciliation.Audit.{
  append_results, append_report, persist_reconciliation_report,
}
use enterprise_databrick_fra.Reconciliation.Measures.{
  safe_column, safe_columns, key_columns, add_counts, insert_item, sort_items, row_count,
  distinct_key_count, missing_key_count, numeric_scalar, categorical_counts,
  current_duplicate_key_count, scd2_overlap_count,
}
use enterprise_databrick_fra.Commands.{
  load_table_spec, table_files, load_each, load_table_specs, validate_path, listed, main,
}
use enterprise_databrick_fra.Extension.{validate_company}

unfoldable pub run_all : Unit {0}
unfolding ◌-ℤ◌ distinct categories category_variance compared_variance numeric_result
    categorical_result keys_for required_expression required_operation_column evaluate_rule
    evaluate_rules failing status_of evaluate_reconciliation scale for_each string_eq get put
    is_blank is_digits all_name_chars is_identifier split_dots join replace_others decimal sorted
    le_double truthy all_texts data_semantics_value data_semantics_eq capture_mechanism_value
    capture_mechanism_eq change_granularity_value change_granularity_eq execution_mode_value
    execution_mode_eq bronze_contract_value bronze_contract_eq silver_contract_value
    silver_contract_eq cursor_type_value cursor_type_eq delete_strategy_value delete_strategy_eq
    dq_action_value dq_action_eq recovery_mode_value recovery_mode_eq bootstrap_mode_value
    bootstrap_mode_eq delivery_guarantee_value delivery_guarantee_eq fidelity_level_value
    fidelity_level_eq validate_handoff validate_at_least_once validate_source_window
    validate_custom_provider validate_soft_delete validate_quarantine lacks_keys scd2_unordered
    watermark_without_cursor incremental_or_change lacks_handoff changes_unordered
    events_unidentified soft_delete_without_strategy reconciles_nothing primary_not_allowed
    bronze_too_short source_replay_unbounded absence_without_snapshots cdc_delete_without_changes
    validate_semantics qualify_relation runtime_name rules_for_action valid_expression
    invalid_expression decorate_expectations rule_kind_eq rule_keys require_non_empty_string
    check_mode check_column_option validate_rule validate_reconciliation_contract builtin_patterns
    expected_semantics expected_change_granularity validate_builtin_pattern builtin_registry
    register_definitions register_provider load_entry_points pattern_registry definitions
    get_pattern is_numbered validate build_runtime build_extension_runtime string_option int_option
    string_list_option unique source_relation snapshot_source sequence_by runtime_except_columns
    cdc_target_properties validate_p01 validate_p02 validate_p07 check_delays validate_cdc_delete
    validate_p10 validate_p12 validate_builtin_runtime_contract register_stream_bronze
    register_batch_bronze quarantine_rows quarantine_if register_quarantine
    register_valid_stream_view register_p01 register_p02 publish_p07 publish_p10 register_p07
    register_p10 register_p12 builtin_runtime_handlers implemented_builtin_patterns
    build_builtin_runtime construct_all le_text insert_by sort_by ident control_table_ddl execute
    ensure_control_tables is_hex_of lower validate_git_sha release_evidence_row
    append_release_evidence missing_tables assert_control_plane_ready bootstrap_control
    record_release release_smoke append_results append_report persist_reconciliation_report
    safe_column safe_columns key_columns add_counts insert_item sort_items row_count
    distinct_key_count missing_key_count numeric_scalar categorical_counts
    current_duplicate_key_count scd2_overlap_count model_validate load_table_spec table_files
    load_each load_table_specs validate_path listed main validate_company
run_all = tt
