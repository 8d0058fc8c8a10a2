-- ===== src/Runtime/Handlers.antt =====
-- `BUILTIN_RUNTIME_HANDLERS` and `build_builtin_runtime` of src/edp_framework/runtime/builtin.py.
use enterprise_databrick_fra.Prelude.{
  String, ◌<>◌, Option, none, some, List, [], ◌∷◌, not_implemented_error,
}
use enterprise_databrick_fra.Prelude.Dict.{Dict, get, keys}
use enterprise_databrick_fra.Metadata.Models.{TableSpec}
use enterprise_databrick_fra.Patterns.Contracts.{RuntimeContext}
use enterprise_databrick_fra.Pipelines.{Exec, raise}
use enterprise_databrick_fra.Runtime.Register.{
  register_p01, register_p02, register_p07, register_p10, register_p12,
}

abbrev pub RuntimeHandler : Type 0
RuntimeHandler = TableSpec → RuntimeContext → Exec (Unit {0})

unfoldable pub builtin_runtime_handlers : Dict RuntimeHandler
builtin_runtime_handlers =
    ("P01", register_p01)
    ∷ ("P02", register_p02)
    ∷ ("P07", register_p07)
    ∷ ("P10", register_p10)
    ∷ ("P12", register_p12)
    ∷ []

unfoldable pub implemented_builtin_patterns : List String
unfolding builtin_runtime_handlers
implemented_builtin_patterns = keys builtin_runtime_handlers

abbrev pub run_handler : (pattern_id : String) → Option RuntimeHandler → RuntimeHandler
run_handler pattern_id none spec context = raise (
    not_implemented_error (
      "built-in pattern "
      <> (pattern_id
          <> (" is semantically registered but its Databricks runtime handler is not "
              <> "implemented in this framework release"))))
run_handler pattern_id (some handler) spec context = handler spec context

unfoldable pub build_builtin_runtime : RuntimeHandler
build_builtin_runtime spec context =
    run_handler spec.pattern_id (get spec.pattern_id builtin_runtime_handlers) spec context
