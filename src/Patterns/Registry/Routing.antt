-- ===== src/Patterns/Registry/Routing.antt =====
-- Built-in patterns keep their meaning in every registry that can be reached, and what happens to
-- an extension whose id looks like a built-in one.
use enterprise_databrick_fra.Prelude.{
  String, true, none, some, List, ok, err, key_error, ◌≡◌, arith,
}
use enterprise_databrick_fra.Prelude.Dict.{get}
use enterprise_databrick_fra.Metadata.Models.{TableSpec}
use enterprise_databrick_fra.Patterns.Contracts.{PatternDefinition, RuntimeContext}
use enterprise_databrick_fra.Patterns.Builtins.{expected_semantics, validate_builtin_pattern}
use enterprise_databrick_fra.Pipelines.{Call}
use enterprise_databrick_fra.Patterns.Registry.{
  Registry, builtin_registry, get_pattern, is_numbered, validate, build_runtime,
}
use enterprise_databrick_fra.Patterns.Registry.Invariant.{
  builtin, IsConsistent, Reach, start, Reach-IsConsistent,
}

get_pattern_found :
    (r : Registry) (k : String) {d : PatternDefinition}
    → get k r.definitions ≡ some d
    → get_pattern r k ≡ ok d
unfolding get_pattern
get_pattern_found r k h = ground arith

validate_builtin_pattern_missing :
    (spec : TableSpec) (d : PatternDefinition)
    → get d.id expected_semantics ≡ none
    → validate_builtin_pattern spec d ≡ err (key_error d.id)
unfolding validate_builtin_pattern
validate_builtin_pattern_missing spec d h = ground arith

module _ {r : Registry} (reached : Reach r) (spec : TableSpec) (d : PatternDefinition)
    (known : builtin spec.pattern_id ≡ some d) where
  abbrev consistent : IsConsistent r
  consistent = Reach-IsConsistent reached

  -- In every registry that registrations can reach, a table with a built-in pattern is validated as
  -- in a registry with no extension.
  pub validate-Reach : validate r spec ≡ validate builtin_registry spec
  unfolding validate
  validate-Reach = rw (
    get_pattern_found r _ (consistent.kept _ d known),
    get_pattern_found builtin_registry _ known,
    consistent.builtin_only _ d known,
    (Reach-IsConsistent start).builtin_only _ d known,
  )

  -- In every registry that registrations can reach, building a table with a built-in pattern makes
  -- the same calls, with the same result, as in a registry with no extension.
  pub build_runtime-Reach :
      (context : RuntimeContext) (calls : List Call)
      → build_runtime r spec context calls ≡ build_runtime builtin_registry spec context calls
  unfolding build_runtime
  build_runtime-Reach context calls = rw (
    validate-Reach,
    consistent.builtin_only _ d known,
    (Reach-IsConsistent start).builtin_only _ d known,
  )

-- In every registry that registrations can reach, a table whose pattern is registered under an id
-- that is a P with digits behind it, and that has no entry among the expected semantics of the
-- built-in patterns, fails validation with a KeyError of the id.
pub validate_numbered :
    {r : Registry} (reached : Reach r) (spec : TableSpec) (d : PatternDefinition)
    → get spec.pattern_id r.definitions ≡ some d
    → is_numbered spec.pattern_id ≡ true
    → get spec.pattern_id expected_semantics ≡ none
    → validate r spec ≡ err (key_error spec.pattern_id)
unfolding validate
validate_numbered {r} reached spec d found numbered missing =
    let same = (Reach-IsConsistent reached).ids spec.pattern_id d found in
    rw (get_pattern_found r _ found, numbered)
      (rw (validate_builtin_pattern_missing spec d (rw same missing)) (rw same))
