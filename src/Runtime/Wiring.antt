-- ===== src/Runtime/Wiring.antt =====
-- The relations of a pipeline graph: what is read was declared by an earlier call, or comes from
-- outside.
use enterprise_databrick_fra.Prelude.{String, List, [], ◌∷◌, ◌++◌, ◌≡◌, ◌⊎◌, refl, ◌∙◌}
use enterprise_databrick_fra.Metadata.Enums.{DqAction}
use enterprise_databrick_fra.Metadata.Models.{QualityRule}
use enterprise_databrick_fra.Quality.{
  decorate_expectations, expect_all, expect_all_or_fail, rules_for_action,
}
use enterprise_databrick_fra.Pipelines.{
  Frame, read_stream, read, filter, with_watermark, drop_duplicates_within_watermark, transformed,
  Function, returns, expect, expect_or_fail, Call, table, materialized_view, temporary_view,
  create_streaming_table, create_auto_cdc_flow, create_auto_cdc_from_snapshot_flow,
}

abbrev pub Has : String → List String → Type 0
Has name [] = ⊥
Has name (x ∷ xs) = (name ≡ x) ⊎ Has name xs

-- The relation that a frame starts from; every frame has one.
abbrev pub base : Frame → String
base (read_stream relation) = relation
base (read relation) = relation
base (filter frame _) = base frame
base (with_watermark frame _ _) = base frame
base (drop_duplicates_within_watermark frame _) = base frame
base (transformed _ frame) = base frame

abbrev pub body : Function → Frame
body (returns _ frame) = frame
body (expect _ _ function) = body function
body (expect_or_fail _ _ function) = body function

-- The names that a call adds to the graph.
abbrev pub declares : Call → List String
declares (table name _ _) = name ∷ []
declares (materialized_view name _ _) = name ∷ []
declares (temporary_view name _ _) = name ∷ []
declares (create_streaming_table name _ _) = name ∷ []
declares _ = []

-- A call reads known names only, and a flow writes to a known name.
abbrev pub IsWiredCall : List String → Call → Type 0
IsWiredCall known (table _ _ function) = Has (base (body function)) known
IsWiredCall known (materialized_view _ _ function) = Has (base (body function)) known
IsWiredCall known (temporary_view _ _ function) = Has (base (body function)) known
IsWiredCall known (create_streaming_table _ _ _) = Unit
IsWiredCall known (create_auto_cdc_flow flow) = Has flow.source known × Has flow.target known
IsWiredCall known (create_auto_cdc_from_snapshot_flow flow) = Has flow.target known

-- Each call is wired over the names from outside and those that the calls before it declare.
abbrev pub IsWired : List String → List Call → Type 0
IsWired known [] = Unit
IsWired known (call ∷ calls) = IsWiredCall known call × IsWired (declares call ++ known) calls

body-expect_all : (rules : List QualityRule) (f : Function) → body (expect_all rules f) ≡ body f
body-expect_all [] f = refl
body-expect_all (r ∷ rules) f = body-expect_all rules (expect r.name r.expression f)

body-expect_all_or_fail :
    (rules : List QualityRule) (f : Function) → body (expect_all_or_fail rules f) ≡ body f
body-expect_all_or_fail [] f = refl
body-expect_all_or_fail (r ∷ rules) f =
    body-expect_all_or_fail rules (expect_or_fail r.name r.expression f)

-- Expectations leave the frame of a function alone.
pub body-decorate_expectations :
    (f : Function) (rules : List QualityRule) → body (decorate_expectations f rules) ≡ body f
unfolding decorate_expectations
body-decorate_expectations f rules =
    body-expect_all_or_fail (rules_for_action rules DqAction.fail) _
    ∙ body-expect_all (rules_for_action rules DqAction.warn) f
