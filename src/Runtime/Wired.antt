-- ===== src/Runtime/Wired.antt =====
-- Every graph that a built-in handler registers is wired: what its calls read is the source relation
-- or was declared by an earlier call.
use enterprise_databrick_fra.Prelude.{String, List, [], ◌∷◌, ok, ◌≡◌, ◌⊎◌, string_eq}
use enterprise_databrick_fra.Prelude.Dict.{Dict}
use enterprise_databrick_fra.Metadata.Models.{TableSpec}
use enterprise_databrick_fra.Patterns.Contracts.{RuntimeContext}
use enterprise_databrick_fra.Pipelines.{Call}
use enterprise_databrick_fra.Runtime.Options.{source_relation}
use enterprise_databrick_fra.Runtime.Wiring.{IsWired}
use enterprise_databrick_fra.Runtime.Graphs.{stream_call, quarantine_call}

module _ (spec : TableSpec) (context : RuntimeContext) where
  -- The calls behind the source: Bronze, and quarantine if there is a rule and a table for it.
  abbrev IsBronzeGraph : (source bronze : String) → List Call → Type 0
  IsBronzeGraph source bronze calls =
      (calls ≡ stream_call spec context source bronze ∷ [])
      ⊎ ((target expression : String) × (calls
            ≡ stream_call spec context source bronze
              ∷ quarantine_call spec context bronze target expression
              ∷ []))

  -- What a handler with a source relation promises of its graph.
  abbrev pub WiredFromSource : List Call → Type 0
  WiredFromSource calls =
      (source : String) × (source_relation spec context ≡ ok source) × IsWired (source ∷ []) calls
