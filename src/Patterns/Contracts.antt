-- ===== src/Patterns/Contracts.antt =====
-- src/edp_framework/patterns/contracts.py. The pipelines module of a context is known by its answers
-- to calls; its Spark session is the engine behind the frames of `Pipelines`. The methods of a
-- provider are those of an extension package and are unknown.
use enterprise_databrick_fra.Prelude.{String, Option, List, Result}
use enterprise_databrick_fra.Prelude.Dict.{Dict}
use enterprise_databrick_fra.Prelude.Values.{Value}
use enterprise_databrick_fra.Metadata.Enums.{BronzeContract, SilverContract}
use enterprise_databrick_fra.Metadata.Models.{TableSpec}
use enterprise_databrick_fra.Pipelines.{Exec, Pipelines}

pub record PatternDefinition : Type 0 where
  pub id : String
  pub name : String
  pub bronze_contract : BronzeContract
  pub supported_silver_contracts : List SilverContract
  pub description : String
  pub implementation_hint : String

pub record RuntimeContext : Type 0 where
  pub environment : String
  pub catalog : String
  pub pipelines : Pipelines
  pub options : Dict Value

-- A class may lack `build_runtime`, or have an attribute of the name that cannot be called.
pub record PatternProvider : Type 0 where
  pub definitions : List PatternDefinition
  pub validate : TableSpec → Result (Unit {0})
  pub build_runtime : Option (TableSpec → RuntimeContext → Exec (Unit {0}))
