-- ===== src/Lib.antt =====
-- Enterprise Databricks Framework: tables described by metadata, the patterns that say how a table
-- moves from its source through Bronze to Silver, and the pipelines that are registered for them.
--
-- A table is a `TableSpec`. Its construction runs the contracts of its parts and the contract across
-- them (Metadata). A registry holds the built-in patterns and those of extensions (Patterns); it
-- validates a table against its pattern and against the contract of its reconciliation rules, and
-- hands it to the runtime of the pattern. The built-in runtime (Runtime) qualifies the relations
-- (Names), decorates the functions with the quality rules (Quality) and registers tables, views and
-- flows with the pipelines engine (Pipelines). Later the reconciliation rules are evaluated on the
-- relations, by measures that Spark takes, and the report is written to control tables
-- (Reconciliation). The control tables are created, checked and filled with evidence of releases by
-- tasks that run on a cluster (Operations); Session is what all of these use of Spark. The command
-- `edp` loads the tables of a path, validates them with the registry, and lists the patterns
-- (Commands). Extension is the template of a package with one more pattern.
--
-- Files, and the sources under src/edp_framework/ that they model:
--   Prelude         exceptions as values, Python's texts, dicts and sorting; no file of its own
--   Metadata        metadata/models.py: Enums and Models the data, Validators the validators,
--                   Construct the construction; Coherent and the files below Construct prove
--   Names           runtime/names.py: `qualify_relation`, `runtime_name`
--   Quality         quality/expectations.py; Quality/Partition reads the filters as SQL predicates
--   Reconciliation  Contracts is reconciliation/contracts.py, Engine and Evaluate are models.py and
--                   engine.py beside it, Measures and Audit are provider.py and audit.py; Returns,
--                   Complete, Status and Variance, and the files below Measures and Audit, prove
--   Patterns        Contracts, Builtins and Registry are patterns/contracts.py, builtins.py and
--                   registry.py; below Builtins and Registry stand the proofs
--   Pipelines       the boundary to pyspark.pipelines: calls, frames and functions as values
--   Runtime         runtime/builtin.py: Options the option readers, Contract
--                   `validate_builtin_runtime_contract`, Register the helpers and handlers, Handlers
--                   the dispatch; Wiring, Graphs, Wired, Deletes, Failures and Snapshots prove
--   Session         the boundary to Spark: `sql`, an append to a table, `tableExists`
--   Operations      operations/: Tables and ControlTables are control_tables.py, ReleaseHistory and
--                   ReleaseSmoke the files of these names; Tasks has the `main` functions of
--                   databricks_tasks/; Schema says when a row fits a table; Ready and the files
--                   below ReleaseHistory prove
--   Commands        metadata/loader.py, metadata/validation.py and cli.py; Loaded, Validated and
--                   Listing prove
--   Extension       templates/pattern-extension/src/company_pattern_extension/, from the root
--                   of the repository; Refusal proves
--   Tests           samples, runs and the theorems at concrete tables
--
-- An operation that raises returns an `err`; one that changes the registry, the pipeline graph or
-- the lakehouse also returns what it leaves, so that partial effects are visible. A private function
-- `_f` of the source is `f` here. Integers are the mathematical ones, as in Python. The one
-- recursion on fuel is `decimal`, given n + 1 steps for the digits of n.
--
-- Not modelled: pydantic's reading of raw values into the declared types, and the gathering of
-- several reports into one exception (the first report stands); the run of the pipelines engine and
-- of Spark (a registered function is its name and the frame that its body builds; a measure is the
-- frame that its calls build, and its answer an argument; the state of the lakehouse is unknown and
-- its laws are hypotheses; the pipelines module is a field of the runtime context that answers a
-- call by returning or raising, and a call that it refuses is not added to the graph); the methods
-- of extension providers, which are unknown functions; files and YAML, which are a record of
-- functions; argparse. The engine of reconciliation takes the readings of the clock, new ids and
-- what it uses of floats as arguments. `str.isdigit` goes by the digit table of Unicode 14.
pub mod Prelude
pub mod Metadata
pub mod Names
pub mod Pipelines
pub mod Quality
pub mod Reconciliation
pub mod Patterns
pub mod Runtime
pub mod Session
pub mod Operations
pub mod Commands
pub mod Extension
pub mod Tests
