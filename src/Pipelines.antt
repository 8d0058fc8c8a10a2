-- ===== src/Pipelines.antt =====
-- The boundary to `pyspark.pipelines` and Spark: what the package hands over to them, as values.
-- A function that is registered is known by its name and by the frame that its body builds; the
-- engine runs it later. The pipelines module is a parameter: it answers a call, after the calls it
-- took before, by returning or by raising. A registration is an action that adds to the calls that
-- were taken, whether it returns or raises.
use enterprise_databrick_fra.Prelude.{
  ℕ, String, Option, List, [], ◌∷◌, ◌++◌, Result, ok, err, Error,
}
use enterprise_databrick_fra.Prelude.Dict.{Dict}

-- The expression of a DataFrame.
pub data Frame : Type 0 where
  read_stream read : (relation : String) → Frame
  filter : Frame → (expression : String) → Frame
  with_watermark : Frame → (column delay : String) → Frame
  drop_duplicates_within_watermark : Frame → (columns : List String) → Frame
  transformed : (transform : String) → Frame → Frame

-- A registered function, with the expectations that decorate it, the last one outermost.
pub data Function : Type 0 where
  returns : (name : String) (body : Frame) → Function
  expect expect_or_fail : (name expression : String) → Function → Function

-- The sequencing of changes: one column, or a struct of several.
pub data Sequence : Type 0 where
  column : String → Sequence
  struct : List String → Sequence

pub record AutoCdc : Type 0 where
  pub target : String
  pub source : String
  pub keys : List String
  pub sequence_by : Sequence
  pub apply_as_deletes : Option String
  pub except_column_list : Option (List String)
  pub stored_as_scd_type : ℕ
  pub track_history_column_list : Option (List String)
  pub name : String

pub record SnapshotCdc : Type 0 where
  pub target : String
  pub source : String
  pub keys : List String
  pub stored_as_scd_type : ℕ
  pub track_history_column_list : Option (List String)

pub data Call : Type 0 where
  table materialized_view temporary_view : (name comment : String) → Function → Call
  create_streaming_table : (name comment : String) (table_properties : Option (Dict String)) → Call
  create_auto_cdc_flow : AutoCdc → Call
  create_auto_cdc_from_snapshot_flow : SnapshotCdc → Call

-- An action on the pipeline graph.
abbrev pub Exec : Type 0 → Type 0
Exec A = List Call → Result A × List Call

abbrev pub continue : {A B : Type 0} → Result A → (A → Exec B) → Exec B
continue (ok a) f calls = f a calls
continue (err e) f calls = (err e, calls)

infixl 5 ◌>>=◌ ◌>>◌
abbrev pub ◌>>=◌ : {A B : Type 0} → Exec A → (A → Exec B) → Exec B
◌>>=◌ m f calls = let (r, calls') = m calls in continue r f calls'

abbrev pub ◌>>◌ : {A B : Type 0} → Exec A → Exec B → Exec B
◌>>◌ m n calls = let (r, calls') = m calls in continue r (λ _. n) calls'

abbrev pub lift : {A : Type 0} → Result A → Exec A
lift r calls = (r, calls)

abbrev pub pure : {A : Type 0} → A → Exec A
pure a calls = (ok a, calls)

abbrev pub raise : {A : Type 0} → Error → Exec A
raise e calls = (err e, calls)

-- The pipelines module: its answer to a call, after the calls that it took before.
abbrev pub Pipelines : Type 0
Pipelines = List Call → Call → Result (Unit {0})

abbrev pub answered : Result (Unit {0}) → Call → Exec (Unit {0})
answered (ok u) call calls = (ok tt, calls ++ call ∷ [])
answered (err e) call calls = (err e, calls)

-- One call on the pipelines module. A call that it refuses raises and is not taken.
abbrev pub emit : Pipelines → Call → Exec (Unit {0})
emit pipelines call calls = answered (pipelines calls call) call calls
