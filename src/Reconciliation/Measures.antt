-- ===== src/Reconciliation/Measures.antt =====
-- src/edp_framework/reconciliation/provider.py: the measures of `SparkMeasureProvider`. A frame is the
-- term that the calls build; what Spark computes from it is the argument `engine`, and nothing is
-- assumed of it.
pub mod Counts
pub mod Unsafe
pub mod Given
pub mod Safe
use enterprise_databrick_fra.Prelude.{
  ℕ, String, ◌<>◌, Bool, true, false, not, Option, none, some, List, [], ◌∷◌, ◌++◌, Result, ok, err,
  value_error, value_error_of, raise_if, ◌>>=◌, ◌>>◌, if◌then◌else◌,
}
use Prim.Native.Nat.{Ordering}
use Prim.Native.String.{compare}
use enterprise_databrick_fra.Prelude.Int.{ℤ}
use enterprise_databrick_fra.Prelude.Text.{is_identifier, is_blank}
use enterprise_databrick_fra.Prelude.Dict.{Dict, put}
use enterprise_databrick_fra.Prelude.Double.{Double}
use enterprise_databrick_fra.Metadata.Validators.{no_items}
use enterprise_databrick_fra.Reconciliation.Engine.{MeasureProvider}

-- A condition on columns.
pub data Condition : Type 0 where
  above : (column : String) → ℕ → Condition
  is_null : (column : String) → Condition
  greater : (column other : String) → Condition
  both either : Condition → Condition → Condition

-- Columns over the window of the keys, ordered by a column.
pub data WindowColumn : Type 0 where
  row_number : WindowColumn
  lag : (column : String) → WindowColumn

pub data Frame : Type 0 where
  table : (relation : String) → Frame
  select : List String → Frame → Frame
  select_expr : (expression : String) → Frame → Frame
  distinct : Frame → Frame
  left_anti : Frame → Frame → (on : List String) → Frame
  sql_where : (condition : String) → Frame → Frame
  where_holds : Condition → Frame → Frame
  group_count : (keys : List String) → Frame → Frame
  with_window :
      (name : String)
      → WindowColumn
      → (partition_by : List String) → (order_by : String) → Frame
      → Frame

-- The actions on a frame: `count()`; the first value of `first()` as a float, if there is a row and if
-- it is not NULL; and for each row of `collect()` the `str` of what it has under the column, if that
-- is not NULL, and the `int` of what it has under "count".
pub record Engine : Type 0 where
  pub count : Frame → Result ℤ
  pub first : Frame → Result (Option (Option Double))
  pub collect : Frame → (column : String) → Result (List (Option String × ℤ))

unfoldable pub safe_column : String → Result String
safe_column value = do
  raise_if (not (is_identifier value)) (value_error_of "unsafe reconciliation column" value)
  ok value

unfoldable pub safe_columns : List String → Result (List String)
safe_columns [] = ok []
safe_columns (key ∷ keys) = do
  column ← safe_column key
  columns ← safe_columns keys
  ok (column ∷ columns)

-- `if not keys: raise …`, and the columns of the keys.
unfoldable pub key_columns : (message : String) → List String → Result (List String)
key_columns message keys = do raise_if (no_items keys) (value_error message); safe_columns keys

abbrev pub given_value : (relation : String) → Option (Option Double) → Result Double
given_value relation (some (some value)) = ok value
given_value relation _ =
    err (value_error_of "aggregate reconciliation expression returned NULL for relation" relation)

-- `"<NULL>" if value is None else str(value)`
abbrev pub category_of : Option String → String
category_of none = "<NULL>"
category_of (some value) = value

-- The loop over the rows.
unfoldable pub add_counts : List (Option String × ℤ) → Dict ℤ → Dict ℤ
add_counts [] counts = counts
add_counts ((value, n) ∷ rows) counts = add_counts rows (put (category_of value) n counts)

unfoldable pub insert_item : String → ℤ → Dict ℤ → Dict ℤ
insert_item key n [] = (key, n) ∷ []
insert_item key n ((k, m) ∷ items) =
    let rest = insert_item key n items in
    elim (compare key k) [ Ordering.gt ↦ (k, m) ∷ rest | _ ↦ (key, n) ∷ (k, m) ∷ items ]

-- `sorted(counts.items())`; no two items have the same key.
unfoldable pub sort_items : Dict ℤ → Dict ℤ
sort_items [] = []
sort_items ((k, n) ∷ items) = insert_item k n (sort_items items)

module _ (engine : Engine) where
  unfoldable pub row_count : (relation : String) → Result ℤ
  row_count relation = engine.count (table relation)

  unfoldable pub distinct_key_count : (relation : String) → List String → Result ℤ
  distinct_key_count relation keys = do
    safe ← key_columns "distinct key reconciliation requires at least one key" keys
    engine.count (distinct (select safe (table relation)))

  unfoldable pub missing_key_count : (source target : String) → List String → Result ℤ
  missing_key_count source target keys = do
    safe ← key_columns "PK presence reconciliation requires at least one key" keys
    engine.count (
        left_anti (distinct (select safe (table source))) (distinct (select safe (table target)))
          safe)

  unfoldable pub numeric_scalar : (relation expression : String) → Result Double
  numeric_scalar relation expression = do
    raise_if (is_blank expression)
        (value_error "aggregate reconciliation requires a non-empty expression")
    row ← engine.first (
        select_expr ("CAST((" <> (expression <> ") AS DOUBLE) AS _reconciliation_value"))
          (table relation))
    given_value relation row

  unfoldable pub categorical_counts : (relation column : String) → Result (Dict ℤ)
  categorical_counts relation column = do
    safe ← safe_column column
    rows ← engine.collect (group_count (safe ∷ []) (table relation)) safe
    ok (sort_items (add_counts rows []))

  unfoldable pub current_duplicate_key_count :
      (relation : String) → List String → (end_column : String) → Result ℤ
  current_duplicate_key_count relation keys end_column = do
    safe ← key_columns "SCD2 current uniqueness requires at least one key" keys
    safe_end ← safe_column end_column
    engine.count (
        sql_where "count > 1"
          (group_count safe (sql_where ("`" <> (safe_end <> "` IS NULL")) (table relation))))

  unfoldable pub scd2_overlap_count :
      (relation : String) → List String → (start_column end_column : String) → Result ℤ
  scd2_overlap_count relation keys start_column end_column = do
    safe ← key_columns "SCD2 overlap reconciliation requires at least one key" keys
    safe_start ← safe_column start_column
    safe_end ← safe_column end_column
    engine.count (
        where_holds
          (both (above "_reconciliation_row_number" 1) (
            either (is_null "_reconciliation_previous_end")
              (greater "_reconciliation_previous_end" safe_start)))
          (with_window "_reconciliation_previous_end" (lag safe_end) safe safe_start (
            with_window "_reconciliation_row_number" row_number safe safe_start
              (select (safe ++ safe_start ∷ safe_end ∷ []) (table relation)))))

  -- `SparkMeasureProvider(spark)`
  abbrev pub spark_provider : MeasureProvider
  spark_provider = record {
    row_count = row_count;
    distinct_key_count = distinct_key_count;
    missing_key_count = missing_key_count;
    numeric_scalar = numeric_scalar;
    categorical_counts = categorical_counts;
    current_duplicate_key_count = current_duplicate_key_count;
    scd2_overlap_count = scd2_overlap_count;
  }
