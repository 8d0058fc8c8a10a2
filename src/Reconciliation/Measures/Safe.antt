-- ===== src/Reconciliation/Measures/Safe.antt =====
-- The evaluation of a table on Spark, where the names in its rules are identifiers.
use enterprise_databrick_fra.Prelude.{
  ◌++◌, Result, ℕ, String, ◌<>◌, true, false, ◌||◌, Option, some, List, [], ◌∷◌, ok, ◌≡◌, refl,
  Each, Returns,
}
use enterprise_databrick_fra.Prelude.Text.{is_identifier, is_blank}
use enterprise_databrick_fra.Prelude.Int.{ℤ, pos}
use enterprise_databrick_fra.Prelude.Dict.{Dict}
use enterprise_databrick_fra.Prelude.Double.{Double}
use enterprise_databrick_fra.Metadata.Validators.{no_items}
use enterprise_databrick_fra.Metadata.Models.{RuleKind, ReconciliationRule, TableSpec}
use enterprise_databrick_fra.Reconciliation.Contracts.{validate_reconciliation_contract}
use enterprise_databrick_fra.Reconciliation.Engine.{
  count, Python, ReconciliationContext, str_option,
}
use enterprise_databrick_fra.Reconciliation.Evaluate.{
  keys_for, required_expression, required_operation_column, evaluate_reconciliation,
}
use enterprise_databrick_fra.Reconciliation.Returns.{
  IsSupported, FloatsReturn, IsComparable, AreComparable,
}
use enterprise_databrick_fra.Reconciliation.Complete.{IsMeasured, evaluate_reconciliation-Returns}
use enterprise_databrick_fra.Reconciliation.Measures.{
  Engine, Frame, safe_column, safe_columns, key_columns, row_count, distinct_key_count,
  missing_key_count, numeric_scalar, categorical_counts, current_duplicate_key_count,
  scd2_overlap_count, spark_provider,
}
use enterprise_databrick_fra.Reconciliation.Measures
use enterprise_databrick_fra.Reconciliation.Measures.Given.{
  keys_for_given, required_expression_given,
}

abbrev pub IsName : String → Type 0
IsName name = is_identifier name ≡ true

safe_columns_names : (keys : List String) → Each IsName keys → safe_columns keys ≡ ok keys
unfolding safe_columns safe_column
safe_columns_names [] names = refl
safe_columns_names (k ∷ keys) names = rw (names.0, safe_columns_names keys names.1) refl

key_columns_names :
    (message : String) (keys : List String)
    → no_items keys ≡ false
    → Each IsName keys
    → key_columns message keys ≡ ok keys
unfolding key_columns
key_columns_names message keys given names = rw (given, safe_columns_names keys names) refl

safe_column_name : (name : String) → IsName name → safe_column name ≡ ok name
unfolding safe_column
safe_column_name name is = rw is refl

-- The rows of a relation that overlap the one before them under the same keys.
abbrev pub overlap_frame : (relation : String) → List String → (start end : String) → Frame
overlap_frame relation keys start end =
    Measures.where_holds
      (Measures.both (Measures.above "_reconciliation_row_number" 1) (
        Measures.either (Measures.is_null "_reconciliation_previous_end")
          (Measures.greater "_reconciliation_previous_end" start)))
      (Measures.with_window "_reconciliation_previous_end" (Measures.lag end) keys start (
        Measures.with_window "_reconciliation_row_number" Measures.row_number keys start
          (Measures.select (keys ++ start ∷ end ∷ []) (Measures.table relation))))

module _ (python : Python) (spec : TableSpec) (context : ReconciliationContext) where
  abbrev Keyed : ReconciliationRule → Type 0
  Keyed rule = (keys : List String) → keys_for spec context rule ≡ ok keys → Each IsName keys

  -- The names that a rule of a kind puts into frames are identifiers.
  abbrev pub IsNamed : ReconciliationRule → RuleKind → Type 0
  IsNamed rule RuleKind.key_count = Keyed rule
  IsNamed rule RuleKind.pk_presence = Keyed rule
  IsNamed rule RuleKind.operation_count =
      (column : String) → required_operation_column spec rule ≡ ok column → IsName column
  IsNamed rule RuleKind.scd2_current_uniqueness =
      Keyed rule × IsName (str_option python rule "end_column" "__END_AT")
  IsNamed rule RuleKind.scd2_no_overlap =
      Keyed rule
      × IsName (str_option python rule "start_column" "__START_AT")
      × IsName (str_option python rule "end_column" "__END_AT")
  IsNamed rule _ = Unit

  module _ (engine : Engine) (limit : ℕ) where
    -- Spark counts two frames, and the counts can be compared.
    abbrev pub Counts : Frame → Frame → Type 0
    Counts expected actual =
        (e : ℤ) × (a : ℤ) × (engine.count expected ≡ ok e)
        × (engine.count actual ≡ ok a)
        × IsComparable limit (count e) (count a)

    -- Spark counts a frame, and the count can be compared with none.
    abbrev pub CountsBad : Frame → Type 0
    CountsBad actual =
        (a : ℤ) × (engine.count actual ≡ ok a) × IsComparable limit (count (pos 0)) (count a)

    -- The distinct keys of a relation.
    abbrev pub key_frame : (keys : List String) → (relation : String) → Frame
    key_frame keys relation = Measures.distinct (Measures.select keys (Measures.table relation))

    -- The value of an expression over a relation.
    abbrev pub HasValue : (expression relation : String) → Type 0
    HasValue expression relation =
        (x : Double) × (engine.first (
            Measures.select_expr
              ("CAST((" <> (expression <> ") AS DOUBLE) AS _reconciliation_value"))
              (Measures.table relation))
          ≡ ok (some (some x)))

    -- The groups of a column of a relation.
    abbrev pub groups : (column relation : String) → Result (List (Option String × ℤ))
    groups column relation =
        engine.collect (Measures.group_count (column ∷ []) (Measures.table relation)) column

    abbrev pub counts_of : List (Option String × ℤ) → Dict ℤ
    counts_of rows = Measures.sort_items (Measures.add_counts rows [])

    -- Spark answers the actions that a rule of a kind takes, on its own frames.
    abbrev pub IsAnswered : ReconciliationRule → RuleKind → Type 0
    IsAnswered rule RuleKind.row_count =
        Counts (Measures.table context.source_relation) (Measures.table context.target_relation)
    IsAnswered rule RuleKind.key_count =
        (keys : List String)
        → keys_for spec context rule ≡ ok keys
        → Counts (key_frame keys context.source_relation) (key_frame keys context.target_relation)
    IsAnswered rule RuleKind.pk_presence =
        (keys : List String)
        → keys_for spec context rule ≡ ok keys
        → CountsBad (
            Measures.left_anti (key_frame keys context.source_relation)
              (key_frame keys context.target_relation) keys)
    IsAnswered rule RuleKind.aggregate =
        (expression : String)
        → required_expression spec rule ≡ ok expression
        → HasValue expression context.source_relation × HasValue expression context.target_relation
    IsAnswered rule RuleKind.operation_count =
        (column : String)
        → required_operation_column spec rule ≡ ok column
        → (e : List (Option String × ℤ)) × (a : List (Option String × ℤ)) × (groups column
              context.source_relation
            ≡ ok e)
          × (groups column context.target_relation ≡ ok a)
          × AreComparable limit (counts_of e) (counts_of a)
    IsAnswered rule RuleKind.scd2_current_uniqueness =
        (keys : List String)
        → keys_for spec context rule ≡ ok keys
        → CountsBad (
            Measures.sql_where "count > 1" (
              Measures.group_count keys (
                Measures.sql_where
                  ("`" <> (str_option python rule "end_column" "__END_AT" <> "` IS NULL"))
                  (Measures.table context.target_relation))))
    IsAnswered rule RuleKind.scd2_no_overlap =
        (keys : List String)
        → keys_for spec context rule ≡ ok keys
        → CountsBad (
            overlap_frame context.target_relation keys
              (str_option python rule "start_column" "__START_AT")
              (str_option python rule "end_column" "__END_AT"))
    IsAnswered rule _ = Unit

    IsNamed-IsMeasured :
        (rule : ReconciliationRule) (kind : RuleKind)
        → IsNamed rule kind
        → IsAnswered rule kind
        → IsMeasured python spec context (spark_provider engine) limit rule kind
    unfolding row_count distinct_key_count missing_key_count numeric_scalar categorical_counts
        current_duplicate_key_count scd2_overlap_count
    IsNamed-IsMeasured rule RuleKind.row_count named answers = answers
    IsNamed-IsMeasured rule RuleKind.key_count named answers = λ keys found.
        rw
          (key_columns_names _ keys (keys_for_given spec context rule keys found)
            (named keys found))
          (answers keys found)
    IsNamed-IsMeasured rule RuleKind.pk_presence named answers = λ keys found.
        rw
          (key_columns_names _ keys (keys_for_given spec context rule keys found)
            (named keys found))
          (let (a, e, near) = answers keys found in (pos 0, a, refl, e, near))
    IsNamed-IsMeasured rule RuleKind.aggregate named answers = λ expression found.
        let ((x, e), (y, f)) = answers expression found in
        rw (required_expression_given spec context rule expression found, e, f)
          ((x, refl), (y, refl))
    IsNamed-IsMeasured rule RuleKind.operation_count named answers = λ column found.
        let (x, y, e, f, near) = answers column found in
        rw (safe_column_name column (named column found), e, f)
          (counts_of x, counts_of y, refl, refl, near)
    IsNamed-IsMeasured rule RuleKind.scd2_current_uniqueness named answers = λ keys found.
        rw
          (
            key_columns_names _ keys (keys_for_given spec context rule keys found)
                (named.0 keys found),
            safe_column_name _ named.1,
          )
          (let (a, e, near) = answers keys found in (pos 0, a, refl, e, near))
    IsNamed-IsMeasured rule RuleKind.scd2_no_overlap named answers = λ keys found.
        rw
          (
            key_columns_names _ keys (keys_for_given spec context rule keys found)
                (named.0 keys found),
            safe_column_name _ named.1,
            safe_column_name _ named.2,
          )
          (let (a, e, near) = answers keys found in (pos 0, a, refl, e, near))
    IsNamed-IsMeasured rule RuleKind.hash named answers = tt
    IsNamed-IsMeasured rule RuleKind.source_position named answers = tt
    IsNamed-IsMeasured rule RuleKind.custom named answers = tt

    AreNamed-AreMeasured :
        (rules : List ReconciliationRule)
        → Each (λ rule. IsNamed rule rule.kind) rules
        → Each (λ rule. IsAnswered rule rule.kind) rules
        → Each
            (λ rule. IsMeasured python spec context (spark_provider engine) limit rule rule.kind)
            rules
    AreNamed-AreMeasured [] named answers = tt
    AreNamed-AreMeasured (rule ∷ rules) named answers = (
      IsNamed-IsMeasured rule rule.kind named.0 answers.0,
      AreNamed-AreMeasured rules named.1 answers.1,
    )

    -- If the contract of the rules was accepted and the engine knows their kinds, the keys and
    -- columns that they name are identifiers, the cutoff is given, conversions to floats return
    -- below a limit, and Spark answers, for each rule, the counts, groups and values of the frames
    -- that the rule is evaluated on, with a value other than NULL for an expression and numbers
    -- below that limit, then the evaluation with the Spark provider returns a report.
    pub evaluate_reconciliation_safe :
        (run_id : Option String) (fresh_id : String) (started ended : ℕ)
        → FloatsReturn python limit
        → validate_reconciliation_contract spec ≡ ok tt
        → Each IsSupported spec.reconciliation.rules
        → Each (λ rule. IsNamed rule rule.kind) spec.reconciliation.rules
        → Each (λ rule. IsAnswered rule rule.kind) spec.reconciliation.rules
        → (is_blank context.cutoff_type || is_blank context.cutoff_value) ≡ false
        → Returns (
            evaluate_reconciliation python spec context
              (spark_provider engine)
              run_id
              fresh_id
              started
              ended)
    evaluate_reconciliation_safe run_id fresh_id started ended floats valid known named answers
          cutoff =
        evaluate_reconciliation-Returns python spec context (spark_provider engine) limit floats
          run_id fresh_id started ended valid known
          (AreNamed-AreMeasured spec.reconciliation.rules named answers) cutoff
