-- ===== src/Quality/Partition.antt =====
-- What the two filters keep. The texts that the package builds are read as SQL predicates, and those
-- are evaluated in SQL's three values; `holds` says how a rule's own expression evaluates on a row.
use enterprise_databrick_fra.Prelude.{
  String, ◌<>◌, some, Each, List, [], ◌∷◌, ◌≡◌, ◌≢◌, ◌↔◌, ◌⊎◌, refl, ap, arith,
}
use mathlib.Core.Option.{some-injective}
use enterprise_databrick_fra.Prelude.Text.{join}
use enterprise_databrick_fra.Metadata.Models.{QualityRule}
use enterprise_databrick_fra.Quality.{valid_expression, invalid_expression, parenthesized}

pub data Predicate : Type 0 where
  atom : String → Predicate
  negation : Predicate → Predicate
  both either : Predicate → Predicate → Predicate

-- How a predicate is written.
abbrev pub text : Predicate → String
text (atom e) = "(" <> (e <> ")")
text (negation p) = "NOT " <> text p
text (both p q) = text p <> (" AND " <> text q)
text (either p q) = text p <> (" OR " <> text q)

abbrev pub all_hold : QualityRule → List QualityRule → Predicate
all_hold rule [] = atom rule.expression
all_hold rule (r ∷ rules) = both (atom rule.expression) (all_hold r rules)

abbrev pub some_fails : QualityRule → List QualityRule → Predicate
some_fails rule [] = negation (atom rule.expression)
some_fails rule (r ∷ rules) = either (negation (atom rule.expression)) (some_fails r rules)

valid_expression-all_hold :
    (rule : QualityRule) (rules : List QualityRule)
    → valid_expression (rule ∷ rules) ≡ some (text (all_hold rule rules))
unfolding valid_expression join
valid_expression-all_hold rule [] = refl
valid_expression-all_hold rule (r ∷ rules) =
    ap (λ t. some (parenthesized rule <> (" AND " <> t)))
      (some-injective _ _ (valid_expression-all_hold r rules))

invalid_expression-some_fails :
    (rule : QualityRule) (rules : List QualityRule)
    → invalid_expression (rule ∷ rules) ≡ some (text (some_fails rule rules))
unfolding invalid_expression join
invalid_expression-some_fails rule [] = refl
invalid_expression-some_fails rule (r ∷ rules) =
    ap (λ t. some (("NOT " <> parenthesized rule) <> (" OR " <> t)))
      (some-injective _ _ (invalid_expression-some_fails r rules))

-- SQL's three values.
pub data Truth : Type 0 where
  holds fails unknown : Truth

abbrev pub negate : Truth → Truth
negate holds = fails
negate fails = holds
negate unknown = unknown

abbrev pub conjoin : Truth → Truth → Truth
conjoin fails b = fails
conjoin holds b = b
conjoin unknown fails = fails
conjoin unknown holds = unknown
conjoin unknown unknown = unknown

abbrev pub disjoin : Truth → Truth → Truth
disjoin a b = negate (conjoin (negate a) (negate b))

conjoin-fails_iff :
    (a b : Truth) {S : Type 0} → ((b ≡ fails) ↔ S) → ((conjoin a b ≡ fails) ↔ ((a ≡ fails) ⊎ S))
conjoin-fails_iff holds holds h = ground arith
conjoin-fails_iff holds fails h = ground arith
conjoin-fails_iff holds unknown h = ground arith
conjoin-fails_iff fails holds h = ground arith
conjoin-fails_iff fails fails h = ground arith
conjoin-fails_iff fails unknown h = ground arith
conjoin-fails_iff unknown holds h = ground arith
conjoin-fails_iff unknown fails h = ground arith
conjoin-fails_iff unknown unknown h = ground arith

conjoin-unknown_iff :
    (a b : Truth) {S U : Type 0}
    → ((b ≡ fails) ↔ S)
    → ((b ≡ unknown) ↔ (U × (¬ S)))
    → ((conjoin a b ≡ unknown) ↔ (((a ≡ unknown) ⊎ U) × (¬ ((a ≡ fails) ⊎ S))))
conjoin-unknown_iff holds holds f u = ground arith
conjoin-unknown_iff holds fails f u = ground arith
conjoin-unknown_iff holds unknown f u = ground arith
conjoin-unknown_iff fails holds f u = ground arith
conjoin-unknown_iff fails fails f u = ground arith
conjoin-unknown_iff fails unknown f u = ground arith
conjoin-unknown_iff unknown holds f u = ground arith
conjoin-unknown_iff unknown fails f u = ground arith
conjoin-unknown_iff unknown unknown f u = ground arith

module _ (row : String → Truth) where
  abbrev pub evaluate : Predicate → Truth
  evaluate (atom e) = row e
  evaluate (negation p) = negate (evaluate p)
  evaluate (both p q) = conjoin (evaluate p) (evaluate q)
  evaluate (either p q) = disjoin (evaluate p) (evaluate q)

  some_fails-all_hold :
      (rule : QualityRule) (rules : List QualityRule)
      → evaluate (some_fails rule rules) ≡ negate (evaluate (all_hold rule rules))
  some_fails-all_hold rule [] = refl
  some_fails-all_hold rule (r ∷ rules) = ground (arith, some_fails-all_hold r rules)

  all_hold_iff :
      (rule : QualityRule) (rules : List QualityRule)
      → (evaluate (all_hold rule rules) ≡ holds)
        ↔ Each (λ r. row r.expression ≡ holds) (rule ∷ rules)
  all_hold_iff rule [] = ground arith
  all_hold_iff rule (r ∷ rules) = ground (arith, all_hold_iff r rules)

  -- Some rule of the list has the value.
  abbrev pub Some : Truth → List QualityRule → Type 0
  Some v [] = ⊥
  Some v (r ∷ rules) = (row r.expression ≡ v) ⊎ Some v rules

  fails_iff :
      (rule : QualityRule) (rules : List QualityRule)
      → (evaluate (all_hold rule rules) ≡ fails) ↔ Some fails (rule ∷ rules)
  fails_iff rule [] = ground arith
  fails_iff rule (r ∷ rules) = conjoin-fails_iff _ _ (fails_iff r rules)

  unknown_iff :
      (rule : QualityRule) (rules : List QualityRule)
      → (evaluate (all_hold rule rules) ≡ unknown)
        ↔ (Some unknown (rule ∷ rules) × (¬ (Some fails (rule ∷ rules))))
  unknown_iff rule [] = ground arith
  unknown_iff rule (r ∷ rules) = conjoin-unknown_iff _ _ (fails_iff r rules) (unknown_iff r rules)

  -- Of the rules of a non-empty list, the first filter is the conjunction and the second one is the
  -- disjunction of the negations; the first holds on a row exactly when every rule holds there, and
  -- the second one evaluates to the negation of the first.
  pub filters_complementary :
      (rule : QualityRule) (rules : List QualityRule)
      → let valid = all_hold rule rules in
        let invalid = some_fails rule rules in
        (valid_expression (rule ∷ rules) ≡ some (text valid))
        × (invalid_expression (rule ∷ rules) ≡ some (text invalid))
        × ((evaluate valid ≡ holds) ↔ Each (λ r. row r.expression ≡ holds) (rule ∷ rules))
        × (evaluate invalid ≡ negate (evaluate valid))
  filters_complementary rule rules = (
    valid_expression-all_hold rule rules,
    invalid_expression-some_fails rule rules,
    all_hold_iff rule rules,
    some_fails-all_hold rule rules,
  )

  -- A row passes neither of the two filters of a non-empty list of rules exactly when some rule is
  -- NULL on it and no rule is false.
  pub filters_lose_null :
      (rule : QualityRule) (rules : List QualityRule)
      → let valid = all_hold rule rules in
        let invalid = some_fails rule rules in
        (valid_expression (rule ∷ rules) ≡ some (text valid))
        × (invalid_expression (rule ∷ rules) ≡ some (text invalid))
        × (((evaluate valid ≢ holds) × (evaluate invalid ≢ holds))
            ↔ (Some unknown (rule ∷ rules) × (¬ (Some fails (rule ∷ rules)))))
  filters_lose_null rule rules = (
    valid_expression-all_hold rule rules,
    invalid_expression-some_fails rule rules,
    ground (arith, unknown_iff rule rules, some_fails-all_hold rule rules),
  )
