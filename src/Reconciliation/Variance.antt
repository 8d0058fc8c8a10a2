-- ===== src/Reconciliation/Variance.antt =====
-- The categorical variance of two counts by category.
use enterprise_databrick_fra.Prelude.{
  String, true, false, List, [], ◌∷◌, ◌++◌, ◌==◌, contains, string_eq, ◌≡◌, ◌↔◌, inl, inr, refl,
  sym, ◌∙◌, arith, Bool-cases, ◌||◌, ==_iff,
}
use enterprise_databrick_fra.Prelude.Int.{ℤ, pos, ◌-ℤ◌, abs}
use enterprise_databrick_fra.Prelude.Text.Sorted.{contains-sorted}
use enterprise_databrick_fra.Prelude.Dict.{Dict, get, keys, values}
use enterprise_databrick_fra.Reconciliation.Engine.{
  count_of, distinct, categories, variances, category_variance, sum_abs,
}

abs-sub : (a e : ℤ) → (abs (◌-ℤ◌ a e) ≡ 0) ↔ (a ≡ e)
unfolding ◌-ℤ◌
abs-sub a e = ground arith

contains-append :
    (c : String) (xs ys : List String) → contains (xs ++ ys) c ≡ (contains xs c || contains ys c)
contains-append c [] ys = refl
contains-append c (x ∷ xs) ys = ground (arith, contains-append c xs ys)

contains-distinct : (c : String) (xs : List String) → contains (distinct xs) c ≡ contains xs c
unfolding distinct
contains-distinct c [] = refl
contains-distinct c (x ∷ xs) = ground (arith, contains-distinct c xs)

-- A category without a key counts as zero.
count_of_missing : (c : String) (d : Dict ℤ) → contains (keys d) c ≡ false → count_of c d ≡ pos 0
unfolding get
count_of_missing c [] h = refl
count_of_missing c ((k, n) ∷ d) h = ground (arith, count_of_missing c d)

module _ (expected actual : Dict ℤ) where
  contains-categories :
      (c : String)
      → contains (categories expected actual) c
        ≡ (contains (keys expected) c || contains (keys actual) c)
  unfolding categories
  contains-categories c =
      contains-sorted c (distinct (keys expected ++ keys actual))
      ∙ contains-distinct c (keys expected ++ keys actual)
      ∙ contains-append c (keys expected) (keys actual)

  sum_abs-variances :
      (cs : List String)
      → sum_abs (values (variances expected actual cs)) ≡ 0
      → (c : String) → contains cs c ≡ true
      → count_of c actual ≡ count_of c expected
  sum_abs-variances [] h c m = absurd (cc m)
  sum_abs-variances (x ∷ cs) h c m = elim (Bool-cases (c == x)) [
    | inl here ↦
        let same = (abs-sub (count_of x actual) (count_of x expected)).0 (ground arith) in
        rw ((==_iff c x).0 here) same
    | inr elsewhere ↦ sum_abs-variances cs (ground arith) c (ground arith)
  ]

  sum_abs_zero :
      (cs : List String)
      → ((c : String) → count_of c actual ≡ count_of c expected)
      → sum_abs (values (variances expected actual cs)) ≡ 0
  sum_abs_zero [] same = refl
  sum_abs_zero (x ∷ cs) same =
      let here = (abs-sub (count_of x actual) (count_of x expected)).1 (same x) in
      rw (here, sum_abs_zero cs same) refl

  -- The variances by category add up to zero, in absolute values, exactly when every category,
  -- listed or not, counts as much in one relation as in the other.
  pub category_variance_zero_iff :
      (sum_abs (values (category_variance expected actual)) ≡ 0)
      ↔ ((c : String) → count_of c actual ≡ count_of c expected)
  unfolding category_variance
  category_variance_zero_iff = (
    λ h c. elim (Bool-cases (contains (categories expected actual) c)) [
      | inl listed ↦ sum_abs-variances (categories expected actual) h c listed
      | inr missing ↦
          let none_listed = sym (contains-categories c) ∙ missing in
          count_of_missing c actual (ground arith)
          ∙ sym (count_of_missing c expected (ground arith))
    ],
    sum_abs_zero (categories expected actual),
  )
