-- ===== src/Reconciliation/Returns.antt =====
-- The steps of a rule that return: comparisons once the mode is known, and texts whatever their error.
use enterprise_databrick_fra.Prelude.{
  ℕ, ◌<◌, String, true, false, Option, List, Result, ok, err, Error, ◌>>=◌, ◌==◌, contains,
  string_eq, ◌≡◌, ◌⊎◌, inl, inr, refl, arith, Returns, Bool-cases, Option-cases,
}
use enterprise_databrick_fra.Prelude.Int.{ℤ, pos, ◌-ℤ◌, abs}
use enterprise_databrick_fra.Prelude.Dict.{Dict, get, values}
use enterprise_databrick_fra.Prelude.Values.{
  Value, str, list, nil, cons, null, bool, int, callable, other,
}
use enterprise_databrick_fra.Prelude.Double.{Double}
use enterprise_databrick_fra.Metadata.Models.{ReconciliationRule, TableSpec}
use enterprise_databrick_fra.Reconciliation.Contracts.{
  rule_kind_eq, keys_of, text_of, tolerance_mode, check_tolerance_mode, check_mode,
}
use enterprise_databrick_fra.Reconciliation.Engine.{
  Python, Measure, count, scalar, supported_rule_kinds, mode_of, str_of, compared_variance,
  numeric_result, categorical_result, distance, size, category_variance, sum, sum_abs,
}

-- The rule has a kind that the engine knows.
abbrev pub IsSupported : ReconciliationRule → Type 0
IsSupported rule = contains supported_rule_kinds rule.kind ≡ true

-- A run of steps that return returns.
pub >>=-Returns :
    {A B : Type 0} (step : Result A) (next : A → Result B)
    → Returns step
    → ((a : A) → Returns (next a))
    → Returns (step >>= next)
>>=-Returns (ok value) next r all = all value
>>=-Returns (err raised) next r all = cc r.1

-- The same, where the rest has to return for the value of the step alone.
pub >>=-Returns_at :
    {A B : Type 0} (step : Result A) (next : A → Result B)
    → Returns step
    → ((a : A) → step ≡ ok a → Returns (next a))
    → Returns (step >>= next)
>>=-Returns_at (ok value) next r all = all value refl
>>=-Returns_at (err raised) next r all = cc r.1

-- The conversions to floats return below a limit, such as 2 ^ 1023 in CPython.
abbrev pub FloatsReturn : Python → (limit : ℕ) → Type 0
FloatsReturn python limit = (n : ℤ) → abs n < limit → Returns (python.float_of n)

-- What is converted to compare two measures lies below the limit.
abbrev pub IsComparable : (limit : ℕ) → (expected actual : Measure) → Type 0
IsComparable limit (count e) (count a) = (abs (◌-ℤ◌ a e) < limit) × (abs e < limit)
IsComparable limit (count e) (scalar a) = abs e < limit
IsComparable limit (scalar e) (count a) = abs a < limit
IsComparable limit (scalar e) (scalar a) = Unit

-- The same of two lists of counts: the total of the differences and that of the expected counts.
abbrev pub AreComparable : (limit : ℕ) → (expected actual : Dict ℤ) → Type 0
AreComparable limit e a =
    (sum_abs (values (category_variance e a)) < limit) × (abs (sum (values e)) < limit)

pub keys_of-error :
    (e e' : Error) (v : Value) {keys : Option (List String)}
    → keys_of e v ≡ ok keys
    → keys_of e' v ≡ ok keys
keys_of-error e e' null h = h
keys_of-error e e' (bool _) h = cc
keys_of-error e e' (int _) h = cc
keys_of-error e e' (str _) h = cc
keys_of-error e e' (list nil) h = cc
keys_of-error e e' (list (cons v items)) h = ground arith
keys_of-error e e' (callable _) h = cc
keys_of-error e e' (other _ _ _) h = cc

pub text_of-error : (e e' : Error) (v : Value) → Returns (text_of e v) → Returns (text_of e' v)
text_of-error e e' null h = cc h.1
text_of-error e e' (bool _) h = cc h.1
text_of-error e e' (int _) h = cc h.1
text_of-error e e' (str s) h = ground arith
text_of-error e e' (list _) h = cc h.1
text_of-error e e' (callable _) h = cc h.1
text_of-error e e' (other _ _ _) h = cc h.1

module _ (python : Python) (limit : ℕ) (floats : FloatsReturn python limit)
    (rule : ReconciliationRule) where
  abbrev pub HasMode : Type 0
  HasMode = (mode_of python rule ≡ "absolute") ⊎ (mode_of python rule ≡ "relative")

  pub compared_variance-Returns :
      HasMode → (variance scale : Double) → Returns (compared_variance python rule variance scale)
  unfolding compared_variance
  compared_variance-Returns m variance scale =
      elim (Bool-cases (mode_of python rule == "absolute")) [
        | inl absolute ↦ (variance, ground arith)
        | inr differs ↦ (python.relative_to variance scale, ground arith)
      ]

  float_of-Returns : (n : ℕ) → n < limit → Returns (python.float_of (pos n))
  float_of-Returns n below = floats (pos n) (omega arith)

  pub distance-Returns :
      (expected actual : Measure)
      → IsComparable limit expected actual
      → Returns (distance python expected actual)
  distance-Returns (count e) (count a) r = float_of-Returns _ r.0
  distance-Returns (count e) (scalar a) r = >>=-Returns _ _ (floats _ r) (λ x. (_, refl))
  distance-Returns (scalar e) (count a) r = >>=-Returns _ _ (floats _ r) (λ x. (_, refl))
  distance-Returns (scalar e) (scalar a) r = (_, refl)

  pub size-Returns :
      (expected actual : Measure)
      → IsComparable limit expected actual
      → Returns (size python expected)
  size-Returns (count e) (count a) r = float_of-Returns _ r.1
  size-Returns (count e) (scalar a) r = float_of-Returns _ r
  size-Returns (scalar e) actual r = (_, refl)

  pub numeric_result-Returns :
      HasMode
      → (expected actual : Measure) → IsComparable limit expected actual
      → Returns (numeric_result python rule expected actual)
  unfolding numeric_result
  numeric_result-Returns m expected actual r =
      >>=-Returns _ _ (distance-Returns expected actual r) (λ v.
        >>=-Returns _ _ (size-Returns expected actual r)
          (λ s. >>=-Returns _ _ (compared_variance-Returns m v s) (λ c. (_, refl))))

  pub categorical_result-Returns :
      HasMode
      → (expected actual : Dict ℤ) → AreComparable limit expected actual
      → Returns (categorical_result python rule expected actual)
  unfolding categorical_result
  categorical_result-Returns m expected actual r = >>=-Returns _ _ (float_of-Returns _ r.0) (λ v.
      >>=-Returns _ _ (floats _ r.1)
        (λ s. >>=-Returns _ _ (compared_variance-Returns m v s) (λ c. (_, refl))))

  pub mode_given :
      (e : Error) (v : Value)
      → check_tolerance_mode e v ≡ ok tt
      → (str_of python v ≡ "absolute") ⊎ (str_of python v ≡ "relative")
  mode_given e (str s) h = ground arith
  mode_given e null h = cc
  mode_given e (bool _) h = cc
  mode_given e (int _) h = cc
  mode_given e (list _) h = cc
  mode_given e (callable _) h = cc
  mode_given e (other _ _ true) h = cc
  mode_given e (other _ _ false) h = cc

  pub mode_of_lem : mode_of python rule ≡ str_of python (tolerance_mode rule)
  mode_of_lem = elim (Option-cases (get "tolerance_mode" rule.options)) [
    | inl missing ↦ ground arith
    | inr (v, given) ↦ ground arith
  ]

  pub check_mode-HasMode : (spec : TableSpec) → check_mode spec rule ≡ ok tt → HasMode
  unfolding check_mode
  check_mode-HasMode spec h = ground (arith, mode_of_lem, mode_given _ (tolerance_mode rule) h)
