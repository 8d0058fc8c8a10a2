-- ===== src/Reconciliation/Measures/Given.antt =====
-- What the contract leaves of the options: keys that are given, and texts that are not blank.
use enterprise_databrick_fra.Prelude.{
  String, false, Option, none, some, List, [], ◌∷◌, ok, Error, ◌≡◌, refl, ap, ◌∙◌, arith, >>=-eq-ok,
}
use enterprise_databrick_fra.Prelude.Text.{is_blank}
use enterprise_databrick_fra.Prelude.Values.{
  Value, Items, str, list, nil, cons, null, bool, int, callable, other, all_texts,
}
use enterprise_databrick_fra.Metadata.Validators.{no_items}
use enterprise_databrick_fra.Metadata.Models.{ReconciliationRule, TableSpec}
use enterprise_databrick_fra.Reconciliation.Contracts.{keys_of, text_of, not_blank, option}
use enterprise_databrick_fra.Reconciliation.Engine.{ReconciliationContext}
use enterprise_databrick_fra.Reconciliation.Evaluate.{
  keys_for, keys_or_default, required_expression,
}

all_texts_given :
    (v : Value) (items : Items) (names : List String)
    → all_texts not_blank (cons v items) ≡ some names
    → no_items names ≡ false
unfolding all_texts
all_texts_given (str s) items names h = ground arith
all_texts_given null items names h = cc
all_texts_given (bool _) items names h = cc
all_texts_given (int _) items names h = cc
all_texts_given (list _) items names h = cc
all_texts_given (callable _) items names h = cc
all_texts_given (other _ _ _) items names h = cc

keys_of_given :
    (e : Error) (v : Value) (names : List String)
    → keys_of e v ≡ ok (some names)
    → no_items names ≡ false
keys_of_given e (list (cons v items)) names h = ground (arith, all_texts_given v items names)
keys_of_given e (list nil) names h = cc
keys_of_given e (str _) names h = cc
keys_of_given e null names h = cc
keys_of_given e (bool _) names h = cc
keys_of_given e (int _) names h = cc
keys_of_given e (callable _) names h = cc
keys_of_given e (other _ _ _) names h = cc

text_of_given : (e : Error) (v : Value) (t : String) → text_of e v ≡ ok t → is_blank t ≡ false
text_of_given e (str s) t h = ground arith
text_of_given e (list _) t h = cc
text_of_given e null t h = cc
text_of_given e (bool _) t h = cc
text_of_given e (int _) t h = cc
text_of_given e (callable _) t h = cc
text_of_given e (other _ _ _) t h = cc

module _ (spec : TableSpec) (context : ReconciliationContext) where
  keys_or_default_given :
      (rule : ReconciliationRule) (context_keys : List String) (keys : List String)
      → (configured : Option (List String))
      → ((names : List String) → configured ≡ some names → no_items names ≡ false)
      → keys_or_default spec context_keys rule configured ≡ ok keys
      → no_items keys ≡ false
  keys_or_default_given rule context_keys keys (some names) given h =
      let same : names ≡ keys = ground arith in rw⁻¹ same (given names refl)
  keys_or_default_given rule [] keys none given h = ground arith
  keys_or_default_given rule (k ∷ ks) keys none given h = ground arith

  pub keys_for_given :
      (rule : ReconciliationRule) (keys : List String)
      → keys_for spec context rule ≡ ok keys
      → no_items keys ≡ false
  unfolding keys_for
  keys_for_given rule keys h =
      let (configured, e, h1) = >>=-eq-ok (keys_of _ (option "keys" rule.options)) _ h in
      keys_or_default_given rule context.business_keys keys configured
        (λ names same. keys_of_given _ (option "keys" rule.options) names (e ∙ ap ok same)) h1

  pub required_expression_given :
      (rule : ReconciliationRule) (expression : String)
      → required_expression spec rule ≡ ok expression
      → is_blank expression ≡ false
  unfolding required_expression
  required_expression_given rule expression h =
      text_of_given _ (option "expression" rule.options) expression h
