-- ===== src/Prelude/Errors.antt =====
-- Python exceptions as values. The text of an exception is the formatted message; a value that the
-- source formats by `!r` stands beside the text, as it is.
use Prim.Native.String.{String}
use mathlib.Core.Path.{◌≡◌, refl, ◌∙◌}
use mathlib.Core.Option.{Option, none, some}
use mathlib.Core.Logic.{◌⊎◌, inl, inr, ◌↔◌}
use mathlib.Core.Bool.{Bool, true, false}
use mathlib.Core.List.{List, [], ◌∷◌}

pub data Error : Type 0 where
  value_error type_error key_error not_implemented_error runtime_error assertion_error :
      String → Error
  value_error_of : (message shown : String) → Error
  -- What pydantic reports of a field whose declared bound is not met.
  validation_error : (field : String) → Error

pub data Result {ℓ} (A : Type ℓ) : Type ℓ where
  ok : A → Result A
  err : Error → Result A

-- `if b: raise e`
abbrev pub raise_if : Bool → Error → Result (Unit {0})
raise_if true e = err e
raise_if false e = ok tt

-- The steps behind one that returned; an exception ends the run.
infixl 5 ◌>>=◌ ◌>>◌
abbrev pub ◌>>=◌ {ℓ κ} : {A : Type ℓ} {B : Type κ} → Result A → (A → Result B) → Result B
err raised >>= next = err raised
ok value >>= next = next value

abbrev pub ◌>>◌ {ℓ κ} : {A : Type ℓ} {B : Type κ} → Result A → Result B → Result B
step >> next = step >>= λ _. next

-- `for x in xs: f(x)`
unfoldable pub for_each {ℓ} : {A : Type ℓ} → (A → Result (Unit {0})) → List A → Result (Unit {0})
for_each f [] = ok tt
for_each f (x ∷ xs) = f x >> for_each f xs

-- Inversion of a step that returned.
pub >>=-eq-ok {ℓ κ} :
    {A : Type ℓ} {B : Type κ} (step : Result A) (next : A → Result B) {returned : B}
    → (step >>= next) ≡ ok returned
    → (a : A) × (step ≡ ok a) × (next a ≡ ok returned)
>>=-eq-ok (err raised) next h = cc
>>=-eq-ok (ok value) next h = (value, refl, h)

pub raise_if-eq-ok {ℓ} :
    {B : Type ℓ} (b : Bool) (e : Error) (k : Result B) {r : B}
    → (raise_if b e >> k) ≡ ok r
    → (b ≡ false) × (k ≡ ok r)
raise_if-eq-ok true e k h = cc
raise_if-eq-ok false e k h = (refl, h)

pub Result-cases {ℓ} :
    {A : Type ℓ} (r : Result A) → ((a : A) × (r ≡ ok a)) ⊎ ((e : Error) × (r ≡ err e))
Result-cases (ok a) = inl (a, refl)
Result-cases (err e) = inr (e, refl)

-- The step returned something.
abbrev pub Returns {ℓ} : {A : Type ℓ} → Result A → Type ℓ
Returns {A = A} m = (a : A) × (m ≡ ok a)

pub >>-eq-ok {ℓ κ} :
    {A : Type ℓ} {B : Type κ} (m : Result A) (k : Result B) {b : B}
    → (m >> k) ≡ ok b
    → Returns m × (k ≡ ok b)
>>-eq-ok (ok a) k h = ((a, refl), h)
>>-eq-ok (err e) k h = cc

pub >>-returned {ℓ κ} :
    {A : Type ℓ} {B : Type κ} {m : Result A} (k : Result B) → Returns m → (m >> k) ≡ k
>>-returned k (a, e) = rw e

-- The property holds of the value, if one is given.
abbrev pub WhenGiven {ℓ κ} : {A : Type ℓ} → (A → Type κ) → Option A → Type κ
WhenGiven P none = Unit
WhenGiven P (some a) = P a

abbrev pub Each {ℓ κ} : {A : Type ℓ} → (A → Type κ) → List A → Type κ
Each P [] = Unit
Each P (x ∷ xs) = P x × Each P xs

module _ {ℓ κ μ} {A : Type ℓ} {P : A → Type κ} {Q : A → Type μ} (f : (x : A) → P x → Q x) where
  pub Each-map : (xs : List A) → Each P xs → Each Q xs
  Each-map [] h = tt
  Each-map (x ∷ xs) h = (f x h.0, Each-map xs h.1)

-- A loop returns exactly when every round does.
pub for_each_iff {ℓ} :
    {A : Type ℓ} (f : A → Result (Unit {0})) (xs : List A)
    → Returns (for_each f xs) ↔ Each (λ x. Returns (f x)) xs
unfolding for_each
for_each_iff f [] = (λ r. tt, λ h. (tt, refl))
for_each_iff f (x ∷ xs) = (
  λ (u, e). let (r, rest) = >>-eq-ok (f x) _ e in (r, (for_each_iff f xs).0 (u, rest)),
  λ h. let (u, e) = (for_each_iff f xs).1 h.1 in (u, >>-returned _ h.0 ∙ e),
)
