-- ===== src/Prelude/Text/Order.antt =====
-- The order of texts by their code points, as `<=` of Python's `str`.
use Prim.Native.Char.{Char, code}
use Prim.Native.Nat.{ℕ, Ordering, compare as compare_ℕ}
use Prim.Native.String.compare
use Prim.Native.String.{String, compare, then}
use mathlib.Core.Path.{◌≡◌, sym, ap, ◌∙◌}
use mathlib.Core.Bool.{Bool, true, false}
use native.Mathlib.Omega.{arith}

abbrev not_gt : Ordering → Bool
not_gt Ordering.gt = false
not_gt _ = true

-- `s <= t`
unfoldable pub le_text : String → String → Bool
le_text s t = not_gt (compare s t)

then_total :
    (m n : ℕ) (o p : Ordering)
    → (not_gt o ≡ false → not_gt p ≡ true)
    → not_gt (then (compare_ℕ m n) o) ≡ false
    → not_gt (then (compare_ℕ n m) p) ≡ true
then_total m n o p h = ground arith

-- The comparison by its cases.
nil-le : (t : String) → le_text String.[] t ≡ true
unfolding le_text
nil-le String.[] = ap not_gt (compare.nil-nil)
nil-le (String.◌∷◌ d t) = ap not_gt (compare.nil-cons d t)

cons-le-nil : (c : Char) (s : String) → le_text (String.◌∷◌ c s) String.[] ≡ false
unfolding le_text
cons-le-nil c s = ap not_gt (compare.cons-nil c s)

cons-le-cons :
    (c d : Char) (s t : String)
    → le_text (String.◌∷◌ c s) (String.◌∷◌ d t)
      ≡ not_gt (then (compare_ℕ (code c) (code d)) (compare s t))
unfolding le_text
cons-le-cons c d s t = ap not_gt (compare.cons-cons c d s t)

pub le_text_total : (s t : String) → le_text s t ≡ false → le_text t s ≡ true
unfolding le_text
le_text_total String.[] t h = cc (nil-le t)
le_text_total (String.◌∷◌ c s) String.[] h = nil-le _
le_text_total (String.◌∷◌ c s) (String.◌∷◌ d t) h =
    cons-le-cons d c t s
    ∙ then_total (code c) (code d) _ _ (le_text_total s t) (sym (cons-le-cons c d s t) ∙ h)

then_trans :
    (l m n : ℕ) (o p q : Ordering)
    → (not_gt o ≡ true → not_gt p ≡ true → not_gt q ≡ true)
    → not_gt (then (compare_ℕ l m) o) ≡ true
    → not_gt (then (compare_ℕ m n) p) ≡ true
    → not_gt (then (compare_ℕ l n) q) ≡ true
then_trans l m n o p q ih h k = ground arith

pub le_text_trans : (s t u : String) → le_text s t ≡ true → le_text t u ≡ true → le_text s u ≡ true
unfolding le_text
le_text_trans String.[] t u h k = nil-le u
le_text_trans (String.◌∷◌ c s) String.[] u h k = cc (cons-le-nil c s)
le_text_trans (String.◌∷◌ c s) (String.◌∷◌ d t) String.[] h k = cc (cons-le-nil d t)
le_text_trans (String.◌∷◌ c s) (String.◌∷◌ d t) (String.◌∷◌ e u) h k =
    cons-le-cons c e s u
    ∙ then_trans (code c) (code d) (code e) _ _ _ (le_text_trans s t u)
        (sym (cons-le-cons c d s t) ∙ h) (sym (cons-le-cons d e t u) ∙ k)
