-- ===== src/Prelude/Text/Sorted.antt =====
-- Sorting keeps the members of a list of texts.

use Prim.Native.String.{String}
use mathlib.Core.Path.{◌≡◌, refl, ap, ◌∙◌}
use mathlib.Core.Bool.{◌||◌}
use mathlib.Core.List.{List, [], ◌∷◌}
use native.Mathlib.Omega.{arith}
use enterprise_databrick_fra.Prelude.Tests.{◌==◌, contains, string_eq}
use enterprise_databrick_fra.Prelude.Text.{insert_sorted, sorted}

contains-insert_sorted :
    (c s : String) (ts : List String) → contains (insert_sorted s ts) c ≡ (c == s || contains ts c)
unfolding insert_sorted
contains-insert_sorted c s [] = refl
contains-insert_sorted c s (t ∷ ts) = ground (arith, contains-insert_sorted c s ts)

-- Sorting keeps the members.
pub contains-sorted : (c : String) (ts : List String) → contains (sorted ts) c ≡ contains ts c
unfolding sorted
contains-sorted c [] = refl
contains-sorted c (t ∷ ts) =
    contains-insert_sorted c t (sorted ts) ∙ ap (λ b. c == t || b) (contains-sorted c ts)
