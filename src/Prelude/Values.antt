-- ===== src/Prelude/Values.antt =====
-- The values of `dict[str, Any]`: what YAML and the callers of the package put into options.

use Prim.Native.String.{String}
use mathlib.Core.Bool.{Bool, true, false, not}
use mathlib.Core.Option.{Option, none, some}
use mathlib.Core.List.{List, [], ◌∷◌}
use enterprise_databrick_fra.Prelude.Int.{ℤ, pos, negsuc}
use enterprise_databrick_fra.Prelude.Tests.{is_zero}
use enterprise_databrick_fra.Prelude.Text.{is_empty}

mutual
  -- `other` is an object of any further class (a float, a dict, a date): its `str`, its truth value
  -- and whether it can be hashed. A callable is known by a name.
  pub data Value : Type 0 where
    null : Value
    bool : Bool → Value
    int : ℤ → Value
    str : String → Value
    list : Items → Value
    callable : String → Value
    other : (text : String) (truth hashable : Bool) → Value

  pub data Items : Type 0 where
    nil : Items
    cons : Value → Items → Items

-- `if value`
unfoldable pub truthy : Value → Bool
truthy null = false
truthy (bool b) = b
truthy (int (pos n)) = not (is_zero n)
truthy (int (negsuc n)) = true
truthy (str s) = not (is_empty s)
truthy (list nil) = false
truthy (list (cons _ _)) = true
truthy (callable _) = true
truthy (other _ truth _) = truth

-- The items of a list all of whose items are texts that pass the test, or none.
unfoldable pub all_texts : (String → Bool) → Items → Option (List String)
all_texts test nil = some []
all_texts test (cons (str s) items) = elim (test s) [
  | true ↦ elim (all_texts test items) [ none ↦ none | some rest ↦ some (s ∷ rest) ]
  | false ↦ none
]
all_texts test (cons _ items) = none
