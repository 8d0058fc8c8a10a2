-- ===== src/Reconciliation/Measures/Counts.antt =====
-- The counts by category that `categorical_counts` gives, and the rows of the grouped count.

use text.Mathlib.TextEquality.{eq_iff}
use enterprise_databrick_fra.Prelude.{
  String, true, Option, none, some, List, [], ◌∷◌, ok, if◌then◌else◌, ◌==◌, string_eq, ◌≡◌, ◌≢◌,
  refl, ◌∙◌, arith, Each, Each-map,
}
use enterprise_databrick_fra.Prelude.Int.{ℤ}
use enterprise_databrick_fra.Prelude.Text.{is_identifier}
use enterprise_databrick_fra.Prelude.Dict.{Dict, get, put, get-put}
use enterprise_databrick_fra.Reconciliation.Measures.{
  Engine, table, group_count, safe_column, category_of, add_counts, insert_item, sort_items,
  categorical_counts,
}

abbrev pub CountRow : Type 0
CountRow = Option String × ℤ

-- The count of the last row of a category.
abbrev pub last_count : String → List CountRow → Option ℤ
last_count c [] = none
last_count c ((value, n) ∷ rows) = elim (last_count c rows) [
  | some m ↦ some m
  | none ↦ if c == category_of value then some n else none
]

get-insert_item :
    (j k : String) (n : ℤ) (d : Dict ℤ)
    → get j (insert_item k n d) ≡ (if j == k then some n else get j d)
unfolding get insert_item
get-insert_item j k n [] = refl
get-insert_item j k n ((i, m) ∷ d) = ground (arith, get-insert_item j k n d, eq_iff k i)

get-sort_items : (j : String) (d : Dict ℤ) → get j (sort_items d) ≡ get j d
unfolding get sort_items
get-sort_items j [] = refl
get-sort_items j ((k, n) ∷ d) =
    ground (arith, get-insert_item j k n (sort_items d), get-sort_items j d)

abbrev or_else : Option ℤ → Option ℤ → Option ℤ
or_else none o = o
or_else (some n) o = some n

or_else-none : (o : Option ℤ) → or_else o none ≡ o
or_else-none none = refl
or_else-none (some n) = refl

get-add_counts :
    (c : String) (rows : List CountRow) (d : Dict ℤ)
    → get c (add_counts rows d) ≡ or_else (last_count c rows) (get c d)
unfolding add_counts
get-add_counts c [] d = refl
get-add_counts c ((value, n) ∷ rows) d =
    ground (
      arith,
      get-add_counts c rows (put (category_of value) n d),
      get-put c (category_of value) n d,
    )

last_count_fresh :
    (c : String) (rows : List CountRow)
    → Each (λ r. category_of r.0 ≢ c) rows
    → last_count c rows ≡ none
last_count_fresh c [] each = refl
last_count_fresh c ((value, n) ∷ rows) each = ground (arith, last_count_fresh c rows each.1)

-- The rows have different categories.
abbrev pub DistinctRows : List CountRow → Type 0
DistinctRows [] = Unit
DistinctRows (r ∷ rows) = Each (λ q. category_of q.0 ≢ category_of r.0) rows × DistinctRows rows

last_count_behind :
    (c : String) (r : CountRow) (rows : List CountRow) (m : ℤ)
    → last_count c rows ≡ some m
    → last_count c (r ∷ rows) ≡ some m
last_count_behind c r rows m h = rw h refl

last_count-DistinctRows :
    (rows : List CountRow)
    → DistinctRows rows
    → Each (λ r. last_count (category_of r.0) rows ≡ some r.1) rows
last_count-DistinctRows [] d = tt
last_count-DistinctRows ((value, n) ∷ rows) d = (
  rw (last_count_fresh (category_of value) rows d.0) (ground arith),
  Each-map (λ q h. last_count_behind (category_of q.0) (value, n) rows q.1 h) rows
      (last_count-DistinctRows rows d.1),
)

get-counts :
    (c : String) (rows : List CountRow)
    → get c (sort_items (add_counts rows [])) ≡ last_count c rows
unfolding get
get-counts c rows =
    get-sort_items c (add_counts rows [])
    ∙ get-add_counts c rows []
    ∙ or_else-none (last_count c rows)

-- For a column that is an identifier, if the rows of the grouped count are collected, then
-- categorical_counts returns, and the count of a category is that of the last row with this
-- category, if there is one.
pub get-categorical_counts :
    (engine : Engine) (relation column : String) (rows : List CountRow)
    → is_identifier column ≡ true
    → engine.collect (group_count (column ∷ []) (table relation)) column ≡ ok rows
    → (counts : Dict ℤ) × (categorical_counts engine relation column ≡ ok counts)
      × ((c : String) → get c counts ≡ last_count c rows)
unfolding categorical_counts safe_column
get-categorical_counts engine relation column rows safe collected =
    (sort_items (add_counts rows []), rw (safe, collected) refl, λ c. get-counts c rows)

-- Where no two rows have the same category, each count is under the category of its row.
get-categorical_counts_distinct :
    (rows : List CountRow) (counts : Dict ℤ)
    → DistinctRows rows
    → ((c : String) → get c counts ≡ last_count c rows)
    → Each (λ r. get (category_of r.0) counts ≡ some r.1) rows
get-categorical_counts_distinct rows counts d law =
    Each-map (λ r found. law (category_of r.0) ∙ found) rows (last_count-DistinctRows rows d)
