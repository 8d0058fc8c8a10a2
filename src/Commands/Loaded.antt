-- ===== src/Commands/Loaded.antt =====
-- Which tables `load_table_specs` gives.
use enterprise_databrick_fra.Prelude.{
  String, false, List, [], ◌∷◌, ◌++◌, ok, contains, string_eq, ◌≡◌, ◌≢◌, ◌↔◌, refl, sym, ap, ◌∙◌,
  arith, Each, >>=-eq-ok, raise_if-eq-ok,
}
use mathlib.Core.List.{append-nil, append_assoc}
use enterprise_databrick_fra.Metadata.Models.{TableSpec}
use enterprise_databrick_fra.Commands.{
  Files, load_table_spec, table_files, load_each, load_table_specs,
}

-- The id is none of these.
abbrev pub IsNew : List String → TableSpec → Type 0
IsNew seen spec = contains seen spec.dataset_id ≡ false

-- No two tables have the same id.
abbrev pub Distinct : List TableSpec → Type 0
Distinct [] = Unit
Distinct (spec ∷ specs) = Each (λ later. later.dataset_id ≢ spec.dataset_id) specs × Distinct specs

IsNew-cons :
    (k j : String) (seen : List String)
    → (contains (k ∷ seen) j ≡ false) ↔ ((j ≢ k) × (contains seen j ≡ false))
IsNew-cons k j seen = ground arith

module _ (files : Files) where
  -- Each file loads, to the table in its place.
  abbrev pub Loads : List String → List TableSpec → Type 0
  Loads [] [] = Unit
  Loads (file ∷ rest) (spec ∷ specs) = (load_table_spec files file ≡ ok spec) × Loads rest specs
  Loads _ _ = ⊥

  Each-IsNew :
      (first : TableSpec) (seen : List String) (specs : List TableSpec)
      → Each (IsNew (first.dataset_id ∷ seen)) specs
        ↔ (Each (λ later. later.dataset_id ≢ first.dataset_id) specs × Each (IsNew seen) specs)
  Each-IsNew first seen [] = (λ h. (tt, tt), λ h. tt)
  Each-IsNew first seen (spec ∷ specs) = (
    λ h.
        let (differ, new) = (Each-IsNew first seen specs).0 h.1 in
        let (apart, fresh) = (IsNew-cons first.dataset_id spec.dataset_id seen).0 h.0 in
        ((apart, differ), (fresh, new)),
    λ h. (
      (IsNew-cons first.dataset_id spec.dataset_id seen).1 (h.0.0, h.1.0),
      (Each-IsNew first seen specs).1 (h.0.1, h.1.1),
    ),
  )

  load_each_sound :
      (paths : List String) (specs : List TableSpec) (seen : List String) (all : List TableSpec)
      → load_each files paths specs seen ≡ ok all
      → (found : List TableSpec) × (all ≡ specs ++ found)
        × Loads paths found
        × Each (IsNew seen) found
        × Distinct found
  unfolding load_each
  load_each_sound [] specs seen all h = ([], (ground arith) ∙ sym (append-nil specs), tt, tt, tt)
  load_each_sound (path ∷ paths) specs seen all h =
      let (spec, e, h1) = >>=-eq-ok (load_table_spec files path) _ h in
      let (new, h2) = raise_if-eq-ok (contains seen spec.dataset_id) _ _ h1 in
      let (found, same, loads, each, distinct) =
        load_each_sound paths (specs ++ spec ∷ []) (spec.dataset_id ∷ seen) all h2 in
      let (differ, news) = (Each-IsNew spec seen found).0 each in
      (
        spec ∷ found,
        same ∙ append_assoc specs (spec ∷ []) found,
        (e, loads),
        (new, news),
        (differ, distinct),
      )

  load_each_complete :
      (paths : List String) (found specs : List TableSpec) (seen : List String)
      → Loads paths found
      → Each (IsNew seen) found
      → Distinct found
      → load_each files paths specs seen ≡ ok (specs ++ found)
  unfolding load_each
  load_each_complete [] [] specs seen loads new distinct = ap ok (sym (append-nil specs))
  load_each_complete [] (spec ∷ found) specs seen loads new distinct = absurd loads
  load_each_complete (path ∷ paths) [] specs seen loads new distinct = absurd loads
  load_each_complete (path ∷ paths) (spec ∷ found) specs seen loads new distinct =
      rw (loads.0, new.0)
        (load_each_complete paths found (specs ++ spec ∷ []) (spec.dataset_id ∷ seen) loads.1
            ((Each-IsNew spec seen found).1 (distinct.0, new.1)) distinct.1
          ∙ ap ok (append_assoc specs (spec ∷ []) found))

  all-IsNew : (specs : List TableSpec) → Each (IsNew []) specs
  all-IsNew [] = tt
  all-IsNew (spec ∷ specs) = (refl, all-IsNew specs)

  -- load_table_specs returns these tables exactly when each file of the path, in order, loads to
  -- the table in its place and no two of them have the same id.
  pub load_table_specs_iff :
      (root : String) (specs : List TableSpec)
      → (load_table_specs files root ≡ ok specs)
        ↔ (Loads (table_files files root) specs × Distinct specs)
  unfolding load_table_specs
  load_table_specs_iff root specs = (
    λ h.
        let (found, same, loads, new, distinct) =
          load_each_sound (table_files files root) [] [] specs h in
        rw same (loads, distinct),
    λ h. load_each_complete (table_files files root) specs [] [] h.0 (all-IsNew specs) h.1,
  )
