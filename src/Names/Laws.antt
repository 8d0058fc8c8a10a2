-- ===== src/Names/Laws.antt =====
-- Which relations can be qualified, and that every runtime name is an identifier.

use text.Mathlib.TextLemmas.{nil-append, cons-append}
use enterprise_databrick_fra.Prelude.{
  String, ◌<>◌, true, List, [], ◌∷◌, ok, ◌≡◌, ◌↔◌, ◌⊎◌, inl, inr, refl, sym, ◌∙◌, arith, Bool-cases,
}
use enterprise_databrick_fra.Prelude.Text.{
  is_identifier, all_name_chars, split_dots, join, replace_others,
}
use enterprise_databrick_fra.Prelude.Text.Laws.{
  all_name_chars-replace_others, split_dots_name, split_dots-injective, split_dots-append,
  all_name_chars_identifier,
}
use enterprise_databrick_fra.Names.{qualify_relation, qualify_parts, runtime_name, starts_badly}

-- What a qualified relation is: two safe parts behind a safe catalog.
pub record Qualified (catalog relation full : String) : Type 0 where
  pub schema : String
  pub table : String
  pub catalog_safe : is_identifier catalog ≡ true
  pub schema_safe : is_identifier schema ≡ true
  pub table_safe : is_identifier table ≡ true
  pub relation_parts : split_dots relation ≡ schema ∷ table ∷ []
  pub full_text : full ≡ catalog <> ("." <> (schema <> ("." <> table)))

split_dots-join :
    (a b c : String)
    → is_identifier a ≡ true
    → is_identifier b ≡ true
    → is_identifier c ≡ true
    → split_dots (join "." (a ∷ b ∷ c ∷ [])) ≡ a ∷ b ∷ c ∷ []
unfolding join
split_dots-join a b c ha hb hc = rw (
  split_dots-append a _ (all_name_chars_identifier a ha),
  split_dots-append b _ (all_name_chars_identifier b hb),
  split_dots_name c (all_name_chars_identifier c hc),
)

qualify_parts_sound :
    (catalog relation full : String) (parts : List String)
    → split_dots relation ≡ parts
    → qualify_parts catalog relation parts ≡ ok full
    → Qualified catalog relation full
unfolding qualify_parts join
qualify_parts_sound catalog relation full (schema ∷ table ∷ []) e h = record {
  schema = schema;
  table = table;
  catalog_safe = ground arith;
  schema_safe = ground arith;
  table_safe = ground arith;
  relation_parts = e;
  full_text = ground arith;
}
qualify_parts_sound catalog relation full [] e h = ground arith
qualify_parts_sound catalog relation full (_ ∷ []) e h = ground arith
qualify_parts_sound catalog relation full (_ ∷ _ ∷ _ ∷ _) e h = ground arith

module _ (catalog relation : String) where
  qualify_relation_sound :
      (full : String)
      → qualify_relation catalog relation ≡ ok full
      → Qualified catalog relation full
  unfolding qualify_relation
  qualify_relation_sound full h =
      qualify_parts_sound catalog relation full (split_dots relation) refl h

  qualify_relation_complete :
      (full : String)
      → Qualified catalog relation full
      → qualify_relation catalog relation ≡ ok full
  unfolding qualify_relation join
  qualify_relation_complete full q =
      rw (q.relation_parts, qualify_parts)
        (rw (q.catalog_safe, q.schema_safe, q.table_safe) (rw q.full_text))

  -- A relation is qualified exactly when the catalog is an identifier and the relation is two
  -- identifiers joined by a dot; the result is the three names joined by dots.
  pub qualify_relation_iff :
      (full : String)
      → (qualify_relation catalog relation ≡ ok full) ↔ Qualified catalog relation full
  qualify_relation_iff full = (qualify_relation_sound full, qualify_relation_complete full)

  -- The parts of a qualified relation are the catalog and the parts of the relation.
  pub split_dots-qualify_relation :
      (full : String)
      → qualify_relation catalog relation ≡ ok full
      → split_dots full ≡ catalog ∷ split_dots relation
  unfolding join
  split_dots-qualify_relation full h =
      let q = qualify_relation_sound full h in
      rw (q.full_text, q.relation_parts)
        (split_dots-join catalog q.schema q.table q.catalog_safe q.schema_safe q.table_safe)

-- Two relations that are qualified to the same text are the same, and so are their catalogs.
pub qualify_relation-injective :
    (catalog catalog' relation relation' full : String)
    → qualify_relation catalog relation ≡ ok full
    → qualify_relation catalog' relation' ≡ ok full
    → (catalog ≡ catalog') × (relation ≡ relation')
qualify_relation-injective catalog catalog' relation relation' full h h' =
    let e : catalog ∷ split_dots relation ≡ catalog' ∷ split_dots relation' =
      sym (split_dots-qualify_relation catalog relation full h)
      ∙ split_dots-qualify_relation catalog' relation' full h' in
    (cc, split_dots-injective relation relation' (cc))

starts_badly-cases :
    (s : String) → all_name_chars s ≡ true → (starts_badly s ≡ true) ⊎ (is_identifier s ≡ true)
unfolding all_name_chars is_identifier
starts_badly-cases String.[] h = inl refl
starts_badly-cases (String.◌∷◌ c s) h = ground arith

edp_identifier : (s : String) → all_name_chars s ≡ true → is_identifier ("edp_" <> s) ≡ true
unfolding all_name_chars is_identifier
edp_identifier s h = rw (
  cons-append "e" "dp_" s,
  cons-append "d" "p_" s,
  cons-append "p" "_" s,
  cons-append "_" "" s,
  nil-append s,
  h,
)

-- Whatever the dataset is called, the name of its pipeline object is an identifier.
pub runtime_name-identifier :
    (dataset_id suffix : String) → is_identifier (runtime_name dataset_id suffix) ≡ true
unfolding runtime_name
runtime_name-identifier dataset_id suffix =
    let value = replace_others (dataset_id <> "_" <> suffix) in
    let safe = all_name_chars-replace_others (dataset_id <> "_" <> suffix) in
    elim (Bool-cases (starts_badly value)) [
      | inl bad ↦ rw bad (edp_identifier value safe)
      | inr good ↦ rw good (ground (arith, starts_badly-cases value safe))
    ]
