-- ===== src/Names.antt =====
-- src/edp_framework/runtime/names.py: relations under a catalog, and names of pipeline objects.
pub mod Laws
use enterprise_databrick_fra.Prelude.{
  String, ◌<>◌, Bool, true, false, not, ◌&&◌, ◌||◌, List, [], ◌∷◌, Result, ok, err, value_error,
  value_error_of, if◌then◌else◌,
}
use enterprise_databrick_fra.Prelude.Text.{is_identifier, split_dots, join, replace_others, between}
use Prim.Native.Char.{code}

abbrev all_identifiers : List String → Bool
all_identifiers [] = true
all_identifiers (part ∷ parts) = is_identifier part && all_identifiers parts

-- `parts` are those of `relation`, of which there must be two.
qualify_parts : (catalog relation : String) (parts : List String) → Result String
qualify_parts catalog relation (schema ∷ table ∷ []) =
    if not (is_identifier catalog) || not (all_identifiers (schema ∷ table ∷ []))
    then err (value_error ("unsafe Unity Catalog relation: " <> catalog <> "." <> relation))
    else ok (join "." (catalog ∷ schema ∷ table ∷ []))
qualify_parts catalog relation _ =
    err (value_error_of "relation must be schema.table, got " relation)

unfoldable pub qualify_relation : (catalog relation : String) → Result String
unfolding qualify_parts
qualify_relation catalog relation = qualify_parts catalog relation (split_dots relation)

-- `not value or value[0].isdigit()`; the value holds ASCII characters only.
abbrev starts_badly : String → Bool
starts_badly String.[] = true
starts_badly (String.◌∷◌ c s) = between 48 57 (code c)

unfoldable pub runtime_name : (dataset_id suffix : String) → String
runtime_name dataset_id suffix =
    let value = replace_others (dataset_id <> "_" <> suffix) in
    if starts_badly value then "edp_" <> value else value
