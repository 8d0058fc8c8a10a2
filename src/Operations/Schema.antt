-- ===== src/Operations/Schema.antt =====
-- When a row fits the columns of a control table: no column that is not declared, no value of another
-- type, and a value in each column that is NOT NULL.
use enterprise_databrick_fra.Prelude.{
  String, Bool, true, false, not, ◌&&◌, Option, none, some, List, [], ◌∷◌, map, contains, string_eq,
}
use enterprise_databrick_fra.Prelude.Dict.{get, keys}
use enterprise_databrick_fra.Session.{Cell, Row, null, text, number, flag, timestamp, entries}
use enterprise_databrick_fra.Operations.Tables.{SqlType, Column}

abbrev pub fits : SqlType → Cell → Bool
fits SqlType.string (text _) = true
fits SqlType.double (number _) = true
fits SqlType.boolean (flag _) = true
fits SqlType.timestamp (timestamp _) = true
fits SqlType.string_map (entries _) = true
fits _ _ = false

abbrev pub cell_conforms : Column → Option Cell → Bool
cell_conforms column none = not column.required
cell_conforms column (some null) = not column.required
cell_conforms column (some cell) = fits column.type cell

abbrev pub cells_conform : List Column → Row → Bool
cells_conform [] row = true
cells_conform (column ∷ columns) row =
    cell_conforms column (get column.name row) && cells_conform columns row

abbrev pub all_declared : List String → List String → Bool
all_declared names [] = true
all_declared names (key ∷ keys) = contains names key && all_declared names keys

abbrev pub conforms : List Column → Row → Bool
conforms columns row =
    cells_conform columns row && all_declared (map (λ c. c.name) columns) (keys row)
