-- ===== src/Session.antt =====
-- The boundary to a Spark session: the calls that the package makes on it, over a state of the
-- lakehouse that is unknown. A call may raise, and it leaves a state also where it raises. A row is
-- what the package hands to `createDataFrame`.
use enterprise_databrick_fra.Prelude.{ℕ, String, Bool, List, Result, ok, err}
use enterprise_databrick_fra.Prelude.Dict.{Dict}
use enterprise_databrick_fra.Prelude.Double.{Double}

pub data Cell : Type 0 where
  null : Cell
  text : String → Cell
  number : Double → Cell
  flag : Bool → Cell
  timestamp : ℕ → Cell
  entries : Dict String → Cell

abbrev pub Row : Type 0
Row = Dict Cell

-- An action on the state.
abbrev pub Run : Type 0 → Type 0 → Type 0
Run S A = S → Result A × S

abbrev pub continue : {S A B : Type 0} → Result A → (A → Run S B) → Run S B
continue (err e) f s = (err e, s)
continue (ok a) f s = f a s

infixl 5 ◌>>=◌ ◌>>◌
abbrev pub ◌>>=◌ : {S A B : Type 0} → Run S A → (A → Run S B) → Run S B
◌>>=◌ m f s = let (r, s') = m s in continue r f s'

abbrev pub ◌>>◌ : {S A B : Type 0} → Run S A → Run S B → Run S B
◌>>◌ m n s = let (r, s') = m s in continue r (λ _. n) s'

abbrev pub lift : {S A : Type 0} → Result A → Run S A
lift r s = (r, s)

abbrev pub pure : {S A : Type 0} → A → Run S A
pure a s = (ok a, s)

-- `sql` is `spark.sql(statement)`, `append` is
-- `spark.createDataFrame(rows).write.mode("append").saveAsTable(table)`, and `table_exists` is
-- `spark.catalog.tableExists(name)`, which reads the state.
pub record Session : Type 1 where
  pub State : Type 0
  pub sql : (statement : String) → Run State (Unit {0})
  pub append : (table : String) → List Row → Run State (Unit {0})
  pub table_exists : State → (name : String) → Result Bool
