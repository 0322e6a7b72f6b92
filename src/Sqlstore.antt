-- ===== src/Sqlstore.antt =====
-- drivers/sqlstore/sql.go: the driver over database/sql, whose statements are parameters.
pub mod Inserts
pub mod Table
pub mod Statements
use gocrud.Prelude.{◌≡◌, refl, String, Bool, true, false, Option, none, some, List, [], ◌∷◌, ◌++◌}
use gocrud.Outcome.{Outcome, Fallible, value, error, ok, err, lift, ◌>>=◌}
use gocrud.X.{Instruction}

-- What `rows` goes over: each `Scan`, and `rows.Err()` at the end.
pub record Rows (A : Type 0) : Type 0 where
  pub scans : List (Fallible A)
  pub failure : Option String

-- `insert` is the prepared statement, `ids` the query of IsNew and `select` that of GetEntity.
pub record Sql : Type 1 where
  pub Db : Type 0
  pub insert : Instruction → Db → Fallible (Unit {0}) × Db
  pub ids : Db → String → Fallible (Rows String)
  pub select : Db → String → Fallible (Rows Instruction)

module _ (L : Sql) where
  -- The loop of `IsNew`; `none` is its early return.
  unfoldable pub scan_ids : List (Fallible String) → Bool → Option Bool
  scan_ids [] is_new = some is_new
  scan_ids (value sub ∷ scans) is_new = scan_ids scans false
  scan_ids (error e ∷ scans) is_new = none

  unfoldable pub answer : Option Bool → Option String → Bool
  answer none failure = false
  answer (some is_new) none = is_new
  answer (some is_new) (some e) = false

  unfoldable pub is_new : L.Db → String → Bool
  unfolding scan_ids answer
  is_new db subject = elim (L.ids db subject) [
    | error e ↦ false
    | value rows ↦ answer (scan_ids rows.scans true) rows.failure
  ]

  -- A row that cannot be inserted ends the loop; the rows before it stay.
  unfoldable pub commit : List Instruction → L.Db → Outcome (Unit {0}) × L.Db
  commit [] db = (ok tt, db)
  commit (it ∷ its) db =
      let (o, db') = L.insert it db in elim o [ error e ↦ (err e, db') | value u ↦ commit its db' ]

  unfoldable pub scan_rows : List (Fallible Instruction) → Outcome (List Instruction)
  scan_rows [] = ok []
  scan_rows (scan ∷ scans) = do i ← lift scan; rest ← scan_rows scans; ok (i ∷ rest)

  unfoldable pub ended : Option String → List Instruction → Outcome (List Instruction)
  ended none its = ok its
  ended (some e) its = err e

  unfoldable pub get_entity : L.Db → String → Outcome (List Instruction)
  unfolding scan_rows ended
  get_entity db subject = do
    rows ← lift (L.select db subject)
    its ← scan_rows rows.scans
    ended rows.failure its
