-- ===== src/Rethinkdb.antt =====
-- drivers/rethinkdb/rethink.go: the driver over a RethinkDB table, whose queries are parameters.
use gocrud.Prelude.{String, Bool, true, false, not, Option, none, some, List, if◌then◌else◌}
use gocrud.Outcome.{Outcome, Fallible, value, error, ok, err, lift, ◌>>=◌}
use gocrud.X.{Instruction}

-- A cursor: whether it is nil, what `All` reads, and what `Close` returns.
pub record Cursor : Type 0 where
  pub is_nil : Bool
  pub all : Fallible (List Instruction)
  pub failure : Option String

-- `by_key` gets a document by the primary key, `by_subject` all of the index "SubjectId".
pub record Table : Type 1 where
  pub Db : Type 0
  pub by_key : Db → String → Fallible Cursor
  pub by_subject : Db → String → Fallible Cursor
  pub insert : List Instruction → Db → Fallible (Unit {0}) × Db

closed : {A : Type 0} → Option String → A → Outcome A
closed none a = ok a
closed (some e) a = err e

module _ (T : Table) where
  -- Both branches of the test of the cursor leave `isnew` true.
  unfoldable pub is_new : T.Db → String → Bool
  is_new db subject = elim (T.by_key db subject) [
    | error e ↦ false
    | value iter ↦
        let isnew = if not iter.is_nil then true else true in
        elim iter.failure [ none ↦ isnew | some e ↦ false ]
  ]

  -- An error is logged, and nil is returned.
  unfoldable pub commit : List Instruction → T.Db → Outcome (Unit {0}) × T.Db
  commit its db = let (o, db') = T.insert its db in (ok tt, db')

  unfoldable pub get_entity : T.Db → String → Outcome (List Instruction)
  unfolding closed
  get_entity db subject = do
    iter ← lift (T.by_subject db subject)
    result ← lift iter.all
    closed iter.failure result
