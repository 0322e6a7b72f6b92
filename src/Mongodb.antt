-- ===== src/Mongodb.antt =====
-- drivers/mongodb/mongodb.go: the driver over a MongoDB collection, whose calls are parameters.
pub mod Swallowed
use gocrud.Prelude.{ℕ, zero, suc, String, Bool, true, false, List, [], ◌∷◌}
use gocrud.Outcome.{Outcome, Fallible, value, error, ok, lift}
use gocrud.X.{Instruction}

pub record Collection : Type 1 where
  pub Db : Type 0
  pub insert : Instruction → Db → Fallible (Unit {0}) × Db
  pub count_subject : Db → String → Fallible ℕ
  pub find_subject : Db → String → Fallible (List Instruction)

module _ (C : Collection) where
  -- The error of an insert is logged, and nil is returned.
  unfoldable pub commit : List Instruction → C.Db → Outcome (Unit {0}) × C.Db
  commit [] db = (ok tt, db)
  commit (i ∷ its) db =
      let (o, db') = C.insert i db in elim o [ error e ↦ (ok tt, db') | value u ↦ commit its db' ]

  unfoldable pub is_new : C.Db → String → Bool
  is_new db subject = elim (C.count_subject db subject) [
    | error e ↦ false
    | value i ↦ elim i [ zero ↦ true | suc n ↦ false ]
  ]

  unfoldable pub get_entity : C.Db → String → Outcome (List Instruction)
  get_entity db subject = lift (C.find_subject db subject)
