-- ===== src/Cassandra.antt =====
-- drivers/cassandra/cassandra.go: the driver over a Cassandra session, whose statements are parameters.
pub mod Pages
use gocrud.Prelude.{
  ℕ, zero, suc, String, Bool, true, false, Option, none, some, List, [], ◌∷◌, ◌++◌, length, leb,
  if◌then◌else◌,
}
use gocrud.Outcome.{Outcome, Fallible, value, error, ok, err, halt, pending, ◌>>=◌}
use gocrud.X.{Entity, same_entity, Instruction}

-- What an iterator scans, and what its `Close` returns.
pub record Scanned (A : Type 0) : Type 0 where
  pub rows : List A
  pub failure : Option String

-- `ids` is the statement of `IsNew`, `select` that of `GetEntity`, and `page` that of `Iterate`: kinds and ids of
-- at most so many rows after an id. `execute_batch` runs a batch of inserts.
pub record Session : Type 1 where
  pub Db : Type 0
  pub ids : Db → String → Scanned String
  pub select : Db → String → Scanned Instruction
  pub page : Db → String → ℕ → Scanned Entity
  pub execute_batch : List Instruction → Db → Fallible (Unit {0}) × Db

module _ (C : Session) where
  scanned_new : List String → Bool
  scanned_new [] = true
  scanned_new (sid ∷ sids) = false

  unfoldable pub is_new : C.Db → String → Bool
  unfolding scanned_new
  is_new db subject =
      let iter = C.ids db subject in
      elim iter.failure [ none ↦ scanned_new iter.rows | some e ↦ false ]

  -- An error of the batch is logged, and nil is returned.
  unfoldable pub commit : List Instruction → C.Db → Outcome (Unit {0}) × C.Db
  commit its db = let (o, db') = C.execute_batch its db in (ok tt, db')

  unfoldable pub get_entity : C.Db → String → Outcome (List Instruction)
  get_entity db subject =
      let iter = C.select db subject in elim iter.failure [ none ↦ ok iter.rows | some e ↦ err e ]

  -- What `Iterate` has sent, in order, which are the entities of `handled`, and the last entity scanned.
  pub record Paged : Type 0 where
    pub entities : List Entity
    pub last : Entity

  unfoldable pub is_handled : Entity → List Entity → Bool
  is_handled e [] = false
  is_handled e (f ∷ fs) = if same_entity e f then true else is_handled e fs

  unfoldable pub scan : ℕ → List Entity → Paged → Paged
  unfolding is_handled
  scan num [] p = p
  scan num (e ∷ es) p =
      let skip = scan num es (record p { last = e }) in
      let next = scan num es (record { entities = p.entities ++ e ∷ []; last = e }) in
      if is_handled e p.entities
      then skip
      else if leb num (suc (length p.entities))
      then record { entities = p.entities ++ e ∷ []; last = e }
      else next

  -- The entities sent to the channel, and the three results.
  unfoldable pub iterate : C.Db → String → ℕ → List Entity × Outcome (ℕ × Entity)
  unfolding scan
  iterate db from_id num =
      let iter = C.page db from_id num in
      let p = scan num iter.rows (record { entities = []; last = record { kind = ""; id = "" } }) in
      elim iter.failure [
        | none ↦ (p.entities, ok (length p.entities, p.last))
        | some e ↦ (p.entities, err e)
      ]
