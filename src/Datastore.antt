-- ===== src/Datastore.antt =====
-- drivers/datastore/datastore.go: the driver over Google Datastore, whose client is a parameter.
use gocrud.Prelude.{ℕ, String, ◌<>◌, Bool, true, false, List, [], ◌∷◌, map}
use gocrud.Outcome.{Outcome, Fallible, value, error, err, lift, ◌>>=◌}
use gocrud.X.{Instruction}

-- The key of an entity, with its kind and name, and the incomplete key of a row below it.
pub record EntityKey : Type 0 where
  pub kind : String
  pub name : String

pub record RowKey : Type 0 where
  pub kind : String
  pub parent : EntityKey

-- `client` makes a client. `keys` is a query of at most so many keys of a kind below an ancestor, `rows` one
-- of all the rows.
pub record Cloud : Type 1 where
  pub Db : Type 0
  pub client : Db → Fallible (Unit {0})
  pub put_multi : List RowKey → List Instruction → Db → Fallible (Unit {0}) × Db
  pub keys : Db → String → EntityKey → ℕ → Fallible (List RowKey)
  pub rows : Db → String → EntityKey → Fallible (List Instruction)

unfoldable pub entity_key : String → String → EntityKey
entity_key table_prefix id = record { kind = table_prefix <> "Entity"; name = id }

unfoldable pub get_ikey : String → Instruction → RowKey
unfolding entity_key
get_ikey table_prefix i = record {
  kind = table_prefix <> "Instruction";
  parent = entity_key table_prefix i.subject_id;
}

module _ (C : Cloud) (table_prefix : String) where
  unfoldable pub commit : List Instruction → C.Db → Outcome (Unit {0}) × C.Db
  unfolding get_ikey
  commit its db = elim (C.client db) [
    | error e ↦ (err e, db)
    | value c ↦ let (o, db') = C.put_multi (map (get_ikey table_prefix) its) its db in (lift o, db')
  ]

  no_key : List RowKey → Bool
  no_key [] = true
  no_key (k ∷ ks) = false

  unfoldable pub is_new : C.Db → String → Bool
  unfolding entity_key no_key
  is_new db id = elim (C.client db) [
    | error e ↦ false
    | value c ↦ elim (C.keys db (table_prefix <> "Instruction") (entity_key table_prefix id) 1) [
      | error e ↦ false
      | value ks ↦ no_key ks
    ]
  ]

  unfoldable pub get_entity : C.Db → String → Outcome (List Instruction)
  unfolding entity_key
  get_entity db subject = do
    c ← lift (C.client db)
    lift (C.rows db (table_prefix <> "Instruction") (entity_key table_prefix subject))
