-- ===== src/Leveldb.antt =====
-- drivers/leveldb/leveldb.go: the driver that keeps instructions in LevelDB, over the database, gob and
-- the random generator as parameters.
pub mod Rows
pub mod Endless
pub mod Prefixes
use gocrud.Prelude.{
  ℕ, zero, suc, ◌+◌, String, ◌<>◌, ◌==◌, Bool, true, false, Option, none, some, List, [], ◌∷◌, ◌++◌,
  leb, length, if◌then◌else◌,
}
use gocrud.Outcome.{Outcome, Fallible, value, error, ok, err, halt, pending, lift, ◌>>=◌}
use gocrud.X.{Entity, same_entity, Instruction}
use gocrud.X.Codec.{Gob, gob_encode, gob_decode}
use gocrud.X.UniqueString.{Rand, unique_string}

abbrev pub Bytes : Type 0
Bytes = List ℕ

-- What an iterator walks over: the values, which may be nil, in the order of their keys, and its error.
pub record Iterator : Type 0 where
  pub values : List (Option Bytes)
  pub failure : Option String

-- `write` is a batch of puts. `by_prefix` walks the keys with a prefix, and `from` those not below one.
pub record LevelDb : Type 1 where
  pub Db : Type 0
  pub has : Db → String → Fallible Bool
  pub write : List (String × Bytes) → Db → Fallible (Unit {0}) × Db
  pub by_prefix : Db → String → Iterator
  pub from : Db → String → Iterator

-- The error that an iterator ends with, after what its loop returned.
abbrev pub ended : {A : Type 0} → Option String → A → Outcome A
ended none a = ok a
ended (some e) a = err e

module _ (G : Gob) (L : LevelDb) where
  -- `iter.Key != nil` compares a method, and is never false.
  unfoldable pub any_key : List (Option Bytes) → Bool → Bool
  any_key [] is_new = is_new
  any_key (v ∷ vs) is_new = any_key vs false

  unfoldable pub is_new : L.Db → String → Bool
  unfolding any_key
  is_new db id =
      let it = L.by_prefix db id in
      elim it.failure [ none ↦ any_key it.values true | some e ↦ false ]

  -- The loop of `GetEntity`, which a nil value ends.
  unfoldable pub decode_all : List (Option Bytes) → Outcome (List Instruction)
  decode_all [] = ok []
  decode_all (none ∷ vs) = ok []
  decode_all (some buf ∷ vs) = do (i, r) ← gob_decode G buf; rest ← decode_all vs; ok (i ∷ rest)

  unfoldable pub get_entity : L.Db → String → Outcome (List Instruction)
  unfolding decode_all
  get_entity db id = let it = L.by_prefix db id in decode_all it.values >>= ended it.failure

  -- What `Iterate` has sent, in order, and the last entity seen.
  pub record Sent : Type 0 where
    pub entities : List Entity
    pub last : Entity

  unfoldable pub present : Entity → List Entity → Bool
  present e [] = false
  present e (f ∷ fs) = if same_entity e f then true else present e fs

  -- The loop, with the entities sent so far, which are those of `handled`.
  unfoldable pub walk : ℕ → List (Option Bytes) → Sent → Outcome (Unit {0}) × Sent
  unfolding present
  walk num [] s = (ok tt, s)
  walk num (none ∷ vs) s = (ok tt, s)
  walk num (some buf ∷ vs) s = elim (gob_decode G buf) [
    | ok (i, r) ↦
        let e : Entity = record { kind = i.subject_type; id = i.subject_id } in
        let next = walk num vs (record { entities = s.entities ++ e ∷ []; last = e }) in
        let skip = walk num vs (record s { last = e }) in
        if present e s.entities
        then skip
        else if leb num (suc (length s.entities))
        then (ok tt, record { entities = s.entities ++ e ∷ []; last = e })
        else next
    | err e ↦ (err e, s)
    | halt e ↦ (halt e, s)
    | pending ↦ (pending, s)
  ]

  -- The entities sent to the channel, and the three results.
  unfoldable pub iterate : L.Db → String → ℕ → List Entity × Outcome (ℕ × Entity)
  unfolding walk
  iterate db from_id num =
      let it = L.from db from_id in
      let (o, s) =
        walk num it.values (record { entities = []; last = record { kind = ""; id = "" } }) in
      (s.entities, o >>= λ _. ended it.failure (length s.entities, s.last))

  -- The rows of a batch, each under its key.
  unfoldable pub batch : List Instruction → List String → Outcome (List (String × Bytes))
  batch [] keys = ok []
  batch (it ∷ its) [] = halt "index out of range"
  batch (it ∷ its) (key ∷ keys) = do
    buf ← gob_encode G it
    rest ← batch its keys
    ok ((key, buf) ∷ rest)

  module _ (R : Rand) where
    unfoldable pub try_keys : ℕ → L.Db → String → String → R.Seed → Option String × R.Seed
    try_keys zero db id key s = (some key, s)
    try_keys (suc m) db id key s =
        let (u, s') = unique_string R 5 s in
        elim u [
          | none ↦ (none, s')
          | some u ↦
              let key' = id <> ("_" <> u) in
              elim (L.has db key') [
                | value b ↦ elim b [ true ↦ try_keys m db id key' s' | false ↦ (some key', s') ]
                | error e ↦ try_keys m db id key' s'
              ]
        ]

    -- After ten keys that are taken the last one is used: the statements that give up follow branches
    -- that all leave the iteration, and are never reached.
    unfoldable pub keys_for : L.Db → List Instruction → R.Seed → Outcome (List String) × R.Seed
    unfolding try_keys
    keys_for db [] s = (ok [], s)
    keys_for db (it ∷ its) s =
        let (key, s') = try_keys 10 db it.subject_id "" s in
        elim key [
          | none ↦ (halt "index out of range", s')
          | some key ↦
              let (rest, s'') = keys_for db its s' in (rest >>= λ keys. ok (key ∷ keys), s'')
        ]

    put : Outcome (List (String × Bytes)) → L.Db → Outcome (Unit {0}) × L.Db
    put (ok rows) db = let (o, db') = L.write rows db in (lift o, db')
    put (err e) db = (err e, db)
    put (halt e) db = (halt e, db)
    put pending db = (pending, db)

    unfoldable pub commit : List Instruction → L.Db × R.Seed → Outcome (Unit {0}) × L.Db × R.Seed
    unfolding keys_for batch put
    commit its (db, s) =
        let (keys, s') = keys_for db its s in
        let (o, db') = put (keys >>= batch its) db in (o, db', s')
