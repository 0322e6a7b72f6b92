-- ===== src/Social.antt =====
-- examples/social/social.go: the indexer of the example, which queries the store for the entities that are
-- updated and for their documents.
pub mod Indexes
use gocrud.Prelude.{
  ℕ, zero, suc, ◌+◌, String, ◌==◌, Bool, true, false, Option, none, some, List, [], ◌∷◌, ◌++◌, ℤ,
  pos, if◌then◌else◌,
}
use gocrud.Prelude.Dict
use gocrud.Outcome.{Outcome, ok, err, halt, pending, ◌>>=◌}
use gocrud.X.{Entity, Instruction}
use gocrud.Store.{Store}
use gocrud.Store.Update.{Json}
use gocrud.Store.Query.{
  Query, Queries, Result, Results, node, nil, cons, result_kind, new_query, upto_depth,
}
use gocrud.Store.Query.Run.{parent, run}
use gocrud.Store.Query.ToMap.{Data, int, to_map}

-- A document, whose data is the map of a result.
pub record Document (J : Json) : Type 0 where
  pub kind : String
  pub id : String
  pub nano_ts : ℤ
  pub body : Data J

module _ (J : Json) where
  abbrev pub count_all : Results J → ℕ
  count_all nil = 0
  count_all (cons r rs) = suc (count_all rs)

  -- `len(result.Children)`
  abbrev pub child_count : Result J → ℕ
  child_count (node id kind columns children) = count_all children

-- `now` is what time.Now().UnixNano() returns.
module _ (J : Json) (S : Store) (db : S.State) (sort : List Instruction → List Instruction)
    (arrive : List (Outcome (Result J)) → List (Outcome (Result J))) where
  -- `store.NewQuery(id).UptoDepth(depth).Run()`
  unfoldable pub query : String → ℤ → Outcome (Result J)
  unfolding new_query upto_depth
  query id depth = let (qs, n) = new_query id [] in run J S db sort arrive (upto_depth depth n qs) n

  -- The parent goes first, if it is found and its query returns no error.
  unfoldable pub with_parent : Entity → String → Outcome (Result J) → Outcome (List Entity)
  with_parent e parent_id (ok r) = ok (record { kind = result_kind J r; id = parent_id } ∷ e ∷ [])
  with_parent e parent_id (err x) = ok (e ∷ [])
  with_parent e parent_id (halt x) = halt x
  with_parent e parent_id pending = pending

  unfoldable pub of_parent : Entity → Outcome String → Outcome (List Entity)
  unfolding with_parent
  of_parent e (ok parent_id) = with_parent e parent_id (query parent_id (pos 0))
  of_parent e (err x) = ok (e ∷ [])
  of_parent e (halt x) = halt x
  of_parent e pending = pending

  unfoldable pub on_update : Entity → Outcome (List Entity)
  unfolding of_parent
  on_update e = of_parent e (parent S db e.id)

  -- An error of the query is logged as fatal.
  unfoldable pub or_exit : {A : Type 0} → Outcome A → Outcome A
  or_exit (ok a) = ok a
  or_exit (err x) = halt "While querying db"
  or_exit (halt x) = halt x
  or_exit pending = pending

  unfoldable pub regenerate : ℤ → Entity → Outcome (Document J)
  unfolding or_exit
  regenerate now e =
      if e.kind == "Post"
      then (or_exit (query e.id (pos 1)) >>= λ result. ok (record {
        kind = e.kind;
        id = e.id;
        nano_ts = now;
        body = Dict.insert "activity" (int (pos (child_count J result))) (to_map J now result);
      }))
      else (or_exit (query e.id (pos 0)) >>= λ result.
          ok (record { kind = e.kind; id = e.id; nano_ts = now; body = to_map J now result }))
