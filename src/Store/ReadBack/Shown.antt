-- ===== src/Store/ReadBack/Shown.antt =====
-- What was set is shown.
use mathlib.Core.Logic.{∥∥₁_map}
use mathlib.Core.List.Perm
use gocrud.Prelude.{
  ℕ, String, ◌≡◌, ap, ◌∙◌, ◌⊎◌, inl, inr, false, ◌==◌, List, ◌∷◌, ◌++◌, Perm, Mem, Memᴰ, ℤ,
}
use mathlib.Core.List.Memᴰ.{append_right}
use gocrud.Prelude.Dict.{Dict}
use gocrud.Outcome.{Outcome, value, ok}
use gocrud.Req.{Context}
use gocrud.X.{Instruction}
use gocrud.X.UniqueString.{Rand}
use gocrud.Store.{Store}
use gocrud.Store.Update.{Json}
use gocrud.Store.Update.Execute.{Session, property_row, execute}
use gocrud.Store.Query.{Query, Queries, Result, empty_result}
use gocrud.Store.Query.Run.{do_run}
use gocrud.Store.Query.Run.History.{shown, do_run-history}
use gocrud.Store.ReadBack.{
  IsKept, rows_of, Memᴰ-rows_of, Memᴰ-history, version-property_row, Memᴰ-Encoded,
}
use gocrud.Store.ReadBack.Leaf.{LeafUpdate, execute-leaf}

module _ (J : Json) (R : Rand) (S : Store) (range : Dict J.Value → Dict J.Value)
    (sort : List Instruction → List Instruction)
    (arrive : List (Outcome (Result J)) → List (Outcome (Result J))) (qs : Queries) where
  -- `Execute` of a node that is the whole of its tree succeeds, if the driver takes its rows and there
  -- is no indexer to tell or room in its channel; and a query of the
  -- node's entity that succeeds on the database after it returns the empty result, or shows among the versions
  -- of each property that was set the value that was set, with its author and time, if the driver keeps what
  -- it is given and the value is read as it was written.
  pub execute-shown :
      (c : Context) (n : ℕ) (s : Session J R S) (l : LeafUpdate J R S range c n s)
      (old : List Instruction) (f : ℕ) (q : Query) (level : ℕ) (max : ℤ) (r : Result J) (k : String)
      (v : J.Value) (b : List ℕ)
      → IsKept S
      → ((its : List Instruction) → Perm its (sort its))
      → S.get_entity s.db l.node.id ≡ value old
      → q.id ≡ l.node.id
      → do_run J S (execute J R S range c n s).1.db sort arrive qs f q level max ≡ ok r
      → Memᴰ (k, v) (range l.node.edges)
      → (k == "_parent_") ≡ false
      → J.marshal v ≡ value b
      → J.unmarshal b ≡ value v
      → ((execute J R S range c n s).0 ≡ ok tt)
        × ((r ≡ empty_result J)
            ⊎ Mem
                (record { value = v; source = l.node.source; nano_ts = l.node.nano_ts })
                (shown J k r))
  unfolding property_row
  execute-shown c n s l old f q level max r k v b kept same_rows before same_id ran set_ plain
        written read =
      let (fine, db_at) = execute-leaf J R S range c n s l in
      let its = l.first ∷ l.others in
      let rows : S.get_entity (execute J R S range c n s).1.db q.id
          ≡ value (old ++ rows_of l.node.id its) =
        ap (λ d. S.get_entity d q.id) db_at
        ∙ ap (S.get_entity l.db) same_id
        ∙ kept its s.db l.db l.node.id old l.taken before in
      let row = property_row J l.node k b in
      let in_rows : Memᴰ row (old ++ rows_of l.node.id its) =
        append_right old
          (Memᴰ-rows_of row its (Memᴰ-Encoded J l.node k v b written l.encoded set_)) in
      (
        fine,
        elim (do_run-history J S (execute J R S range c n s).1.db sort arrive qs f q level max _ r
            rows ran) [
              | inl empty ↦ inl empty
              | inr all ↦ inr (
                  rw (all k) (
                    ∥∥₁_map ((Perm.mem_iff (same_rows _)).0 ∣ in_rows ∣₁)
                      (Memᴰ-history J k row _ _ (version-property_row J l.node k b v plain read))))
            ],
      )
