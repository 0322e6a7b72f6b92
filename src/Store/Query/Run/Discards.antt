-- ===== src/Store/Query/Run/Discards.antt =====
-- Deleted and filtered entities.
use mathlib.Core.List.Perm
use mathlib.Core.Bool.{Bool-set}
use gocrud.Prelude.{
  ℕ, ◌≡◌, refl, inl, inr, Bool, true, false, not, ◌&&◌, ◌||◌, ◌==◌, some, List, [], ◌∷◌, Perm, All,
  All-perm, ℤ, arith,
}
use gocrud.Prelude.Dict
use gocrud.Prelude.Dict.{Dict}
use gocrud.Outcome.{Outcome, value, ok}
use gocrud.X.{Instruction}
use gocrud.Store.{Store}
use gocrud.Store.Update.{Json}
use gocrud.Store.Query.{Query, Queries, Result, empty_result}
use gocrud.Store.Query.Run.{Progress, in_dict, visit, visit_all, do_run}
use gocrud.Store.Query.Run.Walk.{proceed-eq-some, do_run-inv}

-- A row for which a query leaves the entity out: a mark of deletion, unless the query wants deleted
-- entities, or a property that the query filters out.
abbrev pub leaves_out : Query → Instruction → Bool
leaves_out q it =
    (it.predicate == "_delete_" && not q.get_deleted)
    || (not (it.predicate == "_parent_") && in_dict (Dict.lookup it.predicate q.filter_out))

abbrev pub any_leaves_out : Query → List Instruction → Bool
any_leaves_out q [] = false
any_leaves_out q (it ∷ its) = leaves_out q it || any_leaves_out q its

kept :
    (q : Query) (its : List Instruction)
    → All (λ it. leaves_out q it ≡ false) its
    → any_leaves_out q its ≡ false
kept q [] h = refl
kept q (it ∷ its) (first, rest) = ground (arith, kept q its rest)

module _ (J : Json) (q : Query) (follow : Dict Query) (level : ℕ) (max : ℤ) where
  visit-kept :
      (it : Instruction) (p p' : Progress J)
      → visit J q follow level max it p ≡ ok (some p')
      → leaves_out q it ≡ false
  unfolding visit
  visit-kept it p p' h = ground arith

  visit_all-kept :
      (its : List Instruction) (p p' : Progress J)
      → visit_all J q follow level max its p ≡ ok (some p')
      → All (λ it. leaves_out q it ≡ false) its
  unfolding visit_all
  visit_all-kept [] p p' h = tt
  visit_all-kept (it ∷ its) p p' h =
      let (p₁, first, rest) =
        proceed-eq-some J (visit_all J q follow level max its) (visit J q follow level max it p)
          h in
      (visit-kept it p p₁ first, visit_all-kept its p₁ p' rest)

module _ (J : Json) (S : Store) (db : S.State) (sort : List Instruction → List Instruction)
    (arrive : List (Outcome (Result J)) → List (Outcome (Result J))) (qs : Queries) where
  -- If the sort only reorders rows, a query that succeeds on an entity with a mark of deletion, when it
  -- does not ask for deleted ones, or with a property that it filters out, returns the empty result: no
  -- data of such an entity, nor of its children, is shown.
  pub do_run_leaves_out :
      (f : ℕ) (q : Query) (level : ℕ) (max : ℤ) (its : List Instruction) (r : Result J)
      → ((l : List Instruction) → Perm l (sort l))
      → S.get_entity db q.id ≡ value its
      → any_leaves_out q its ≡ true
      → do_run J S db sort arrive qs f q level max ≡ ok r
      → r ≡ empty_result J
  do_run_leaves_out f q level max its r same_rows rows out h =
      elim (do_run-inv J S db sort arrive qs q level max f its r rows h) [
        | inl empty ↦ empty
        | inr done ↦
            let all = visit_all-kept J q _ level max (sort its) _ _ done.through in
            let none_out =
              kept q its (All-perm _ (λ it. Bool-set _ _) (Perm.symm (same_rows its)) all) in
            cc (out, none_out)
      ]
