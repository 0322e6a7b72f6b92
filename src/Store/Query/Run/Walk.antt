-- ===== src/Store/Query/Run/Walk.antt =====
-- Inversions of `doRun` and of its loop over the rows, for a call that succeeds.
use gocrud.Prelude.{
  ℕ, zero, suc, ◌≡◌, refl, subst, ◌⊎◌, inl, inr, Option, none, some, List, [], ◌∷◌, ℤ,
}
use gocrud.Prelude.Dict.{Dict}
use gocrud.Outcome.{>>=-eq-ok, Outcome, value, ok, err, halt, pending}
use gocrud.X.{Instruction}
use gocrud.Store.{Store}
use gocrud.Store.Update.{Json}
use gocrud.Store.Query.{Query, Queries, Result, empty_result, columns_of}
use gocrud.Store.Query.Run.{
  Progress, proceed, visit, visit_all, gather, follow_from, collect_children, run_sorted, run_rows,
  do_run,
}

pub proceed-eq-some :
    (J : Json) (next : Progress J → Outcome (Option (Progress J)))
    (o : Outcome (Option (Progress J))) {p' : Progress J}
    → proceed J next o ≡ ok (some p')
    → (p : Progress J) × (o ≡ ok (some p)) × (next p ≡ ok (some p'))
proceed-eq-some J next (ok (some p)) h = (p, refl, h)
proceed-eq-some J next (ok none) h = cc
proceed-eq-some J next (err e) h = cc
proceed-eq-some J next (halt e) h = cc
proceed-eq-some J next pending h = cc

module _ (J : Json) (q : Query) (follow : Dict Query) (level : ℕ) (max : ℤ) where
  -- An invariant of the loop's progress, for runs that discard nothing.
  pub visit_all_keeps :
      (P : List Instruction → Progress J → Type 0)
      → ((it : Instruction) (its : List Instruction) (p p' : Progress J)
          → visit J q follow level max it p ≡ ok (some p')
          → P (it ∷ its) p
          → P its p')
      → (its : List Instruction) (p p' : Progress J)
      → visit_all J q follow level max its p ≡ ok (some p')
      → P its p
      → P [] p'
  unfolding visit_all
  visit_all_keeps P step [] p p' h k = let e : p ≡ p' = cc in subst (P []) e k
  visit_all_keeps P step (it ∷ its) p p' h k =
      let (p₁, first, rest) =
        proceed-eq-some J (visit_all J q follow level max its) (visit J q follow level max it p)
          h in
      visit_all_keeps P step its p₁ p' rest (step it its p p₁ first k)

-- A call that succeeds has read rows, and has discarded the entity or gone through all of them.
pub record Done (J : Json) (q : Query) (qs : Queries) (level : ℕ) (max : ℤ) (its : List Instruction)
    (r : Result J) : Type 0 where
  pub progress : Progress J
  pub through :
      visit_all J q
        (follow_from qs q.children [])
        level
        max
        its
        (record { columns = []; jobs = [] })
      ≡ ok (some progress)
  pub columns : columns_of J r ≡ progress.columns

module _ (J : Json) (S : Store) (db : S.State) (sort : List Instruction → List Instruction)
    (arrive : List (Outcome (Result J)) → List (Outcome (Result J))) (qs : Queries) (q : Query)
    (level : ℕ) (max : ℤ) where
  abbrev pub DoneOrEmpty : List Instruction → Result J → Type 0
  DoneOrEmpty its r = (r ≡ empty_result J) ⊎ Done J q qs level max its r

  collect_children-inv :
      (rec : Query → ℕ → ℤ → Outcome (Result J)) (it : Instruction) (its : List Instruction)
      (o : Option (Progress J)) (r : Result J)
      → visit_all J q
          (follow_from qs q.children [])
          level
          max
          its
          (record { columns = []; jobs = [] })
        ≡ ok o
      → collect_children J S db sort arrive qs rec it o ≡ ok r
      → DoneOrEmpty its r
  unfolding collect_children
  collect_children-inv rec it its none r e h = inl cc
  collect_children-inv rec it its (some p) r e h =
      let (children, _, built) = >>=-eq-ok (gather J _ []) _ h in
      inr (record { progress = p; through = e; columns = cc })

  run_sorted-inv :
      (rec : Query → ℕ → ℤ → Outcome (Result J)) (its : List Instruction) (r : Result J)
      → run_sorted J S db sort arrive qs rec q level max its ≡ ok r
      → DoneOrEmpty its r
  unfolding run_sorted
  run_sorted-inv rec [] r h = cc
  run_sorted-inv rec (it ∷ its) r h =
      let (o, walked, rest) = >>=-eq-ok (visit_all J q _ level max (it ∷ its) _) _ h in
      collect_children-inv rec it (it ∷ its) o r walked rest

  -- Of the rows that the store gives for the entity, the call goes through the sorted ones.
  pub do_run-inv :
      (f : ℕ) (its : List Instruction) (r : Result J)
      → S.get_entity db q.id ≡ value its
      → do_run J S db sort arrive qs f q level max ≡ ok r
      → DoneOrEmpty (sort its) r
  unfolding do_run run_rows
  do_run-inv zero its r e h = cc
  do_run-inv (suc f) [] r e h = let g = rw e at h in inl cc
  do_run-inv (suc f) (it ∷ its) r e h =
      run_sorted-inv (do_run J S db sort arrive qs f) (sort (it ∷ its)) r (rw e at h)
