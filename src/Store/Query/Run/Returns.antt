-- ===== src/Store/Query/Run/Returns.antt =====
-- A query always returns: the fuel that `run` gives is enough.
use mathlib.Core.HLevel.{¬_prop}
use gocrud.Prelude.{
  ℕ, zero, suc, ◌+◌, ◌<◌, ◌≡◌, ◌≢◌, refl, ◌∙◌, ap, inl, inr, ◌==◌, Bool-cases, Option, none, some,
  List, [], ◌∷◌, map, All, All-perm, length, ℤ, arith,
}
use gocrud.Prelude.Dict.{Dict}
use gocrud.Outcome.{Outcome, ok, err, halt, pending, lift, lift-ne-pending, >>=-ne-pending}
use gocrud.X.{Instruction}
use gocrud.Store.{Store}
use gocrud.Store.Arena.{ParentsBelow, ChildrenAbove, root_total}
use gocrud.Store.Update.{Json}
use gocrud.Store.Query.{Query, Queries, add, Object, Versions, Result}
use gocrud.Store.Query.Run.{
  IsArrival, Job, Progress, add_version, visit, visit_all, proceed, follow_from, gather,
  collect_children, run_sorted, run_rows, do_run, deepest, run,
}
use gocrud.Store.Query.Run.Fuel.{Fits, Fits-zero, FitsJob, visit_all-Fits, Fits-child}

module _ (J : Json) where
  add-ne-pending : (o : Object J) (v : Versions J) → add J o v ≢ pending
  unfolding add
  add-ne-pending o [] = λ p. cc
  add-ne-pending o (p ∷ v) = ground arith

  add_version-ne-pending : (it : Instruction) (p : Progress J) → add_version J it p ≢ pending
  unfolding add_version
  add_version-ne-pending it p =
      >>=-ne-pending (lift (J.unmarshal it.object)) _ (lift-ne-pending (J.unmarshal it.object))
        λ v _. >>=-ne-pending (add J _ _) _ (add-ne-pending _ _) λ w _ e. cc

  module _ (q : Query) (follow : Dict Query) (level : ℕ) (max : ℤ) where
    visit-ne-pending :
        (it : Instruction) (p : Progress J) → visit J q follow level max it p ≢ pending
    unfolding visit
    visit-ne-pending it p = ground (arith, add_version-ne-pending it p)

    proceed-ne-pending :
        (next : Progress J → Outcome (Option (Progress J))) (o : Outcome (Option (Progress J)))
        → o ≢ pending
        → ((p : Progress J) → next p ≢ pending)
        → proceed J next o ≢ pending
    proceed-ne-pending next (ok none) h k = λ p. cc
    proceed-ne-pending next (ok (some p)) h k = k p
    proceed-ne-pending next (err e) h k = λ p. cc
    proceed-ne-pending next (halt e) h k = λ p. cc
    proceed-ne-pending next pending h k = λ p. h refl

    visit_all-ne-pending :
        (its : List Instruction) (p : Progress J) → visit_all J q follow level max its p ≢ pending
    unfolding visit_all
    visit_all-ne-pending [] p = λ e. cc
    visit_all-ne-pending (it ∷ its) p =
        proceed-ne-pending (visit_all J q follow level max its) _ (visit-ne-pending it p)
          (visit_all-ne-pending its)

  gather-ne-pending :
      (rs : List (Outcome (Result J))) (acc : List (Result J))
      → All (λ o. o ≢ pending) rs
      → gather J rs acc ≢ pending
  unfolding gather
  gather-ne-pending [] acc h = λ p. cc
  gather-ne-pending (ok r ∷ rs) acc h = gather-ne-pending rs _ h.1
  gather-ne-pending (err e ∷ rs) acc h = λ p. cc
  gather-ne-pending (halt e ∷ rs) acc h = λ p. cc
  gather-ne-pending (pending ∷ rs) acc h = λ p. h.0 refl

  All-map :
      {P : Job → Type 0} (f : Job → Outcome (Result J)) (js : List Job)
      → ((j : Job) → P j → f j ≢ pending)
      → All P js
      → All (λ o. o ≢ pending) (map f js)
  All-map f [] k h = tt
  All-map f (j ∷ js) k h = (k j h.0, All-map f js k h.1)

module _ (J : Json) (S : Store) (db : S.State) (sort : List Instruction → List Instruction)
    (arrive : List (Outcome (Result J)) → List (Outcome (Result J))) (qs : Queries)
    (arrival : IsArrival arrive) (above : ChildrenAbove (map (λ (q : Query). q.children) qs)) where
  module _ (f : ℕ) (rec : Query → ℕ → ℤ → Outcome (Result J))
      (rec-ne-pending : (q : Query) (level : ℕ) (max : ℤ)
        → Fits qs f q level max
        → rec q level max ≢ pending) where
    collect_children-ne-pending :
        (it : Instruction) (o : Option (Progress J))
        → ((p : Progress J) → o ≡ some p → All (FitsJob qs f) p.jobs)
        → collect_children J S db sort arrive qs rec it o ≢ pending
    unfolding collect_children
    collect_children-ne-pending it none h = λ p. cc
    collect_children-ne-pending it (some p) h =
        >>=-ne-pending (gather J _ []) _
          (gather-ne-pending J _ [] (
            All-perm _ (λ o. ¬_prop) (arrival.same_results _)
              (All-map J {P = FitsJob qs f} _ p.jobs (λ j. rec-ne-pending j.query j.level j.max)
                (h p refl))))
          λ children _ e. cc

    run_rows-ne-pending :
        (q : Query) (level : ℕ) (max : ℤ) (its : List Instruction)
        → Fits qs (suc f) q level max
        → run_rows J S db sort arrive qs rec q level max its ≢ pending
    unfolding run_rows run_sorted
    run_rows-ne-pending q level max [] fits = λ p. cc
    run_rows-ne-pending q level max (it ∷ its) fits = go (sort (it ∷ its))
      where
        go : (l : List Instruction) → run_sorted J S db sort arrive qs rec q level max l ≢ pending
        go [] = λ p. cc
        go (first ∷ l) =
            >>=-ne-pending (visit_all J q (follow_from qs q.children []) level max (first ∷ l) _) _
              (visit_all-ne-pending J q (follow_from qs q.children []) level max (first ∷ l) _)
              λ o walked. collect_children-ne-pending first o λ p through.
                visit_all-Fits qs above J f q level max fits (first ∷ l) _ p
                  (walked ∙ ap ok through) tt

  do_run-ne-pending :
      (f : ℕ) (q : Query) (level : ℕ) (max : ℤ)
      → Fits qs f q level max
      → do_run J S db sort arrive qs f q level max ≢ pending
  unfolding do_run
  do_run-ne-pending zero q level max fits = absurd (Fits-zero qs q level max fits)
  do_run-ne-pending (suc f) q level max fits =
      >>=-ne-pending (lift (S.get_entity db q.id)) _ (lift-ne-pending (S.get_entity db q.id))
        λ its _.
          run_rows-ne-pending f (do_run J S db sort arrive qs f) (do_run-ne-pending f) q level max
            its fits

  -- A query on an arena of trees comes back with a result, an error, or the end of the process, however
  -- deep it asks and whatever cycles the stored edges make.
  pub run_returns :
      (n : ℕ)
      → ParentsBelow (map (λ (q : Query). q.parent) qs)
      → n < length qs
      → run J S db sort arrive qs n ≢ pending
  unfolding run
  run_returns n below inside =
      let (top, q, found, at_top, _) =
        root_total (λ (q : Query). q.parent) (length qs) qs n inside inside below in
      rw (found, run)
        (rw (at_top, run)
          (elim (Bool-cases (q.id == "")) [
            | inl unset ↦ rw unset (λ p. cc)
            | inr named ↦ rw named (
                do_run-ne-pending (suc (length qs + deepest qs)) q 0 q.max_depth (
                  Fits-child qs above (suc (length qs + deepest qs)) top q q.id q.get_deleted at_top
                    (omega arith)))
          ]))
