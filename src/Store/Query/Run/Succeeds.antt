-- ===== src/Store/Query/Run/Succeeds.antt =====
-- A query of a healthy store comes back with a result.
use mathlib.Core.List.Perm
use mathlib.Core.Bool.{Bool-set}
use gocrud.Prelude.{
  ℕ, zero, suc, ◌+◌, ◌<◌, String, ◌≡◌, ◌≢◌, refl, sym, false≢true, eq_iff, get_elem?, ap, ◌∙◌, ◌⊎◌,
  inl, inr, true, ◌==◌, Bool-cases, Option, none, some, List, [], ◌∷◌, map, Perm, All, All-perm,
  length, ℤ, arith, IsSortedBy,
}
use gocrud.Outcome.{Outcome, value, ok, err, halt, pending, is_ok, is_ok-inv, >>=-is_ok}
use gocrud.X.{Instruction}
use gocrud.Store.{Store}
use gocrud.Store.Arena.{ParentsBelow, ChildrenAbove, root, root_total}
use gocrud.Store.Update.{Json}
use gocrud.Store.Query.{Query, Queries, Result}
use gocrud.Store.Query.Run.{
  IsSort, IsArrival, Job, Progress, visit_all, follow_from, gather, collect_children, run_sorted,
  run_rows, do_run, deepest, run,
}
use gocrud.Store.Query.Run.Fuel.{Fits, Fits-zero, FitsJob, visit_all-Fits, Fits-child}
use gocrud.Store.Query.Run.Healthy.{is_readable, visit_all-is_ok_start}

-- The store gives the rows of every id without an error, and each value that stands in them can be read.
pub record IsHealthy (J : Json) (S : Store) (db : S.State) : Type 0 where
  pub rows : String → List Instruction
  pub found : (id : String) → S.get_entity db id ≡ value (rows id)
  pub readable : (id : String) → All (λ i. is_readable J i ≡ true) (rows id)

module _ (J : Json) where
  gather-is_ok :
      (rs : List (Outcome (Result J))) (acc : List (Result J))
      → All (λ o. is_ok o ≡ true) rs
      → is_ok (gather J rs acc) ≡ true
  unfolding gather
  gather-is_ok [] acc h = refl
  gather-is_ok (ok r ∷ rs) acc h = gather-is_ok rs _ h.1
  gather-is_ok (err e ∷ rs) acc h = h.0
  gather-is_ok (halt e ∷ rs) acc h = h.0
  gather-is_ok (pending ∷ rs) acc h = h.0

  All-is_ok-map :
      {P : Job → Type 0} (f : Job → Outcome (Result J)) (js : List Job)
      → ((j : Job) → P j → is_ok (f j) ≡ true)
      → All P js
      → All (λ o. is_ok o ≡ true) (map f js)
  All-is_ok-map f [] k h = tt
  All-is_ok-map f (j ∷ js) k h = (k j h.0, All-is_ok-map f js k h.1)

module _ (J : Json) (S : Store) (db : S.State) (sort : List Instruction → List Instruction)
    (arrive : List (Outcome (Result J)) → List (Outcome (Result J))) (qs : Queries)
    (healthy : IsHealthy J S db) (sorts : IsSort sort) (arrival : IsArrival arrive)
    (above : ChildrenAbove (map (λ (q : Query). q.children) qs)) where
  module _ (f : ℕ) (rec : Query → ℕ → ℤ → Outcome (Result J))
      (rec-is_ok : (q : Query) (level : ℕ) (max : ℤ)
        → Fits qs f q level max
        → is_ok (rec q level max) ≡ true) where
    collect_children-is_ok :
        (it : Instruction) (o : Option (Progress J))
        → ((p : Progress J) → o ≡ some p → All (FitsJob qs f) p.jobs)
        → is_ok (collect_children J S db sort arrive qs rec it o) ≡ true
    unfolding collect_children
    collect_children-is_ok it none h = refl
    collect_children-is_ok it (some p) h =
        >>=-is_ok (gather J _ []) _
          (gather-is_ok J _ [] (
            All-perm _ (λ o. Bool-set _ _) (arrival.same_results _)
              (All-is_ok-map J {P = FitsJob qs f} _ p.jobs (λ j. rec-is_ok j.query j.level j.max)
                (h p refl))))
          λ children _. refl

    -- Sorting keeps a row, so there is a first one.
    run_rows-is_ok :
        (q : Query) (level : ℕ) (max : ℤ) (its : List Instruction)
        → Fits qs (suc f) q level max
        → All (λ i. is_readable J i ≡ true) its
        → is_ok (run_rows J S db sort arrive qs rec q level max its) ≡ true
    unfolding run_rows run_sorted
    run_rows-is_ok q level max [] fits readable = refl
    run_rows-is_ok q level max (it ∷ its) fits readable =
        go (sort (it ∷ its)) (sorts.sorted (it ∷ its)) (sorts.same_rows (it ∷ its))
          (All-perm _ (λ i. Bool-set _ _) (sorts.same_rows (it ∷ its)) readable)
      where
        go :
            (l : List Instruction)
            → IsSortedBy (λ i. i.nano_ts) l
            → Perm (it ∷ its) l
            → All (λ i. is_readable J i ≡ true) l
            → is_ok (run_sorted J S db sort arrive qs rec q level max l) ≡ true
        go [] sorted same all = let e = Perm.nil-eq (Perm.symm same) in cc
        go (first ∷ l) sorted same all =
            >>=-is_ok (visit_all J q (follow_from qs q.children []) level max (first ∷ l) _) _
              (visit_all-is_ok_start J q (follow_from qs q.children []) level max (first ∷ l) sorted
                all)
              λ o walked. collect_children-is_ok first o λ p through.
                visit_all-Fits qs above J f q level max fits (first ∷ l) _ p
                  (walked ∙ ap ok through) tt

  do_run-is_ok :
      (f : ℕ) (q : Query) (level : ℕ) (max : ℤ)
      → Fits qs f q level max
      → is_ok (do_run J S db sort arrive qs f q level max) ≡ true
  unfolding do_run
  do_run-is_ok zero q level max fits = absurd (Fits-zero qs q level max fits)
  do_run-is_ok (suc f) q level max fits = rw (healthy.found q.id) (
      run_rows-is_ok f (do_run J S db sort arrive qs f) (do_run-is_ok f) q level max
        (healthy.rows q.id) fits (healthy.readable q.id))

  -- On a store that reads every entity, whose values can all be read, a query on an arena of trees, from
  -- any of its nodes, comes back with a result if the root of the tree has an id, and with the error
  -- "Empty entity id" if it has none, if the sort sorts and the channel gives each child's result once: no
  -- panic, no exit, and no endless descent.
  pub run_succeeds :
      (n : ℕ)
      → ParentsBelow (map (λ (q : Query). q.parent) qs)
      → n < length qs
      → (top : ℕ) × (q : Query) × (q.parent ≡ none)
        × (get_elem? qs top ≡ some q)
        × (root (λ (q : Query). q.parent) (length qs) qs n ≡ some top)
        × ((q.id ≡ "") × (run J S db sort arrive qs n ≡ err "Empty entity id")
            ⊎ (q.id ≢ "") × ((r : Result J) × (run J S db sort arrive qs n ≡ ok r)))
  unfolding run
  run_succeeds n below inside =
      let (top, q, found, at_top, no_parent) =
        root_total (λ (q : Query). q.parent) (length qs) qs n inside inside below in
      (
        top,
        q,
        no_parent,
        at_top,
        found,
        elim (Bool-cases (q.id == "")) [
          | inl unset ↦
              inl (
                (eq_iff q.id "").0 unset,
                rw (found, run) (rw (at_top, run) (rw (unset, run) refl)),
              )
          | inr named ↦ inr (
            λ e. false≢true (sym named ∙ (eq_iff q.id "").1 e),
            rw (found, run)
                (rw (at_top, run)
                  (rw (named, run)
                    (is_ok-inv _ (
                      do_run-is_ok (suc (length qs + deepest qs)) q 0 q.max_depth (
                        Fits-child qs above (suc (length qs + deepest qs)) top q q.id q.get_deleted
                          at_top (omega arith)))))),
          )
        ],
      )
