-- ===== src/Store/Query/ToMap/Newest.antt =====
-- store/query.go: what the map shows of a result that `doRun` has built.
use gocrud.Prelude.{
  ℕ, String, ◌≡◌, refl, sym, ap, ◌∙◌, subst, false, Option, none, some, ◌⊎◌, inl, inr, List, [],
  ◌∷◌, ◌++◌, ◌≢◌, ℤ,
}
use gocrud.Prelude.Dict
use gocrud.Prelude.Dict.{Dict, Distinct, Distinct-insert}
use gocrud.Outcome.{Outcome, value, ok}
use gocrud.X.{Instruction}
use gocrud.Store.{Store}
use gocrud.Store.Update.{Json}
use gocrud.Store.Query.{
  Query, Queries, Object, Versions, latest, Result, node, empty_result, columns_of,
}
use gocrud.Store.Query.Run.{Progress, versions_at, visit, do_run}
use gocrud.Store.Query.Run.Walk.{visit_all_keeps, do_run-inv}
use gocrud.Store.Query.Run.History.{add_version-inv, visit-cases, history, do_run-history}
use gocrud.Store.Query.ToMap.{val, Data, to_map, child_maps, has_kind}
use gocrud.Store.Query.ToMap.Latest.{IsFree, to_map-latest}

append-ne-nil : {A : Type 0} (l : List A) (x : A) → l ++ x ∷ [] ≡ [] → ⊥
append-ne-nil [] x h = cc
append-ne-nil (y ∷ l) x h = cc

module _ (J : Json) where
  latest-append : (v : Versions J) (o : Object J) → latest J (v ++ o ∷ []) ≡ o
  unfolding latest
  latest-append [] o = refl
  latest-append (p ∷ []) o = refl
  latest-append (p ∷ w ∷ v) o = latest-append (w ∷ v) o

  abbrev pub maps_of_children : ℤ → Result J → List (String × Data J)
  maps_of_children now (node id kind columns children) = child_maps J now children

  versions_at-some :
      (o : Option (Versions J)) (v : Versions J) → versions_at J o ≡ v → v ≢ [] → o ≡ some v
  versions_at-some none v h more = elim (more (sym h)) [ ]
  versions_at-some (some w) v h more = ap some h

  to_map-columns :
      (now : ℤ) (k : String) (r : Result J) (v : Versions J)
      → IsFree k
      → has_kind J k (maps_of_children now r) ≡ false
      → Distinct (columns_of J r)
      → Dict.lookup k (columns_of J r) ≡ some v
      → Dict.lookup k (to_map J now r) ≡ some (val (latest J v).value)
  to_map-columns now k (node id kind columns children) v free no_child d h =
      to_map-latest J k free now id kind columns children v no_child d h

  visit-Distinct :
      (q : Query) (follow : Dict Query) (level : ℕ) (max : ℤ) (it : Instruction) (p p' : Progress J)
      → visit J q follow level max it p ≡ ok (some p')
      → Distinct p.columns
      → Distinct p'.columns
  visit-Distinct q follow level max it p p' h d =
      elim (visit-cases J q follow level max it p p' h) [
        | inl (_, _, added) ↦
            let (w, _, inserted, _) = add_version-inv J it p p' added in
            subst Distinct (sym inserted) (Distinct-insert it.predicate w p.columns d)
        | inr (_, same) ↦ subst Distinct (sym same) d
      ]

module _ (J : Json) (S : Store) (db : S.State) (sort : List Instruction → List Instruction)
    (arrive : List (Outcome (Result J)) → List (Outcome (Result J))) (qs : Queries) where
  columns-Distinct :
      (f : ℕ) (q : Query) (level : ℕ) (max : ℤ) (its : List Instruction) (r : Result J)
      → S.get_entity db q.id ≡ value its
      → do_run J S db sort arrive qs f q level max ≡ ok r
      → (r ≡ empty_result J) ⊎ Distinct (columns_of J r)
  columns-Distinct f q level max its r rows h =
      elim (do_run-inv J S db sort arrive qs q level max f its r rows h) [
        | inl empty ↦ inl empty
        | inr done ↦ inr (
            subst Distinct (sym done.columns) (
              visit_all_keeps J q _ level max (λ its p. Distinct p.columns)
                (λ it its p p' e d. visit-Distinct J q _ level max it p p' e d) (sort its) _
                done.progress done.through tt))
      ]

  -- A query that succeeds returns the empty result, or the map of its result holds, under the name of
  -- each property that the sorted rows of the entity have a version of, the value of the last of these
  -- versions, unless the name is modifier, creator, creation_ms or modification_ms, or the kind of a
  -- child of the result.
  pub do_run-newest :
      (f : ℕ) (q : Query) (level : ℕ) (max now : ℤ) (its : List Instruction) (r : Result J)
      (k : String) (older : Versions J) (last : Object J)
      → S.get_entity db q.id ≡ value its
      → do_run J S db sort arrive qs f q level max ≡ ok r
      → IsFree k
      → has_kind J k (maps_of_children J now r) ≡ false
      → history J k (sort its) ≡ older ++ last ∷ []
      → (r ≡ empty_result J) ⊎ (Dict.lookup k (to_map J now r) ≡ some (val last.value))
  do_run-newest f q level max now its r k older last rows h free no_child ends =
      let more : history J k (sort its) ≢ [] =
        λ none_there. append-ne-nil older last (sym ends ∙ none_there) in
      let is_last : latest J (history J k (sort its)) ≡ last =
        ap (latest J) ends ∙ latest-append J older last in
      elim (columns-Distinct f q level max its r rows h) [
        | inl empty ↦ inl empty
        | inr distinct ↦ elim (do_run-history J S db sort arrive qs f q level max its r rows h) [
          | inl empty ↦ inl empty
          | inr all ↦ inr (
              to_map-columns J now k r (history J k (sort its)) free no_child distinct
                (versions_at-some J _ _ (all k) more)
              ∙ ap (λ o. some (val o.value)) is_last)
        ]
      ]
