-- ===== src/Store/Query/Run/History.antt =====
-- The columns of a result: for each property, the values of all its rows.
use gocrud.Prelude.{
  ℕ, String, ◌≡◌, refl, sym, ◌∙◌, ap, ◌⊎◌, inl, inr, true, false, not, ◌&&◌, ◌==◌, Bool-cases,
  Option, none, some, List, [], ◌∷◌, ◌++◌, append-nil, append_assoc, ℤ, arith, eq_iff,
  if◌then◌else◌,
}
use gocrud.Prelude.Dict
use gocrud.Prelude.Dict.{Dict, lookup-insert}
use gocrud.Outcome.{>>=-eq-ok, Outcome, Fallible, value, error, ok, lift, value_of_lift}
use gocrud.X.{Instruction}
use gocrud.Store.{Store}
use gocrud.Store.Update.{Json}
use gocrud.Store.Query.{Query, Queries, Object, Versions, add, Result, empty_result, columns_of}
use gocrud.Store.Query.Run.{
  Progress, versions_at, add_version, visit_edge, visit, visit_all, do_run,
}
use gocrud.Store.Query.Run.Walk.{proceed-eq-some, do_run-inv}

module _ (J : Json) where
  abbrev pub decoded : Instruction → Fallible J.Value → Versions J
  decoded it (value v) = record { value = v; source = it.source; nano_ts = it.nano_ts } ∷ []
  decoded it (error e) = []

  -- The version that a row of the property adds: rows of edges add none.
  abbrev pub version : String → Instruction → Versions J
  version k it =
      if it.predicate == k && it.object_id == "" && not (it.predicate == "_parent_")
      then decoded it (J.unmarshal it.object)
      else []

  -- The versions of a property in a list of rows, in the order of the rows.
  abbrev pub history : String → List Instruction → Versions J
  history k [] = []
  history k (it ∷ its) = version k it ++ history k its

  add-append : (o : Object J) (v w : Versions J) → add J o v ≡ ok w → w ≡ v ++ o ∷ []
  unfolding add
  add-append o [] w h = cc
  add-append o (p ∷ v) w h = ground arith

  unfoldable pub column : String → Progress J → Versions J
  column k p = versions_at J (Dict.lookup k p.columns)

  pub add_version-inv :
      (it : Instruction) (p p' : Progress J)
      → add_version J it p ≡ ok (some p')
      → (w : Versions J) × (w ≡ column it.predicate p ++ decoded it (J.unmarshal it.object))
        × (p'.columns ≡ Dict.insert it.predicate w p.columns)
        × (p'.jobs ≡ p.jobs)
  unfolding add_version column
  add_version-inv it p p' h =
      let (v, read, h₁) = >>=-eq-ok (lift (J.unmarshal it.object)) _ h in
      let (w, added, h₂) = >>=-eq-ok (add J _ _) _ h₁ in
      (
        w,
        add-append _ _ w added
            ∙ ap (λ f. column it.predicate p ++ decoded it f)
                (sym (value_of_lift (J.unmarshal it.object) read)),
        cc,
        cc,
      )

  column-insert :
      (k j : String) (w : Versions J) (cols : Dict (Versions J))
      → versions_at J (Dict.lookup k (Dict.insert j w cols))
        ≡ (if j == k then w else versions_at J (Dict.lookup k cols))
  column-insert k j w cols = rw lookup-insert (ground arith)

  add_version-column :
      (k : String) (it : Instruction) (p p' : Progress J)
      → add_version J it p ≡ ok (some p')
      → column k p'
        ≡ column k p ++ (if it.predicate == k then decoded it (J.unmarshal it.object) else [])
  unfolding column
  add_version-column k it p p' h =
      let (w, longer, inserted, _) = add_version-inv it p p' h in column_after w longer inserted
    where
      column_after :
          (w : Versions J)
          → w ≡ column it.predicate p ++ decoded it (J.unmarshal it.object)
          → p'.columns ≡ Dict.insert it.predicate w p.columns
          → column k p'
            ≡ column k p ++ (if it.predicate == k then decoded it (J.unmarshal it.object) else [])
      column_after w longer inserted =
          ap (λ m. versions_at J (Dict.lookup k m)) inserted
          ∙ column-insert k it.predicate w p.columns
          ∙ elim (Bool-cases (it.predicate == k)) [
            | inl same ↦ rw same (
                longer
                ∙ ap
                    (λ j.
                      versions_at J (Dict.lookup j p.columns) ++ decoded it (J.unmarshal it.object))
                    ((eq_iff it.predicate k).0 same))
            | inr other ↦ rw other (sym (append-nil (versions_at J (Dict.lookup k p.columns))))
          ]

  module _ (q : Query) (follow : Dict Query) (level : ℕ) (max : ℤ) where
    visit_edge-columns :
        (it : Instruction) (o : Option Query) (p : Progress J)
        → (visit_edge J q follow level max it o p).columns ≡ p.columns
    unfolding visit_edge
    visit_edge-columns it none p = ground arith
    visit_edge-columns it (some c) p = refl

    -- A round that goes on has read a property, or leaves the columns alone.
    pub visit-cases :
        (it : Instruction) (p p' : Progress J)
        → visit J q follow level max it p ≡ ok (some p')
        → ((it.object_id == "") ≡ true)
            × ((it.predicate == "_parent_") ≡ false)
            × (add_version J it p ≡ ok (some p'))
          ⊎ ((it.object_id == "" && not (it.predicate == "_parent_")) ≡ false)
            × (p'.columns ≡ p.columns)
    unfolding visit
    visit-cases it p p' h =
        ground (arith, visit_edge-columns it (Dict.lookup it.predicate follow) p)

    pub visit-column :
        (k : String) (it : Instruction) (p p' : Progress J)
        → visit J q follow level max it p ≡ ok (some p')
        → column k p' ≡ column k p ++ version k it
    unfolding column
    visit-column k it p p' h = elim (visit-cases it p p' h) [
      | inl (plain, child, added) ↦
          add_version-column k it p p' added ∙ ap (λ l. column k p ++ l) (ground arith)
      | inr (edge, same) ↦
          ap (λ m. versions_at J (Dict.lookup k m)) same
          ∙ sym (append-nil (versions_at J (Dict.lookup k p.columns)))
          ∙ ap (λ l. column k p ++ l) (ground arith)
    ]

    visit_all-column :
        (k : String) (its : List Instruction) (p p' : Progress J)
        → visit_all J q follow level max its p ≡ ok (some p')
        → column k p' ≡ column k p ++ history k its
    unfolding visit_all
    visit_all-column k [] p p' h = let e : p ≡ p' = cc in ap (column k) (sym e) ∙ sym (append-nil _)
    visit_all-column k (it ∷ its) p p' h =
        let (p₁, first, rest) =
          proceed-eq-some J (visit_all J q follow level max its) (visit J q follow level max it p)
            h in
        visit_all-column k its p₁ p' rest
        ∙ ap (λ l. l ++ history k its) (visit-column k it p p₁ first)
        ∙ append_assoc (column k p) (version k it) (history k its)

  -- The versions of a property in a result.
  abbrev pub shown : String → Result J → Versions J
  shown k r = versions_at J (Dict.lookup k (columns_of J r))

module _ (J : Json) (S : Store) (db : S.State) (sort : List Instruction → List Instruction)
    (arrive : List (Outcome (Result J)) → List (Outcome (Result J))) (qs : Queries) where
  -- A query that succeeds returns the empty result, or shows of every property the whole history that
  -- the store has of the entity, in the order of the sorted rows: each row that is no edge is one version,
  -- with its value, author and time.
  pub do_run-history :
      (f : ℕ) (q : Query) (level : ℕ) (max : ℤ) (its : List Instruction) (r : Result J)
      → S.get_entity db q.id ≡ value its
      → do_run J S db sort arrive qs f q level max ≡ ok r
      → (r ≡ empty_result J) ⊎ ((k : String) → shown J k r ≡ history J k (sort its))
  unfolding column Dict.lookup
  do_run-history f q level max its r rows h =
      elim (do_run-inv J S db sort arrive qs q level max f its r rows h) [
        | inl empty ↦ inl empty
        | inr done ↦ inr λ k.
            ap (λ m. versions_at J (Dict.lookup k m)) done.columns
            ∙ visit_all-column J q _ level max k (sort its) _ done.progress done.through
      ]
