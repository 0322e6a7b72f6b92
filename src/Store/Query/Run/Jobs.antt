-- ===== src/Store/Query/Run/Jobs.antt =====
-- The goroutines that one round of the loop of `doRun` starts.
use gocrud.Prelude.{
  ℕ, ◌≤◌, ◌≡◌, refl, sym, ◌∙◌, ◌⊎◌, inl, inr, Bool-cases, Option, none, some, List, [], ◌++◌,
  append-nil, length, ℤ, pos, ltb_ℤ, arith,
}
use gocrud.Prelude.Dict
use gocrud.Prelude.Dict.{Dict}
use gocrud.Outcome.{ok, lift, >>=-eq-ok}
use gocrud.X.{Instruction}
use gocrud.Store.Update.{Json}
use gocrud.Store.Query.{Query, add}
use gocrud.Store.Query.Run.{Job, Progress, visit, visit_edge, add_version}

module _ (J : Json) where
  add_version-jobs :
      (it : Instruction) (p p' : Progress J) → add_version J it p ≡ ok (some p') → p'.jobs ≡ p.jobs
  unfolding add_version
  add_version-jobs it p p' h =
      let (v, _, h₁) = >>=-eq-ok (lift (J.unmarshal it.object)) _ h in
      let (w, _, h₂) = >>=-eq-ok (add J _ _) _ h₁ in cc

  module _ (q : Query) (follow : Dict Query) (level : ℕ) (max : ℤ) where
    pub visit-jobs :
        (it : Instruction) (p p' : Progress J)
        → visit J q follow level max it p ≡ ok (some p')
        → (p'.jobs ≡ p.jobs)
          ⊎ (p'.jobs
              ≡ (visit_edge J q follow level max it (Dict.lookup it.predicate follow) p).jobs)
    unfolding visit
    visit-jobs it p p' h = ground (arith, add_version-jobs it p p')

    -- A row starts one goroutine at most.
    abbrev pub Grows : Progress J → List Job → Type 0
    Grows p jobs = (new : List Job) × (jobs ≡ p.jobs ++ new) × (length new ≤ 1)

    visit_edge-Grows :
        (it : Instruction) (o : Option Query) (p : Progress J)
        → Grows p (visit_edge J q follow level max it o p).jobs
    unfolding visit_edge
    visit_edge-Grows it (some c) p = (_, refl, omega arith)
    visit_edge-Grows it none p = elim (Bool-cases (ltb_ℤ (pos level) max)) [
      | inl deeper ↦ rw deeper (_, refl, omega arith)
      | inr deepest ↦ rw deepest ([], sym (append-nil p.jobs), omega arith)
    ]

    pub visit-Grows :
        (it : Instruction) (p p' : Progress J)
        → visit J q follow level max it p ≡ ok (some p')
        → Grows p p'.jobs
    visit-Grows it p p' h = elim (visit-jobs it p p' h) [
      | inl same ↦ ([], same ∙ sym (append-nil p.jobs), omega arith)
      | inr edge ↦
          let (new, more, few) = visit_edge-Grows it (Dict.lookup it.predicate follow) p in
          (new, edge ∙ more, few)
    ]
