-- ===== src/Store/Query/Run/Fuel.antt =====
-- A query always returns: the fuel that `run` gives is enough.
use gocrud.Prelude.{
  ℕ, zero, suc, ◌+◌, ◌≤◌, ◌<◌, String, ◌≡◌, refl, sym, subst, inl, inr, Bool, true, Bool-cases,
  Option-cases, Option, none, some, List, [], ◌∷◌, map, All, All-append, length, length-map,
  get_elem?, ℤ, pos, pos_part, ltb_ℤ, arith,
}
use gocrud.Prelude.Dict
use gocrud.Prelude.Dict.{Dict, lookup-insert_cases}
use gocrud.Outcome.{ok}
use gocrud.X.{Instruction}
use gocrud.Store.Arena.{ChildrenAbove, get_elem?-map, lt_of_get_elem?}
use gocrud.Store.Update.{Json}
use gocrud.Store.Query.{Query, Queries, blank}
use gocrud.Store.Query.Run.Jobs.{visit-jobs}
use gocrud.Store.Query.Run.{Job, Progress, visit_edge, visit, visit_all, follow_from, deepest}
use gocrud.Store.Query.Run.Walk.{proceed-eq-some}

lt_of_ltb_ℤ : (level : ℕ) (max : ℤ) → ltb_ℤ (pos level) max ≡ true → level < pos_part max
lt_of_ltb_ℤ level max h = ground arith

module _ (qs : Queries) where
  -- A query with children in the arena stands at level 0; one that `doRun` makes for a deeper level has
  -- no children.
  pub data Fits (f : ℕ) (q : Query) (level : ℕ) (max : ℤ) : Type 0 where
    deeper :
        q.children ≡ []
        → level ≤ deepest qs
        → pos_part max ≤ deepest qs
        → suc (deepest qs) ≤ f + level
        → Fits f q level max
    followed :
        (k : ℕ)
        → All (λ c. (k ≤ c) × (c < length qs)) q.children
        → level ≡ 0
        → k ≤ length qs
        → pos_part max ≤ deepest qs
        → suc (length qs + deepest qs) ≤ f + k
        → Fits f q level max

  pub Fits-zero : (q : Query) (level : ℕ) (max : ℤ) → ¬ Fits 0 q level max
  Fits-zero q level max (deeper _ l _ e) = omega arith
  Fits-zero q level max (followed k _ _ l _ e) = omega arith

  abbrev pub FitsJob : ℕ → Job → Type 0
  FitsJob f j = Fits f j.query j.level j.max

  pub le_deepest :
      (rs : Queries) (c : ℕ) (q : Query)
      → get_elem? rs c ≡ some q
      → pos_part q.max_depth ≤ deepest rs
  unfolding deepest
  le_deepest [] c q h = cc
  le_deepest (r ∷ rs) zero q h = let e : r ≡ q = cc in rw (← e) (omega arith)
  le_deepest (r ∷ rs) (suc c) q h = omega (arith, le_deepest rs c q h)

  -- What `follow_from` finds has been among the children.
  follow_from-All :
      (P : ℕ → Type 0) (Q : Query → Type 0)
      → ((c : ℕ) (q : Query) → P c → get_elem? qs c ≡ some q → Q q)
      → (cs : List ℕ) (m : Dict Query) (k : String) (q : Query) → All P cs
      → ((j : String) (r : Query) → Dict.lookup j m ≡ some r → Q r)
      → Dict.lookup k (follow_from qs cs m) ≡ some q
      → Q q
  unfolding follow_from
  follow_from-All P Q at [] m k q all base h = base k q h
  follow_from-All P Q at (c ∷ cs) m k q all base h = elim (Option-cases (get_elem? qs c)) [
    | inl e ↦ follow_from-All P Q at cs m k q all.1 base (rw (e, follow_from) at h)
    | inr (child, e) ↦
        follow_from-All P Q at cs (Dict.insert child.kind child m) k q all.1
          (λ j r found. elim (lookup-insert_cases child.kind j child m found) [
            | inl new ↦ subst Q new (at c child all.0 e)
            | inr old ↦ base j r old
          ])
          (rw (e, follow_from) at h)
  ]

  module _ (above : ChildrenAbove (map (λ q. q.children) qs)) where
    -- A query of the arena, with any id, run from the level 0.
    pub Fits-child :
        (f c : ℕ) (q : Query) (id : String) (deleted : Bool)
        → get_elem? qs c ≡ some q
        → suc (length qs + deepest qs) ≤ f + suc c
        → Fits f (record q { id = id; get_deleted = deleted }) 0 q.max_depth
    Fits-child f c q id deleted e enough =
        followed (suc c)
          (subst (λ n. All (λ d. (suc c ≤ d) × (d < n)) q.children)
            (length-map qs (λ (q : Query). q.children))
            (above c q.children (get_elem?-map _ qs c e)))
          refl (lt_of_get_elem? qs c e) (le_deepest qs c q e) enough

    Fits-deeper :
        (f : ℕ) (q : Query) (level : ℕ) (max : ℤ) (id : String) (deleted : Bool)
        → ltb_ℤ (pos level) max ≡ true
        → Fits (suc f) q level max
        → Fits f (record blank { id = id; get_deleted = deleted }) (suc level) max
    Fits-deeper f q level max id deleted lt (deeper _ _ m e) =
        deeper refl (omega (arith, lt_of_ltb_ℤ level max lt)) m (omega arith)
    Fits-deeper f q level max id deleted lt (followed k _ z inside m e) =
        deeper refl (omega (arith, lt_of_ltb_ℤ level max lt)) m (omega arith)

    lookup_in_empty :
        (Q : Query → Type 0) (j : String) (r : Query) → Dict.lookup j [] ≡ some r → Q r
    unfolding Dict.lookup
    lookup_in_empty Q j r h = cc

    Fits-followed :
        (f : ℕ) (q : Query) (level : ℕ) (max : ℤ) (k : String) (c : Query) (id : String)
        (deleted : Bool)
        → Dict.lookup k (follow_from qs q.children []) ≡ some c
        → Fits (suc f) q level max
        → Fits f (record c { id = id; get_deleted = deleted }) 0 c.max_depth
    Fits-followed f q level max k c id deleted found (deeper leaf _ _ _) =
        follow_from-All (λ _. ⊥)
          (λ u. Fits f (record u { id = id; get_deleted = deleted }) 0 u.max_depth)
          (λ _ _ none_there _. absurd none_there) q.children [] k c
          (subst (All (λ _. ⊥)) (sym leaf) tt) (lookup_in_empty _) found
    Fits-followed f q level max k c id deleted found (followed low inside _ _ _ e) =
        follow_from-All _ (λ u. Fits f (record u { id = id; get_deleted = deleted }) 0 u.max_depth)
          (λ n u at here. Fits-child f n u id deleted here (omega arith)) q.children [] k c inside
          (lookup_in_empty _) found

    module _ (J : Json) (f : ℕ) (q : Query) (level : ℕ) (max : ℤ)
        (fits : Fits (suc f) q level max) where
      -- `follow` stays shut behind a name for the proofs on the loop.
      abbrev pub children_by_kind : Dict Query
      children_by_kind = follow_from qs q.children []

      visit_edge-Fits :
          (it : Instruction) (o : Option Query) (p : Progress J)
          → Dict.lookup it.predicate children_by_kind ≡ o
          → All (FitsJob f) p.jobs
          → All (FitsJob f) (visit_edge J q children_by_kind level max it o p).jobs
      unfolding visit_edge
      visit_edge-Fits it none p e all = elim (Bool-cases (ltb_ℤ (pos level) max)) [
        | inl lt ↦ rw lt (
            All-append (FitsJob f) p.jobs _ all
              (Fits-deeper f q level max it.object_id q.get_deleted lt fits, tt))
        | inr ge ↦ rw ge all
      ]
      visit_edge-Fits it (some c) p e all =
          All-append (FitsJob f) p.jobs _ all
            (Fits-followed f q level max it.predicate c it.object_id q.get_deleted e fits, tt)

      pub visit_all-Fits :
          (its : List Instruction) (p p' : Progress J)
          → visit_all J q children_by_kind level max its p ≡ ok (some p')
          → All (FitsJob f) p.jobs
          → All (FitsJob f) p'.jobs
      unfolding visit_all
      visit_all-Fits [] p p' h all = let e : p ≡ p' = cc in rw (← e) all
      visit_all-Fits (it ∷ its) p p' h all =
          let (p₁, first, rest) =
            proceed-eq-some J (visit_all J q children_by_kind level max its)
              (visit J q children_by_kind level max it p) h in
          visit_all-Fits its p₁ p' rest
            (elim (visit-jobs J q children_by_kind level max it p p₁ first) [
              | inl same ↦ subst (All (FitsJob f)) (sym same) all
              | inr more ↦ subst (All (FitsJob f)) (sym more) (visit_edge-Fits it _ p refl all)
            ])
