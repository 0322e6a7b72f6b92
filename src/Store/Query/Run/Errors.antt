-- ===== src/Store/Query/Run/Errors.antt =====
-- What becomes of the errors of children.
use gocrud.Prelude.{
  ℕ, zero, suc, String, ◌≡◌, ◌≢◌, refl, ◌∙◌, ap, ◌⊎◌, inl, inr, Bool, true, false, Option, none,
  some, List, [], ◌∷◌, ℤ, arith,
}
use mathlib.Core.List.{Memᴰ}
use gocrud.Prelude.Dict.{Dict}
use gocrud.Outcome.{Outcome, Fallible, value, error, ok, err, halt, pending, lift, ◌>>=◌}
use gocrud.X.{Instruction}
use gocrud.Store.{Store}
use gocrud.Store.Update.{Json}
use gocrud.Store.Query.{Query, Queries, Object, Versions, add, Result}
use gocrud.Store.Query.Run.{
  Progress, visit, visit_all, proceed, follow_from, gather, collect_children, run_sorted, run_rows,
  do_run, add_version,
}

module _ (J : Json) where
  -- No child's error comes through: the loop that waits for the children returns none.
  gather-ne-err :
      (rs : List (Outcome (Result J))) (acc : List (Result J)) (e : String)
      → gather J rs acc ≢ err e
  unfolding gather
  gather-ne-err [] acc e = λ p. cc
  gather-ne-err (ok r ∷ rs) acc e = gather-ne-err rs _ e
  gather-ne-err (err x ∷ rs) acc e = λ p. cc
  gather-ne-err (halt x ∷ rs) acc e = λ p. cc
  gather-ne-err (pending ∷ rs) acc e = λ p. cc

  -- A list of results with an error among those that came before any end of the process.
  abbrev pub has_error : List (Outcome (Result J)) → Bool
  has_error [] = false
  has_error (ok r ∷ rs) = has_error rs
  has_error (err e ∷ rs) = true
  has_error (halt e ∷ rs) = false
  has_error (pending ∷ rs) = false

  -- If the result of a child is an error, and no child ends the process before it arrives, the loop that
  -- waits for the children panics, whatever else the children return.
  pub gather_error :
      (rs : List (Outcome (Result J))) (acc : List (Result J))
      → has_error rs ≡ true
      → gather J rs acc ≡ halt "nil pointer dereference"
  unfolding gather
  gather_error [] acc h = cc
  gather_error (ok r ∷ rs) acc h = gather_error rs _ h
  gather_error (err e ∷ rs) acc h = refl
  gather_error (halt e ∷ rs) acc h = cc
  gather_error (pending ∷ rs) acc h = cc

>>=-eq-err :
    {A B : Type 0} (m : Outcome A) (f : A → Outcome B) {e : String}
    → (m >>= f) ≡ err e
    → (m ≡ err e) ⊎ ((a : A) × (m ≡ ok a) × (f a ≡ err e))
>>=-eq-err (ok a) f h = inr (a, refl, h)
>>=-eq-err (err x) f h = inl cc
>>=-eq-err (halt x) f h = cc
>>=-eq-err pending f h = cc

error_of_lift : {A : Type 0} (f : Fallible A) {e : String} → lift f ≡ err e → f ≡ error e
error_of_lift (value a) h = cc
error_of_lift (error x) h = cc

module _ (J : Json) (q : Query) (follow : Dict Query) (level : ℕ) (max : ℤ) where
  add-ne-err : (o : Object J) (v : Versions J) (e : String) → add J o v ≢ err e
  unfolding add
  add-ne-err o [] e = λ p. cc
  add-ne-err o (p ∷ v) e = ground arith

  add_version-error :
      (it : Instruction) (p : Progress J) (e : String)
      → add_version J it p ≡ err e
      → J.unmarshal it.object ≡ error e
  unfolding add_version
  add_version-error it p e h = elim (>>=-eq-err (lift (J.unmarshal it.object)) _ h) [
    | inl own ↦ error_of_lift (J.unmarshal it.object) own
    | inr (v, _, h₁) ↦ elim (>>=-eq-err (add J _ _) _ h₁) [
      | inl late ↦ absurd (add-ne-err _ _ e late)
      | inr (w, _, h₂) ↦ cc
    ]
  ]

  visit-error :
      (it : Instruction) (p : Progress J) (e : String)
      → visit J q follow level max it p ≡ err e
      → J.unmarshal it.object ≡ error e
  unfolding visit
  visit-error it p e h = ground (arith, add_version-error it p e)

  proceed-eq-err :
      (next : Progress J → Outcome (Option (Progress J))) (o : Outcome (Option (Progress J)))
      {e : String}
      → proceed J next o ≡ err e
      → (o ≡ err e) ⊎ ((p : Progress J) × (next p ≡ err e))
  proceed-eq-err next (ok none) h = cc
  proceed-eq-err next (ok (some p)) h = inr (p, h)
  proceed-eq-err next (err x) h = inl h
  proceed-eq-err next (halt x) h = cc
  proceed-eq-err next pending h = cc

  visit_all-error :
      (its : List Instruction) (p : Progress J) (e : String)
      → visit_all J q follow level max its p ≡ err e
      → (i : Instruction) × Memᴰ i its × (J.unmarshal i.object ≡ error e)
  unfolding visit_all
  visit_all-error [] p e h = cc
  visit_all-error (it ∷ its) p e h =
      elim (proceed-eq-err (visit_all J q follow level max its) _ h) [
        | inl own ↦ (it, Memᴰ.head refl, visit-error it p e own)
        | inr (p₁, later) ↦
            let (i, at, bad) = visit_all-error its p₁ e later in (i, Memᴰ.tail at, bad)
      ]

module _ (J : Json) (S : Store) (db : S.State) (sort : List Instruction → List Instruction)
    (arrive : List (Outcome (Result J)) → List (Outcome (Result J))) (qs : Queries) where
  -- The error that a query returns is the driver's for its own entity, or one of reading a value of its
  -- own rows.
  abbrev pub OwnError : Query → String → Type 0
  OwnError q e =
      (S.get_entity db q.id ≡ error e)
      ⊎ ((its : List Instruction) × (i : Instruction) × (S.get_entity db q.id ≡ value its)
          × Memᴰ i (sort its)
          × (J.unmarshal i.object ≡ error e))

  collect_children-ne-err :
      (rec : Query → ℕ → ℤ → Outcome (Result J)) (it : Instruction) (o : Option (Progress J))
      (e : String)
      → collect_children J S db sort arrive qs rec it o ≢ err e
  unfolding collect_children
  collect_children-ne-err rec it none e = λ p. cc
  collect_children-ne-err rec it (some p) e = λ h. elim (>>=-eq-err (gather J _ []) _ h) [
    | inl bad ↦ gather-ne-err J _ [] e bad
    | inr (children, _, built) ↦ cc
  ]

  run_sorted-error :
      (rec : Query → ℕ → ℤ → Outcome (Result J)) (q : Query) (level : ℕ) (max : ℤ)
      (its : List Instruction) (e : String)
      → run_sorted J S db sort arrive qs rec q level max its ≡ err e
      → (i : Instruction) × Memᴰ i its × (J.unmarshal i.object ≡ error e)
  unfolding run_sorted
  run_sorted-error rec q level max [] e h = cc
  run_sorted-error rec q level max (it ∷ its) e h =
      elim (>>=-eq-err (visit_all J q (follow_from qs q.children []) level max (it ∷ its) _) _ h) [
        | inl own ↦ visit_all-error J q (follow_from qs q.children []) level max (it ∷ its) _ e own
        | inr (o, _, later) ↦ absurd (collect_children-ne-err rec it o e later)
      ]

  -- A query returns no error of its children: an error is the driver's for the query's own entity, or
  -- that of reading a value of one of the entity's own rows.
  pub do_run-OwnError :
      (f : ℕ) (q : Query) (level : ℕ) (max : ℤ) (e : String)
      → do_run J S db sort arrive qs f q level max ≡ err e
      → OwnError q e
  unfolding do_run run_rows
  do_run-OwnError zero q level max e h = cc
  do_run-OwnError (suc f) q level max e h = go (S.get_entity db q.id) refl h
    where
      go :
          (g : Fallible (List Instruction))
          → S.get_entity db q.id ≡ g
          → (lift g >>= run_rows J S db sort arrive qs (do_run J S db sort arrive qs f) q level max)
            ≡ err e
          → OwnError q e
      go (error x) at h = let p : x ≡ e = cc in inl (at ∙ ap error p)
      go (value []) at h = cc
      go (value (it ∷ its)) at h =
          let (i, mem, bad) =
            run_sorted-error (do_run J S db sort arrive qs f) q level max (sort (it ∷ its)) e h in
          inr (it ∷ its, i, at, mem, bad)
