-- ===== src/Store/Query/Run/Healthy.antt =====
-- Queries of a healthy store succeed: no branch that ends the process is reached.
use gocrud.Prelude.{
  ℕ, String, ◌≡◌, refl, sym, append-nil, subst, inl, inr, Bool, true, false, not, ◌==◌, ◌||◌, ◌&&◌,
  Bool-cases, Option, none, some, List, [], ◌∷◌, ◌++◌, All, ℤ, ◌≤ℤ◌, ltb_ℤ-false_iff, arith,
  IsSortedBy,
}
use gocrud.Prelude.Dict
use gocrud.Prelude.Dict.{Dict}
use gocrud.Outcome.{Outcome, Fallible, value, error, ok, err, halt, pending, lift, is_ok, >>=-is_ok}
use gocrud.X.{Instruction}
use gocrud.Store.Update.{Json}
use gocrud.Store.Query.{Query, add, latest, Object, Versions}
use gocrud.Store.Query.Run.{Progress, add_version, visit, visit_all, proceed}
use gocrud.Store.Query.Run.History.{version, decoded, column, visit-column}

module _ (J : Json) where
  abbrev pub is_value : Fallible J.Value → Bool
  is_value (value v) = true
  is_value (error e) = false

  is_value-lift : (f : Fallible J.Value) → is_value f ≡ true → is_ok (lift f) ≡ true
  is_value-lift (value v) h = refl
  is_value-lift (error e) h = cc

  -- A row whose value, if it is no edge, can be read.
  abbrev pub is_readable : Instruction → Bool
  is_readable i = not (i.object_id == "") || is_value (J.unmarshal i.object)

  -- The row is no older than the versions.
  abbrev InTime : Instruction → Versions J → Type 0
  InTime i [] = Unit
  InTime i (o ∷ v) = (latest J (o ∷ v)).nano_ts ≤ℤ i.nano_ts

  latest-append : (v : Versions J) (o : Object J) → latest J (v ++ o ∷ []) ≡ o
  unfolding latest
  latest-append [] o = refl
  latest-append (p ∷ []) o = refl
  latest-append (p ∷ q ∷ v) o = latest-append (q ∷ v) o

  InTime-append :
      (i : Instruction) (v : Versions J) (o : Object J)
      → o.nano_ts ≤ℤ i.nano_ts
      → InTime i (v ++ o ∷ [])
  InTime-append i [] o h = rw (latest-append [] o) h
  InTime-append i (p ∷ v) o h = rw (latest-append (p ∷ v) o) h

  InTime-decoded :
      (i it : Instruction) (v : Versions J) (f : Fallible J.Value)
      → it.nano_ts ≤ℤ i.nano_ts
      → InTime i v
      → InTime i (v ++ decoded J it f)
  InTime-decoded i it v (value x) h k = InTime-append i v _ h
  InTime-decoded i it v (error e) h k = subst (InTime i) (sym (append-nil v)) k

  InTime-version :
      (k : String) (i it : Instruction) (v : Versions J)
      → it.nano_ts ≤ℤ i.nano_ts
      → InTime i v
      → InTime i (v ++ version J k it)
  InTime-version k i it v h t =
      elim (Bool-cases
        (it.predicate == k && it.object_id == "" && not (it.predicate == "_parent_"))) [
          | inl yes_version ↦ rw yes_version (InTime-decoded i it v (J.unmarshal it.object) h t)
          | inr no_version ↦ rw no_version (subst (InTime i) (sym (append-nil v)) t)
        ]

  add-is_ok :
      (o : Object J) (i : Instruction) (v : Versions J)
      → o.nano_ts ≡ i.nano_ts
      → InTime i v
      → is_ok (add J o v) ≡ true
  unfolding add
  add-is_ok o i [] e t = refl
  add-is_ok o i (p ∷ v) e t = rw (e, ltb_ℤ-false_iff i.nano_ts (latest J (p ∷ v)).nano_ts t) refl

  add_version-is_ok :
      (it : Instruction) (p : Progress J)
      → is_value (J.unmarshal it.object) ≡ true
      → InTime it (column J it.predicate p)
      → is_ok (add_version J it p) ≡ true
  unfolding add_version column
  add_version-is_ok it p r t =
      >>=-is_ok (lift (J.unmarshal it.object)) _ (is_value-lift (J.unmarshal it.object) r)
        λ v _. >>=-is_ok (add J _ _) _ (add-is_ok _ it _ refl t) λ w _. refl

  module _ (q : Query) (follow : Dict Query) (level : ℕ) (max : ℤ) where
    visit-is_ok :
        (it : Instruction) (p : Progress J)
        → is_readable it ≡ true
        → InTime it (column J it.predicate p)
        → is_ok (visit J q follow level max it p) ≡ true
    unfolding visit
    visit-is_ok it p r t = elim (Bool-cases (it.object_id == "")) [
      | inl plain ↦ let fine = add_version-is_ok it p (rw plain at r) t in ground arith
      | inr edge ↦ ground arith
    ]

    -- What is left is no older than what was read, for each property.
    abbrev Fresh : Progress J → List Instruction → Type 0
    Fresh p its = (k : String) → All (λ i. InTime i (column J k p)) its

    Fresh-visit :
        (it : Instruction) (its : List Instruction) (p p' : Progress J)
        → visit J q follow level max it p ≡ ok (some p')
        → All (λ i. it.nano_ts ≤ℤ i.nano_ts) its
        → Fresh p its
        → Fresh p' its
    Fresh-visit it [] p p' h later fresh k = tt
    Fresh-visit it (i ∷ its) p p' h later fresh k = (
      subst (InTime i) (sym (visit-column J q follow level max k it p p' h))
          (InTime-version k i it (column J k p) later.0 (fresh k).0),
      Fresh-visit it its p p' h later.1 (λ j. (fresh j).1) k,
    )

    proceed-is_ok :
        (next : Progress J → Outcome (Option (Progress J))) (o : Outcome (Option (Progress J)))
        → is_ok o ≡ true
        → ((p : Progress J) → o ≡ ok (some p) → is_ok (next p) ≡ true)
        → is_ok (proceed J next o) ≡ true
    proceed-is_ok next (ok none) h k = refl
    proceed-is_ok next (ok (some p)) h k = k p refl
    proceed-is_ok next (err e) h k = cc
    proceed-is_ok next (halt e) h k = cc
    proceed-is_ok next pending h k = cc

    pub visit_all-is_ok :
        (its : List Instruction) (p : Progress J)
        → IsSortedBy (λ i. i.nano_ts) its
        → All (λ i. is_readable i ≡ true) its
        → Fresh p its
        → is_ok (visit_all J q follow level max its p) ≡ true
    unfolding visit_all
    visit_all-is_ok [] p sorted readable fresh = refl
    visit_all-is_ok (it ∷ its) p sorted readable fresh =
        proceed-is_ok (visit_all J q follow level max its) (visit J q follow level max it p)
          (visit-is_ok it p readable.0 (fresh it.predicate).0)
          λ p₁ first.
            visit_all-is_ok its p₁ sorted.1 readable.1
              (Fresh-visit it its p p₁ first sorted.0 (λ k. (fresh k).1))

    pub visit_all-is_ok_start :
        (its : List Instruction)
        → IsSortedBy (λ i. i.nano_ts) its
        → All (λ i. is_readable i ≡ true) its
        → is_ok (visit_all J q follow level max its (record { columns = []; jobs = [] })) ≡ true
    unfolding column Dict.lookup
    visit_all-is_ok_start its sorted readable =
        visit_all-is_ok its _ sorted readable (λ k. Fresh-start its k)
      where
        Fresh-start : (l : List Instruction) (k : String) → All (λ i. InTime i []) l
        Fresh-start [] k = tt
        Fresh-start (i ∷ l) k = (tt, Fresh-start l k)
