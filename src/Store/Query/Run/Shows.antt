-- ===== src/Store/Query/Run/Shows.antt =====
-- Entities that nothing leaves out.

use mathlib.Core.Bool.{Bool-set}
use gocrud.Prelude.{
  ℕ, zero, suc, ◌≡◌, ◌≢◌, refl, sym, ap, ◌∙◌, ◌⊎◌, inl, inr, false, Bool-cases, Option, none, some,
  List, [], ◌∷◌, Perm, All, All-perm, ℤ, arith,
}
use gocrud.Prelude.Dict.{Dict}
use gocrud.Outcome.{Outcome, value, ok, err, halt, pending, lift, >>=-eq-ok}
use gocrud.X.{Instruction}
use gocrud.Store.{Store}
use gocrud.Store.Update.{Json}
use gocrud.Store.Query.{Query, Queries, Result, add, result_id, result_kind, node, of_list}
use gocrud.Store.Query.Run.{
  Progress, add_version, proceed, visit, visit_all, gather, collect_children, run_sorted, run_rows,
  do_run,
}
use gocrud.Store.Query.Run.Discards.{leaves_out, any_leaves_out}

none_left_out :
    (q : Query) (its : List Instruction)
    → any_leaves_out q its ≡ false
    → All (λ it. leaves_out q it ≡ false) its
none_left_out q [] h = tt
none_left_out q (it ∷ its) h = elim (Bool-cases (leaves_out q it)) [
  | inl out ↦ let c = rw out at h in cc
  | inr kept ↦ (kept, none_left_out q its (rw kept at h))
]

module _ (J : Json) where
  add_version-ne-none : (it : Instruction) (p : Progress J) → add_version J it p ≢ ok none
  unfolding add_version
  add_version-ne-none it p h =
      let (v, _, h₁) = >>=-eq-ok (lift (J.unmarshal it.object)) _ h in
      let (w, _, h₂) = >>=-eq-ok (add J _ _) _ h₁ in cc

  proceed-eq-none :
      (next : Progress J → Outcome (Option (Progress J))) (o : Outcome (Option (Progress J)))
      → proceed J next o ≡ ok none
      → (o ≡ ok none) ⊎ ((p : Progress J) × (o ≡ ok (some p)) × (next p ≡ ok none))
  proceed-eq-none next (ok none) h = inl refl
  proceed-eq-none next (ok (some p)) h = inr (p, refl, h)
  proceed-eq-none next (err e) h = cc
  proceed-eq-none next (halt e) h = cc
  proceed-eq-none next pending h = cc

  module _ (q : Query) (follow : Dict Query) (level : ℕ) (max : ℤ) where
    visit-none :
        (it : Instruction) (p : Progress J)
        → leaves_out q it ≡ false
        → visit J q follow level max it p ≢ ok none
    unfolding visit
    visit-none it p k h = let no = add_version-ne-none it p in ground arith

    visit_all-none :
        (its : List Instruction) (p : Progress J)
        → All (λ it. leaves_out q it ≡ false) its
        → visit_all J q follow level max its p ≢ ok none
    unfolding visit_all
    visit_all-none [] p k h = cc
    visit_all-none (it ∷ its) p (first, rest) h =
        elim (proceed-eq-none (visit_all J q follow level max its) (visit J q follow level max it p)
          h) [
            | inl out ↦ visit-none it p first out
            | inr (p₁, _, later) ↦ visit_all-none its p₁ rest later
          ]

-- The result is that of the entity of the first row.
pub record IsOf {J : Json} (its : List Instruction) (r : Result J) : Type 0 where
  pub first : Instruction
  pub rest : List Instruction
  pub rows : its ≡ first ∷ rest
  pub id : result_id J r ≡ first.subject_id
  pub kind : result_kind J r ≡ first.subject_type

module _ (J : Json) (S : Store) (db : S.State) (sort : List Instruction → List Instruction)
    (arrive : List (Outcome (Result J)) → List (Outcome (Result J))) (qs : Queries) where
  collect_children-IsOf :
      (rec : Query → ℕ → ℤ → Outcome (Result J)) (it : Instruction) (its : List Instruction)
      (o : Option (Progress J)) (r : Result J)
      → o ≢ none
      → collect_children J S db sort arrive qs rec it o ≡ ok r
      → IsOf (it ∷ its) r
  unfolding collect_children
  collect_children-IsOf rec it its none r kept h = absurd (kept refl)
  collect_children-IsOf rec it its (some p) r kept h =
      let (children, _, built) = >>=-eq-ok (gather J _ []) _ h in
      let e : node it.subject_id it.subject_type p.columns (of_list J children) ≡ r = cc in
      record {
        first = it;
        rest = its;
        rows = refl;
        id = ap (result_id J) (sym e);
        kind = ap (result_kind J) (sym e);
      }

  run_sorted-IsOf :
      (rec : Query → ℕ → ℤ → Outcome (Result J)) (q : Query) (level : ℕ) (max : ℤ)
      (its : List Instruction) (r : Result J)
      → All (λ it. leaves_out q it ≡ false) its
      → run_sorted J S db sort arrive qs rec q level max its ≡ ok r
      → IsOf its r
  unfolding run_sorted
  run_sorted-IsOf rec q level max [] r k h = cc
  run_sorted-IsOf rec q level max (it ∷ its) r k h =
      let (o, walked, rest) = >>=-eq-ok (visit_all J q _ level max (it ∷ its) _) _ h in
      collect_children-IsOf rec it its o r
        (λ none_left. visit_all-none J q _ level max (it ∷ its) _ k (walked ∙ ap ok none_left)) rest

  -- If the sort only reorders rows, a query that succeeds on an entity that has rows, none of them a mark of
  -- deletion that counts or a property that it filters out, returns the entity: its id and its kind are those
  -- of the first of the sorted rows.
  pub do_run-IsOf :
      (f : ℕ) (q : Query) (level : ℕ) (max : ℤ) (it : Instruction) (its : List Instruction)
      (r : Result J)
      → ((l : List Instruction) → Perm l (sort l))
      → S.get_entity db q.id ≡ value (it ∷ its)
      → any_leaves_out q (it ∷ its) ≡ false
      → do_run J S db sort arrive qs f q level max ≡ ok r
      → IsOf (sort (it ∷ its)) r
  unfolding do_run run_rows
  do_run-IsOf zero q level max it its r same_rows rows kept h = cc
  do_run-IsOf (suc f) q level max it its r same_rows rows kept h =
      run_sorted-IsOf (do_run J S db sort arrive qs f) q level max (sort (it ∷ its)) r
        (All-perm _ (λ i. Bool-set _ _) (same_rows (it ∷ its)) (none_left_out q (it ∷ its) kept))
        (rw rows at h)
