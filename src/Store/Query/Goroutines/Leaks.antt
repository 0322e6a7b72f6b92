-- ===== src/Store/Query/Goroutines/Leaks.antt =====
-- The goroutines that a call leaves behind when it ends early.
use gocrud.Prelude.{ℕ, ◌≡◌, refl, sym, ap, ◌∙◌, none, inl, inr, some, List, ◌∷◌, ◌++◌, ℤ}
use gocrud.Outcome.{Outcome, ok}
use gocrud.X.{Instruction}
use gocrud.Store.Update.{Json}
use gocrud.Store.Query.{Query, Queries, Result}
use gocrud.Store.Query.Run.{Progress}
use gocrud.Store.Query.Goroutines.{
  result_of, Call, Step, walk, discard, fail, wait, offer, receive, panic, hand_over, send, Reach,
}
use gocrud.Store.Query.Goroutines.Held.{held, held-offer}
use gocrud.Store.Query.Goroutines.Ends.{walked, jobs_of, Inv-Ended, Reach-Inv}
use gocrud.Store.Query.Goroutines.Lives.{Steps, stay, go_on}

module _ (J : Json) (qs : Queries) (rec : Query → ℕ → ℤ → Outcome (Result J)) (q : Query)
    (level : ℕ) (max : ℤ) (first : Instruction) where
  -- A call whose result is settled receives nothing more.
  step-held :
      {s t : Call J} {o : Outcome (Result J)}
      → result_of J s.parent ≡ some o
      → Step J qs rec q level max first s t
      → (result_of J t.parent ≡ some o) × (held J t.children ≡ held J s.children)
  step-held at (walk it its p p' new there went more) = cc
  step-held {s} {t} {o} at (discard it its p there out) =
      let no : none ≡ some o = sym (ap (result_of J) there) ∙ at in cc
  step-held {s} {t} {o} at (fail it its p e there bad) =
      let no : none ≡ some o = sym (ap (result_of J) there) ∙ at in cc
  step-held {s} {t} {o} at (wait p there) =
      let no : none ≡ some o = sym (ap (result_of J) there) ∙ at in cc
  step-held at (hand_over o there) = (sym (ap (result_of J) there) ∙ at, refl)
  step-held {s} at (offer i o run back) = (at, held-offer J s.children i o run)
  step-held {s} {t} {o} at (receive i k p acc r there offered) =
      let no : none ≡ some o = sym (ap (result_of J) there) ∙ at in cc
  step-held {s} {t} {o} at (panic i k p acc e there offered) =
      let no : none ≡ some o = sym (ap (result_of J) there) ∙ at in cc
  step-held {s} {t} {o} at (send p acc there) =
      let no : none ≡ some o = sym (ap (result_of J) there) ∙ at in cc

  Steps-held :
      {k : ℕ} {s t : Call J} {o : Outcome (Result J)}
      → Steps J qs rec q level max first k s t
      → result_of J s.parent ≡ some o
      → held J t.children ≡ held J s.children
  Steps-held stay at = refl
  Steps-held (go_on step steps) at =
      let (still, same) = step-held at step in Steps-held steps still ∙ same

  -- A call whose loop over the rows returns early, since a row discards the entity or cannot be read, leaves
  -- every child behind that it has started at the rows before that one: however long the children go on,
  -- none of their results is received, so each of them stays in its send for ever.
  pub left_behind :
      (rest : List Instruction) (k : ℕ) (s t : Call J) (o : Outcome (Result J))
      → Reach J qs rec q level max first rest s
      → result_of J s.parent ≡ some o
      → ((p : Progress J) → walked J qs rec q level max first rest (first ∷ rest) ≡ ok (some p) → ⊥)
      → Steps J qs rec q level max first k s t
      → (before : List Instruction) × (row : Instruction) × (after : List Instruction)
        × (p : Progress J) × (first ∷ rest ≡ before ++ row ∷ after)
        × (walked J qs rec q level max first rest before ≡ ok (some p))
        × (held J t.children ≡ jobs_of J qs rec q level max first rest p)
  left_behind rest k s t o r at early steps =
      elim (Inv-Ended J qs rec q level max first rest s.parent s.children o at
        (Reach-Inv J qs rec q level max first rest r)) [
          | inr g ↦ absurd (early g.p g.all_rows)
          | inl e ↦ (
            e.at.behind,
            e.row,
            e.ahead,
            e.p,
            e.at.rows,
            e.at.so_far,
            Steps-held steps at ∙ e.at.same,
          )
        ]
