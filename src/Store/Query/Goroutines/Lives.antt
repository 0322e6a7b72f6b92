-- ===== src/Store/Query/Goroutines/Lives.antt =====
-- How long a call and its goroutines go on, and which of them never end.
use gocrud.Prelude.{
  ℕ, zero, suc, ◌+◌, ◌*◌, ◌≤◌, ◌<◌, ◌≡◌, refl, ap, ◌⊎◌, inl, inr, true, false, Option, none, some,
  List, [], ◌∷◌, ◌++◌, map, All, All-perm, All-right, length, length-append, get_elem?, set, ℤ,
  arith,
}
use mathlib.Core.Bool.{Bool-set}
use gocrud.Outcome.{Outcome, ok, err, halt, pending}
use gocrud.X.{Instruction}
use gocrud.Store.Update.{Json}
use gocrud.Store.Query.{Query, Queries, Result}
use gocrud.Store.Query.Run.{Progress, follow_from}
use gocrud.Store.Query.Run.Jobs.{visit-Grows}
use gocrud.Store.Query.Goroutines.{
  Child, running, blocked, received, Parent, walking, waiting, sending, returned, panicked,
  result_of, Call, sends, job, seen, Step, walk, discard, fail, wait, offer, receive, panic,
  hand_over, send, Reach, later,
}
use gocrud.Store.Query.Goroutines.Held.{held}
use gocrud.Store.Query.Goroutines.Ends.{walked, jobs_of, Inv, Reach-Inv}

-- The steps that a child has before it, besides the receive.
abbrev strength : {J : Json} → Child J → ℕ
strength (running o) = 1
strength (blocked o) = 0
strength received = 0

abbrev strengths : {J : Json} → List (Child J) → ℕ
strengths [] = 0
strengths (c ∷ cs) = strength c + strengths cs

-- A bound on the steps that a call has before it, where each row may start a child.
abbrev rows_before : {J : Json} → Parent J → ℕ
rows_before (walking its p) = 3 + length p.jobs + 3 * length its
rows_before (waiting k p acc) = 2 + k
rows_before (sending o) = 1
rows_before (returned o) = 0
rows_before (panicked e) = 0

module _ {J : Json} where
  strengths-append : (cs ds : List (Child J)) → strengths (cs ++ ds) ≡ strengths cs + strengths ds
  strengths-append [] ds = omega arith
  strengths-append (c ∷ cs) ds = omega (arith, strengths-append cs ds)

  strengths-map :
      {B : Type 0} (f : B → Outcome (Result J)) (l : List B)
      → strengths (map (λ j. running (f j)) l) ≡ length l
  strengths-map f [] = omega arith
  strengths-map f (j ∷ l) = omega (arith, strengths-map f l)

  strengths-set :
      (cs : List (Child J)) (i : ℕ) (c d : Child J)
      → get_elem? cs i ≡ some c
      → strengths (set cs i d) + strength c ≡ strengths cs + strength d
  strengths-set [] i c d h = cc
  strengths-set (b ∷ cs) zero c d h = let e : b ≡ c = cc in omega (arith, ap strength e)
  strengths-set (b ∷ cs) (suc i) c d h = omega (arith, strengths-set cs i c d h)

module _ (J : Json) (qs : Queries) (rec : Query → ℕ → ℤ → Outcome (Result J)) (q : Query)
    (level : ℕ) (max : ℤ) (first : Instruction) where
  abbrev pub weight : Call J → ℕ
  weight s = rows_before s.parent + strengths s.children

  step_lowers : {s t : Call J} → Step J qs rec q level max first s t → weight t < weight s
  step_lowers {s} (walk it its p p' new at went more) =
      let (new', more', few) =
        visit-Grows J q (follow_from qs q.children []) level max it p p' went in
      omega (
        arith,
        ap rows_before at,
        ap length more,
        ap length more',
        length-append p.jobs new,
        length-append p.jobs new',
        few,
        strengths-append s.children (map (λ j. running (job J qs rec q level max first j)) new),
        strengths-map (job J qs rec q level max first) new,
      )
  step_lowers {s} (discard it its p at out) = omega (arith, ap rows_before at)
  step_lowers {s} (fail it its p e at bad) = omega (arith, ap rows_before at)
  step_lowers {s} (wait p at) = omega (arith, ap rows_before at)
  step_lowers {s} (offer i o at back) =
      omega (arith, strengths-set s.children i (running o) (blocked o) at)
  step_lowers {s} (receive i k p acc r at there) =
      omega (arith, ap rows_before at, strengths-set s.children i (blocked (ok r)) received there)
  step_lowers {s} (panic i k p acc e at there) =
      omega (arith, ap rows_before at, strengths-set s.children i (blocked (err e)) received there)
  step_lowers {s} (hand_over o at) = omega (arith, ap rows_before at)
  step_lowers {s} (send p acc at) = omega (arith, ap rows_before at)

  -- The runs of a number of steps.
  pub data Steps : ℕ → Call J → Call J → Type 0 where
    stay : {s : Call J} → Steps 0 s s
    go_on :
        {k : ℕ} {s t u : Call J}
        → Step J qs rec q level max first s t
        → Steps k t u
        → Steps (suc k) s u

  Steps-weight : {k : ℕ} {s t : Call J} → Steps k s t → k + weight t ≤ weight s
  Steps-weight stay = omega arith
  Steps-weight (go_on step steps) = omega (arith, step_lowers step, Steps-weight steps)

  Steps-Reach :
      {k : ℕ} {rest : List Instruction} {s t : Call J}
      → Steps k s t
      → Reach J qs rec q level max first rest s
      → Reach J qs rec q level max first rest t
  Steps-Reach stay r = r
  Steps-Reach (go_on step steps) r = Steps-Reach steps (later r step)

  -- A child that is not received, and what it sends.
  abbrev Offers : List (Child J) → Type 0
  Offers cs =
      (i : ℕ) × (o : Outcome (Result J)) × (sends o ≡ true)
      × ((get_elem? cs i ≡ some (running o)) ⊎ (get_elem? cs i ≡ some (blocked o)))

  Offers-later : (c : Child J) (cs : List (Child J)) → Offers cs → Offers (c ∷ cs)
  Offers-later c cs (i, o, back, at) = (suc i, o, back, at)

  held-Offers :
      (cs : List (Child J))
      → All (λ o. sends o ≡ true) (held J cs)
      → 0 < length (held J cs)
      → Offers cs
  held-Offers [] all some_left = elim some_left [ ]
  held-Offers (running o ∷ cs) all some_left = (0, o, all.0, inl refl)
  held-Offers (blocked o ∷ cs) all some_left = (0, o, all.0, inr refl)
  held-Offers (received ∷ cs) all some_left =
      Offers-later received cs (held-Offers cs all some_left)

  abbrev GoesOn : Call J → Type 0
  GoesOn s = (t : Call J) × Step J qs rec q level max first s t

  -- The process exits in the code of the next row.
  abbrev pub Exits : Call J → Type 0
  Exits s =
      (it : Instruction) × (its : List Instruction) × (p : Progress J) × (s.parent
        ≡ walking (it ∷ its) p)
      × (sends (seen J qs rec q level max first it p) ≡ false)

  module _ (rest : List Instruction)
      (back : (p : Progress J)
        → walked J qs rec q level max first rest (first ∷ rest) ≡ ok (some p)
        → All (λ o. sends o ≡ true) (jobs_of J qs rec q level max first rest p)) where
    waiting-GoesOn :
        (s : Call J) (k : ℕ) (p : Progress J) (acc : List (Result J))
        → s.parent ≡ waiting (suc k) p acc
        → Offers s.children
        → GoesOn s
    waiting-GoesOn s k p acc at (i, o, sent, inl run) = (_, offer i o run sent)
    waiting-GoesOn s k p acc at (i, ok r, sent, inr offered) = (_, receive i k p acc r at offered)
    waiting-GoesOn s k p acc at (i, err e, sent, inr offered) = (_, panic i k p acc e at offered)
    waiting-GoesOn s k p acc at (i, halt e, sent, inr offered) = cc
    waiting-GoesOn s k p acc at (i, pending, sent, inr offered) = cc

    walking-GoesOn :
        (s : Call J) (it : Instruction) (its : List Instruction) (p : Progress J)
        → s.parent ≡ walking (it ∷ its) p
        → (o : Outcome (Option (Progress J))) → seen J qs rec q level max first it p ≡ o
        → Exits s ⊎ GoesOn s
    walking-GoesOn s it its p at (ok (some p')) h =
        let (new, more, few) = visit-Grows J q (follow_from qs q.children []) level max it p p' h in
        inr (_, walk it its p p' new at h more)
    walking-GoesOn s it its p at (ok none) h = inr (_, discard it its p at h)
    walking-GoesOn s it its p at (err e) h = inr (_, fail it its p e at h)
    walking-GoesOn s it its p at (halt e) h = inl (it, its, p, at, ap sends h)
    walking-GoesOn s it its p at pending h = inl (it, its, p, at, ap sends h)

    goes_on :
        (s : Call J) (parent : Parent J)
        → s.parent ≡ parent
        → Inv J qs rec q level max first rest parent s.children
        → ((o : Outcome (Result J)) × (result_of J s.parent ≡ some o)) ⊎ Exits s ⊎ GoesOn s
    goes_on s (sending o) at i = inl (o, ap (result_of J) at)
    goes_on s (returned o) at i = inl (o, ap (result_of J) at)
    goes_on s (panicked e) at i = inl (halt e, ap (result_of J) at)
    goes_on s (walking [] p) at i = inr (inr (_, wait p at))
    goes_on s (walking (it ∷ its) p) at i =
        inr (walking-GoesOn s it its p at (seen J qs rec q level max first it p) refl)
    goes_on s (waiting zero p acc) at i = inr (inr (_, send p acc at))
    goes_on s (waiting (suc k) p acc) at i =
        let all = All-perm (λ o. sends o ≡ true) (λ o. Bool-set _ _) i.same (back p i.all_rows) in
        inr (
          inr (
            waiting-GoesOn s k p acc at (
              held-Offers s.children
                (All-right (λ o. sends o ≡ true) i.arrived (held J s.children) all)
                (omega (arith, i.count)))))

    -- If the calls of the children that it starts on its rows come back with a result or an error, a call of
    -- `doRun` comes to the send of its own result, or to a panic, if the process does not exit at one of
    -- its rows: a run of the call and its children takes no more steps than the weight of the state it
    -- starts from, and it can go on until then. Whether that send goes through is up to who called.
    pub call_ends :
        (k : ℕ) (s t : Call J)
        → Reach J qs rec q level max first rest s
        → Steps k s t
        → (k ≤ weight s)
          × (((o : Outcome (Result J)) × (result_of J t.parent ≡ some o))
              ⊎ Exits t
              ⊎ ((u : Call J) × Step J qs rec q level max first t u))
    call_ends k s t r steps = (
      omega (arith, Steps-weight steps),
      goes_on t t.parent refl (Reach-Inv J qs rec q level max first rest (Steps-Reach steps r)),
    )
