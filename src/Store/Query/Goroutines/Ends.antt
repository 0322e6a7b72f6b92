-- ===== src/Store/Query/Goroutines/Ends.antt =====
-- What a call and its goroutines come to is what `doRun` comes to as one function, for some order of arrival.
use mathlib.Core.List.Perm
use mathlib.Core.List.{map-append}
use gocrud.Prelude.{
  ℕ, zero, suc, String, ◌≡◌, refl, sym, ap, ◌∙◌, subst, ◌⊎◌, inl, inr, Option, none, some, List, [],
  ◌∷◌, ◌++◌, map, append-nil, append_assoc, Perm, length, get_elem?, set, ℤ, arith,
}
use mathlib.Core.Path.{fun_ext}
use gocrud.Prelude.Dict.{Dict}
use gocrud.Outcome.{Outcome, ok, err, halt, pending, ◌>>=◌}
use gocrud.X.{Instruction}
use gocrud.Store.{Store}
use gocrud.Store.Update.{Json}
use gocrud.Store.Query.{Query, Queries, Result, node, of_list, empty_result}
use gocrud.Store.Query.Run.{
  Progress, visit, visit_all, proceed, gather, kept, follow_from, collect_children, run_sorted,
}
use gocrud.Store.Query.Goroutines.{
  Child, blocked, received, Parent, walking, waiting, sending, returned, panicked, result_of, Call,
  job, seen, Step, walk, discard, fail, wait, offer, receive, panic, hand_over, send, Reach, start,
  later,
}
use gocrud.Store.Query.Goroutines.Held.{
  held, held-append_running, held-offer, held-receive, length-held_receive,
}

length-nil : {A : Type 0} (l : List A) → length l ≡ 0 → l ≡ []
length-nil [] h = refl
length-nil (x ∷ l) h = cc

length-map : {A B : Type 0} (f : A → B) (l : List A) → length (map f l) ≡ length l
length-map f [] = refl
length-map f (x ∷ l) = ap suc (length-map f l)

module _ (J : Json) where
  proceed-proceed :
      (f g : Progress J → Outcome (Option (Progress J))) (o : Outcome (Option (Progress J)))
      → proceed J (λ p. proceed J g (f p)) o ≡ proceed J g (proceed J f o)
  proceed-proceed f g (ok (some p)) = refl
  proceed-proceed f g (ok none) = refl
  proceed-proceed f g (err e) = refl
  proceed-proceed f g (halt e) = refl
  proceed-proceed f g pending = refl

  module _ (q : Query) (follow : Dict Query) (level : ℕ) (max : ℤ) where
    visit_all-append :
        (xs ys : List Instruction) (p : Progress J)
        → visit_all J q follow level max (xs ++ ys) p
          ≡ proceed J (visit_all J q follow level max ys) (visit_all J q follow level max xs p)
    unfolding visit_all
    visit_all-append [] ys p = refl
    visit_all-append (x ∷ xs) ys p =
        ap (λ f. proceed J f (visit J q follow level max x p))
          (fun_ext λ p'. visit_all-append xs ys p')
        ∙ proceed-proceed (visit_all J q follow level max xs) (visit_all J q follow level max ys)
            (visit J q follow level max x p)

module _ (J : Json) (qs : Queries) (rec : Query → ℕ → ℤ → Outcome (Result J)) (q : Query)
    (level : ℕ) (max : ℤ) (first : Instruction) (rest : List Instruction) where
  abbrev nothing : Progress J
  nothing = record { columns = []; jobs = [] }

  abbrev pub walked : List Instruction → Outcome (Option (Progress J))
  walked its = visit_all J q (follow_from qs q.children []) level max its nothing

  abbrev pub jobs_of : Progress J → List (Outcome (Result J))
  jobs_of p = map (job J qs rec q level max first) p.jobs

  abbrev finished : Progress J → Outcome (List (Result J)) → Outcome (Result J)
  finished p o =
      o >>= λ children. ok (node first.subject_id first.subject_type p.columns (of_list J children))

  -- Some rows are behind the call, and it has started a child for each job of them.
  pub record Walking (its : List Instruction) (p : Progress J) (cs : List (Child J)) : Type 0 where
    pub behind : List Instruction
    pub rows : first ∷ rest ≡ behind ++ its
    pub so_far : walked behind ≡ ok (some p)
    pub same : held J cs ≡ jobs_of p

  -- All rows are behind it, and some of the results are received.
  pub record Waiting (k : ℕ) (p : Progress J) (acc : List (Result J)) (cs : List (Child J))
      : Type 0 where
    pub all_rows : walked (first ∷ rest) ≡ ok (some p)
    pub arrived : List (Outcome (Result J))
    pub same : Perm (jobs_of p) (arrived ++ held J cs)
    pub gathered : (zs : List (Outcome (Result J))) → gather J (arrived ++ zs) [] ≡ gather J zs acc
    pub count : length (held J cs) ≡ k

  -- It has ended at a row, with a child for each job of the rows before that one.
  pub record EarlyEnd (o : Outcome (Result J)) (cs : List (Child J)) : Type 0 where
    pub row : Instruction
    pub ahead : List Instruction
    pub p : Progress J
    pub at : Walking (row ∷ ahead) p cs
    pub why :
        ((seen J qs rec q level max first row p ≡ ok none) × (o ≡ ok (empty_result J)))
        ⊎ ((e : String) × (seen J qs rec q level max first row p ≡ err e) × (o ≡ err e))

  -- It has ended after the rows, with the results received in some order, as far as they were.
  pub record Gathered (o : Outcome (Result J)) : Type 0 where
    pub p : Progress J
    pub all_rows : walked (first ∷ rest) ≡ ok (some p)
    pub arrived : List (Outcome (Result J))
    pub same : Perm (jobs_of p) arrived
    pub ends : o ≡ finished p (gather J arrived [])

  abbrev pub Ended : Outcome (Result J) → List (Child J) → Type 0
  Ended o cs = EarlyEnd o cs ⊎ Gathered o

  abbrev pub Inv : Parent J → List (Child J) → Type 0
  Inv (walking its p) cs = Walking its p cs
  Inv (waiting k p acc) cs = Waiting k p acc cs
  Inv (sending o) cs = Ended o cs
  Inv (returned o) cs = Ended o cs
  Inv (panicked e) cs = Ended (halt e) cs

  Ended-held :
      (o : Outcome (Result J)) (cs ds : List (Child J))
      → held J cs ≡ held J ds
      → Ended o cs
      → Ended o ds
  Ended-held o cs ds h (inr g) = inr g
  Ended-held o cs ds h (inl e) = inl (record {
    row = e.row;
    ahead = e.ahead;
    p = e.p;
    at = record {
      behind = e.at.behind;
      rows = e.at.rows;
      so_far = e.at.so_far;
      same = sym h ∙ e.at.same;
    };
    why = e.why;
  })

  -- The children's own steps change nothing of what is not received.
  Inv-held :
      (parent : Parent J) (cs ds : List (Child J))
      → held J cs ≡ held J ds
      → Inv parent cs
      → Inv parent ds
  Inv-held (walking its p) cs ds h i = record {
    behind = i.behind;
    rows = i.rows;
    so_far = i.so_far;
    same = sym h ∙ i.same;
  }
  Inv-held (waiting k p acc) cs ds h i = record {
    all_rows = i.all_rows;
    arrived = i.arrived;
    same = subst (λ l. Perm (jobs_of p) (i.arrived ++ l)) h i.same;
    gathered = i.gathered;
    count = ap length (sym h) ∙ i.count;
  }
  Inv-held (sending o) cs ds h i = Ended-held o cs ds h i
  Inv-held (returned o) cs ds h i = Ended-held o cs ds h i
  Inv-held (panicked e) cs ds h i = Ended-held (halt e) cs ds h i

  Inv-at :
      (parent parent' : Parent J) (cs : List (Child J))
      → parent ≡ parent'
      → Inv parent cs
      → Inv parent' cs
  Inv-at parent parent' cs h i = subst (λ x. Inv x cs) h i

  Inv-receive :
      (k : ℕ) (p : Progress J) (acc : List (Result J)) (cs : List (Child J)) (i : ℕ) (r : Result J)
      → Waiting (suc k) p acc cs
      → get_elem? cs i ≡ some (blocked (ok r))
      → Waiting k p (kept J r acc) (set cs i received)
  unfolding gather
  Inv-receive k p acc cs i r w at =
      let moved = held-receive J cs i (ok r) at in
      let left = held J (set cs i received) in
      record {
        all_rows = w.all_rows;
        arrived = w.arrived ++ ok r ∷ [];
        same =
            subst (Perm (jobs_of p)) (sym (append_assoc w.arrived (ok r ∷ []) left))
              (Perm.trans w.same (Perm.append_left w.arrived moved));
        gathered = λ zs.
            ap (λ l. gather J l []) (append_assoc w.arrived (ok r ∷ []) zs)
            ∙ w.gathered (ok r ∷ zs);
        count = omega (arith, sym (length-held_receive J cs i (ok r) at) ∙ w.count);
      }

  pub Inv-step :
      {s t : Call J}
      → Inv s.parent s.children
      → Step J qs rec q level max first s t
      → Inv t.parent t.children
  unfolding gather visit_all
  Inv-step {s} i (walk it its p p' new at went more) =
      let w = Inv-at s.parent (walking (it ∷ its) p) s.children at i in
      let next : walked (w.behind ++ it ∷ []) ≡ ok (some p') =
        visit_all-append J q (follow_from qs q.children []) level max w.behind (it ∷ []) nothing
        ∙ ap (proceed J (visit_all J q (follow_from qs q.children []) level max (it ∷ []))) w.so_far
        ∙ ap (proceed J (visit_all J q (follow_from qs q.children []) level max [])) went in
      record {
        behind = w.behind ++ it ∷ [];
        rows = w.rows ∙ sym (append_assoc w.behind (it ∷ []) its);
        so_far = next;
        same =
            held-append_running J s.children (job J qs rec q level max first) new
            ∙ ap (λ l. l ++ map (job J qs rec q level max first) new) w.same
            ∙ sym (map-append (job J qs rec q level max first) p.jobs new)
            ∙ sym (ap (map (job J qs rec q level max first)) more);
      }
  Inv-step {s} i (discard it its p at out) =
      let w = Inv-at s.parent (walking (it ∷ its) p) s.children at i in
      inl (record { row = it; ahead = its; p = p; at = w; why = inl (out, refl) })
  Inv-step {s} i (fail it its p e at bad) =
      let w = Inv-at s.parent (walking (it ∷ its) p) s.children at i in
      inl (record { row = it; ahead = its; p = p; at = w; why = inr (e, bad, refl) })
  Inv-step {s} i (wait p at) =
      let w = Inv-at s.parent (walking [] p) s.children at i in
      record {
        all_rows = ap walked (w.rows ∙ append-nil w.behind) ∙ w.so_far;
        arrived = [];
        same = subst (Perm (jobs_of p)) (sym w.same) (Perm.refl (jobs_of p));
        gathered = λ zs. refl;
        count = ap length w.same ∙ length-map (job J qs rec q level max first) p.jobs;
      }
  Inv-step {s} i (offer j o at back) =
      Inv-held s.parent s.children _ (sym (held-offer J s.children j o at)) i
  Inv-step {s} i (receive j k p acc r at there) =
      Inv-receive k p acc s.children j r (Inv-at s.parent (waiting (suc k) p acc) s.children at i)
        there
  Inv-step {s} i (panic j k p acc e at there) =
      let w = Inv-at s.parent (waiting (suc k) p acc) s.children at i in
      inr (record {
        p = p;
        all_rows = w.all_rows;
        arrived = w.arrived ++ err e ∷ held J (set s.children j received);
        same =
            Perm.trans w.same
              (Perm.append_left w.arrived (held-receive J s.children j (err e) there));
        ends = ap (finished p) (sym (w.gathered (err e ∷ held J (set s.children j received))));
      })
  Inv-step {s} i (hand_over o at) = Inv-at s.parent (sending o) s.children at i
  Inv-step {s} i (send p acc at) =
      let w = Inv-at s.parent (waiting zero p acc) s.children at i in
      let none_left = length-nil (held J s.children) w.count in
      inr (record {
        p = p;
        all_rows = w.all_rows;
        arrived = w.arrived;
        same =
            subst (Perm (jobs_of p)) (ap (λ l. w.arrived ++ l) none_left ∙ append-nil w.arrived)
              w.same;
        ends = sym (
            ap (finished p) (ap (λ l. gather J l []) (sym (append-nil w.arrived)) ∙ w.gathered []));
      })

  pub Reach-Inv : {s : Call J} → Reach J qs rec q level max first rest s → Inv s.parent s.children
  unfolding visit_all
  Reach-Inv start = record { behind = []; rows = refl; so_far = refl; same = refl }
  Reach-Inv (later r step) = Inv-step (Reach-Inv r) step

  pub Inv-Ended :
      (parent : Parent J) (cs : List (Child J)) (o : Outcome (Result J))
      → result_of J parent ≡ some o
      → Inv parent cs
      → Ended o cs
  Inv-Ended (walking its p) cs o h i = cc
  Inv-Ended (waiting k p acc) cs o h i = cc
  Inv-Ended (sending x) cs o h i = let e : x ≡ o = cc in subst (λ y. Ended y cs) e i
  Inv-Ended (returned x) cs o h i = let e : x ≡ o = cc in subst (λ y. Ended y cs) e i
  Inv-Ended (panicked m) cs o h i = let e : halt m ≡ o = cc in subst (λ y. Ended y cs) e i

  -- The rows of a call that has ended early.
  walked-EarlyEnd :
      {o : Outcome (Result J)} {cs : List (Child J)} (e : EarlyEnd o cs)
      → walked (first ∷ rest)
        ≡ proceed J
            (visit_all J q (follow_from qs q.children []) level max e.ahead)
            (seen J qs rec q level max first e.row e.p)
  unfolding visit_all
  walked-EarlyEnd e =
      ap walked e.at.rows
      ∙ visit_all-append J q (follow_from qs q.children []) level max e.at.behind (e.row ∷ e.ahead)
          nothing
      ∙ ap (proceed J (visit_all J q (follow_from qs q.children []) level max (e.row ∷ e.ahead)))
          e.at.so_far

  module _ (S : Store) (db : S.State) (sort : List Instruction → List Instruction) where
    -- A call of `doRun` on sorted rows, which starts goroutines for the children as it goes and receives their
    -- results through a channel without a buffer, sends or panics only with what the function of the model
    -- returns, if the results arrive in some order in which each child's result arrives once.
    pub ended_refines :
        {s : Call J} {o : Outcome (Result J)}
        → Reach J qs rec q level max first rest s
        → result_of J s.parent ≡ some o
        → (arrived : List (Outcome (Result J))) × (run_sorted J S db sort
              (λ rs. arrived)
              qs
              rec
              q
              level
              max
              (first ∷ rest)
            ≡ o)
          × ((p : Progress J) → walked (first ∷ rest) ≡ ok (some p) → Perm (jobs_of p) arrived)
    unfolding run_sorted collect_children
    ended_refines {s} {o} r at = elim (Inv-Ended s.parent s.children o at (Reach-Inv r)) [
      | inr g ↦ (
        g.arrived,
        ap (λ w. w >>= collect_children J S db sort (λ rs. g.arrived) qs rec first) g.all_rows
            ∙ sym g.ends,
        λ p h.
            let one : g.p ≡ p = cc (g.all_rows, h) in
            subst (λ x. Perm (jobs_of x) g.arrived) one g.same,
      )
      | inl e ↦
          let after = proceed J (visit_all J q (follow_from qs q.children []) level max e.ahead) in
          let collect = collect_children J S db sort (λ rs. []) qs rec first in
          elim e.why [
            | inl (out, is_empty) ↦
                let all : walked (first ∷ rest) ≡ ok none = walked-EarlyEnd e ∙ ap after out in
                ([], ap (λ w. w >>= collect) all ∙ sym is_empty, λ p h. cc)
            | inr (x, bad, is_error) ↦
                let all : walked (first ∷ rest) ≡ err x = walked-EarlyEnd e ∙ ap after bad in
                ([], ap (λ w. w >>= collect) all ∙ sym is_error, λ p h. cc)
          ]
    ]
