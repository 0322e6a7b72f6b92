-- ===== src/Tests/Goroutines.antt =====
-- A call of `doRun` that starts one child and then meets the mark of a deleted entity.
use gocrud.Prelude.{
  ℕ, ◌≤◌, String, ◌≡◌, refl, subst, All, true, ◌⊎◌, some, List, [], ◌∷◌, ◌++◌, Perm, ℤ, pos,
}
use gocrud.Prelude.Dict
use gocrud.Outcome.{Outcome, ok}
use gocrud.X.{Instruction}
use gocrud.Store.Query.{Query, Queries, Result, blank, empty_result}
use gocrud.Store.Query.Run.{
  Progress, do_run, run_rows, run_sorted, visit, visit_all, visit_edge, follow_from,
}
use gocrud.Store.Query.Goroutines.{
  Call, walking, sends, running, blocked, sending, result_of, Step, Reach, start, later, walk,
  discard, offer,
}
use gocrud.Store.Query.Goroutines.Held.{held}
use gocrud.Store.Query.Goroutines.Ends.{walked, jobs_of, ended_refines}
use gocrud.Store.Query.Goroutines.Lives.{Steps, stay, go_on, weight, Exits, call_ends}
use gocrud.Store.Query.Goroutines.Leaks.{left_behind}
use gocrud.Tests.Data.{numbers, list_store}

abbrev row : String → String → ℕ → Instruction
row pred object_id ts = record {
  subject_id = "u";
  subject_type = "User";
  predicate = pred;
  object = [];
  object_id = object_id;
  nano_ts = pos ts;
  source = "me";
}

abbrev friend : Instruction
friend = row "Friend" "v" 1

abbrev mark : Instruction
mark = row "_delete_" "" 2

abbrev no_queries : Queries
no_queries = []

-- The children are queries of the same store, which is empty.
abbrev child_run : Query → ℕ → ℤ → Outcome (Result numbers)
child_run q level max =
    do_run numbers list_store [] (λ its. its) (λ rs. rs) no_queries 2 q level max

abbrev user : Query
user = record blank { id = "u" }

abbrev finished : Call numbers
finished = record {
  parent = sending (ok (empty_result numbers));
  children = running (ok (empty_result numbers)) ∷ [];
}

abbrev stuck : Call numbers
stuck = record {
  parent = sending (ok (empty_result numbers));
  children = blocked (ok (empty_result numbers)) ∷ [];
}

discarded : Reach numbers no_queries child_run user 0 (pos 1) friend (mark ∷ []) finished
unfolding visit visit_edge follow_from Dict.lookup do_run run_rows
discarded =
    later (later start (walk friend (mark ∷ []) _ _ (_ ∷ []) refl refl refl))
      (discard mark [] _ refl refl)

ended_refines_example :
    (arrived : List (Outcome (Result numbers))) × (run_sorted numbers list_store []
        (λ its. its)
        (λ rs. arrived)
        no_queries
        child_run
        user
        0
        (pos 1)
        (friend ∷ mark ∷ [])
      ≡ ok (empty_result numbers))
    × ((p : Progress numbers)
        → walked numbers no_queries child_run user 0 (pos 1) friend (mark ∷ []) (friend ∷ mark ∷ [])
          ≡ ok (some p)
        → Perm (jobs_of numbers no_queries child_run user 0 (pos 1) friend (mark ∷ []) p) arrived)
ended_refines_example =
    ended_refines numbers no_queries child_run user 0 (pos 1) friend (mark ∷ []) list_store []
      (λ its. its) discarded refl

offered : Steps numbers no_queries child_run user 0 (pos 1) friend 1 finished stuck
offered = go_on (offer 0 _ refl refl) stay

abbrev started : Call numbers
started = record {
  parent = walking (friend ∷ []) (record { columns = []; jobs = [] });
  children = [];
}

abbrev through : Progress numbers
through = record {
  columns = [];
  jobs = record { query = record blank { id = "v" }; level = 1; max = pos 1 } ∷ [];
}

abbrev followed : Call numbers
followed = record {
  parent = walking [] through;
  children = running (ok (empty_result numbers)) ∷ [];
}

follows : Steps numbers no_queries child_run user 0 (pos 1) friend 1 started followed
unfolding visit visit_edge follow_from Dict.lookup do_run run_rows
follows = go_on (walk friend [] _ _ (_ ∷ []) refl refl refl) stay

child_comes_back :
    (p : Progress numbers)
    → walked numbers no_queries child_run user 0 (pos 1) friend [] (friend ∷ []) ≡ ok (some p)
    → All (λ o. sends o ≡ true) (jobs_of numbers no_queries child_run user 0 (pos 1) friend [] p)
unfolding visit_all visit visit_edge follow_from Dict.lookup do_run run_rows
child_comes_back p h =
    let e : through ≡ p = cc in
    subst
      (λ x.
        All (λ o. sends o ≡ true) (jobs_of numbers no_queries child_run user 0 (pos 1) friend [] x))
      e (refl, tt)

call_ends_example :
    (1 ≤ weight numbers no_queries child_run user 0 (pos 1) friend started)
    × (((o : Outcome (Result numbers)) × (result_of numbers followed.parent ≡ some o))
        ⊎ Exits numbers no_queries child_run user 0 (pos 1) friend followed
        ⊎ ((u : Call numbers) × Step numbers no_queries child_run user 0 (pos 1) friend followed u))
call_ends_example =
    call_ends numbers no_queries child_run user 0 (pos 1) friend [] child_comes_back 1 started
      followed start follows

not_through :
    (p : Progress numbers)
    → walked numbers no_queries child_run user 0 (pos 1) friend (mark ∷ []) (friend ∷ mark ∷ [])
      ≡ ok (some p)
    → ⊥
unfolding visit_all visit visit_edge follow_from Dict.lookup
not_through p h = cc

left_behind_example :
    (before : List Instruction) × (at : Instruction) × (after : List Instruction) × (p : Progress
      numbers)
    × (friend ∷ mark ∷ [] ≡ before ++ at ∷ after)
    × (walked numbers no_queries child_run user 0 (pos 1) friend (mark ∷ []) before ≡ ok (some p))
    × (held numbers stuck.children
        ≡ jobs_of numbers no_queries child_run user 0 (pos 1) friend (mark ∷ []) p)
left_behind_example =
    left_behind numbers no_queries child_run user 0 (pos 1) friend (mark ∷ []) 1 finished stuck
      (ok (empty_result numbers)) discarded refl not_through offered
