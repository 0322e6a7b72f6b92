-- ===== src/Store/Query/Goroutines.antt =====
-- store/query.go: one call of `doRun` as a goroutine, with those that it starts for the children and the
-- channel without a buffer between them.
pub mod Held
pub mod Ends
pub mod Lives
pub mod Leaks
use gocrud.Prelude.{
  ℕ, zero, suc, String, ◌≡◌, ◌==◌, Bool, true, false, Option, none, some, List, [], ◌∷◌, ◌++◌, map,
  length, get_elem?, set, ℤ,
}
use gocrud.Outcome.{Outcome, ok, err, halt, pending}
use gocrud.X.{Instruction}
use gocrud.Store.{Store}
use gocrud.Store.Update.{Json}
use gocrud.Store.Query.{Query, Queries, Result, node, of_list, empty_result}
use gocrud.Store.Query.Run.{Job, Progress, visit, follow_from, kept}

-- A call that comes back with a result or an error, which goes into the channel.
abbrev pub sends : {A : Type 0} → Outcome A → Bool
sends (ok a) = true
sends (err e) = true
sends (halt e) = false
sends pending = false

module _ (J : Json) where
  -- A child: at work on what it will come back with, blocked in its send of that, or received.
  pub data Child : Type 0 where
    running : Outcome (Result J) → Child
    blocked : Outcome (Result J) → Child
    received : Child

  -- The call: before the rows that are left, with so many children to wait for and the results so far,
  -- blocked in the send of what it comes back with, returned after that send, or ended by a panic.
  pub data Parent : Type 0 where
    walking : List Instruction → Progress J → Parent
    waiting : ℕ → Progress J → List (Result J) → Parent
    sending : Outcome (Result J) → Parent
    returned : Outcome (Result J) → Parent
    panicked : String → Parent

  -- What the call comes to, once that is settled.
  abbrev pub result_of : Parent → Option (Outcome (Result J))
  result_of (walking its p) = none
  result_of (waiting k p acc) = none
  result_of (sending o) = some o
  result_of (returned o) = some o
  result_of (panicked e) = some (halt e)

  pub record Call : Type 0 where
    pub parent : Parent
    pub children : List Child

-- `rec` is what the call of a child comes to, and `first` the first of the sorted rows.
module _ (J : Json) (qs : Queries) (rec : Query → ℕ → ℤ → Outcome (Result J)) (q : Query)
    (level : ℕ) (max : ℤ) (first : Instruction) where
  abbrev pub job : Job → Outcome (Result J)
  job j = rec j.query j.level j.max

  abbrev pub seen : Instruction → Progress J → Outcome (Option (Progress J))
  seen it p = visit J q (follow_from qs q.children []) level max it p

  -- A step of the call or of one of its children.
  pub data Step (s : Call J) : Call J → Type 0 where
    walk :
        (it : Instruction) (its : List Instruction) (p p' : Progress J) (new : List Job)
        → s.parent ≡ walking (it ∷ its) p
        → seen it p ≡ ok (some p')
        → p'.jobs ≡ p.jobs ++ new
        → Step s (record {
          parent = walking its p';
          children = s.children ++ map (λ j. running (job j)) new;
        })
    discard :
        (it : Instruction) (its : List Instruction) (p : Progress J)
        → s.parent ≡ walking (it ∷ its) p
        → seen it p ≡ ok none
        → Step s (record s { parent = sending (ok (empty_result J)) })
    fail :
        (it : Instruction) (its : List Instruction) (p : Progress J) (e : String)
        → s.parent ≡ walking (it ∷ its) p
        → seen it p ≡ err e
        → Step s (record s { parent = sending (err e) })
    wait :
        (p : Progress J)
        → s.parent ≡ walking [] p
        → Step s (record s { parent = waiting (length p.jobs) p [] })
    offer :
        (i : ℕ) (o : Outcome (Result J))
        → get_elem? s.children i ≡ some (running o)
        → sends o ≡ true
        → Step s (record s { children = set s.children i (blocked o) })
    receive :
        (i k : ℕ) (p : Progress J) (acc : List (Result J)) (r : Result J)
        → s.parent ≡ waiting (suc k) p acc
        → get_elem? s.children i ≡ some (blocked (ok r))
        → Step s
            (record { parent = waiting k p (kept J r acc); children = set s.children i received })
    panic :
        (i k : ℕ) (p : Progress J) (acc : List (Result J)) (e : String)
        → s.parent ≡ waiting (suc k) p acc
        → get_elem? s.children i ≡ some (blocked (err e))
        → Step s (record {
          parent = panicked "nil pointer dereference";
          children = set s.children i received;
        })
    -- The call above takes the result, in its own receive, or `Run` does. Where nobody does, the call stays.
    hand_over :
        (o : Outcome (Result J)) → s.parent ≡ sending o → Step s (record s { parent = returned o })
    send :
        (p : Progress J) (acc : List (Result J))
        → s.parent ≡ waiting zero p acc
        → Step s (record s {
          parent =
              sending (ok (node first.subject_id first.subject_type p.columns (of_list J acc)));
        })

  -- The states that the call reaches on its sorted rows.
  pub data Reach (rest : List Instruction) : Call J → Type 0 where
    start : Reach rest (record {
      parent = walking (first ∷ rest) (record { columns = []; jobs = [] });
      children = [];
    })
    later : {s t : Call J} → Reach rest s → Step s t → Reach rest t
