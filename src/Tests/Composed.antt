-- ===== src/Tests/Composed.antt =====
-- A store without bad rows, and an update of one user that is read back.
use mathlib.Core.List.Perm
use mathlib.Core.List.Memᴰ
use gocrud.Prelude.{
  ◌≢◌, get_elem?, some, ℕ, ◌<◌, String, ◌≡◌, refl, ap, ◌⊎◌, inl, inr, true, false, ◌==◌, Bool-cases,
  none, List, [], ◌∷◌, ◌++◌, Mem, length, pos, arith, if◌then◌else◌,
}
use gocrud.Prelude.Dict
use gocrud.Outcome.{Outcome, value, error, ok, err}
use gocrud.Req.{Context}
use gocrud.X.{Instruction}
use gocrud.Store.{Store}
use gocrud.Store.Arena.{modify, root}
use gocrud.Store.Update.{Updates, new_update, set_source, set}
use gocrud.Store.Update.Execute.{
  Session, emit, do_execute, execute, property_row, emit_edges, deref, marshal, add_children,
  notify,
}
use gocrud.Store.Query.{Query, Queries, Result, blank, new_query, add, latest, empty_result}
use gocrud.Store.Query.WellFormed.{IsTree, IsTree-new_query, parents-IsTree, children-IsTree}
use gocrud.Store.Query.Run.{
  parent, do_run, run, run_sorted, run_rows, collect_children, gather, visit, visit_all, visit_edge,
  add_version, follow_from,
}
use gocrud.Store.Query.Run.History.{shown}
use gocrud.Store.Query.Run.Succeeds.{IsHealthy, run_succeeds}
use gocrud.Store.ReadBack.{IsKept, edge, no_edge}
use gocrud.Store.ReadBack
use gocrud.Store.ReadBack.Leaf.{LeafUpdate}
use gocrud.Store.ReadBack.Shown.{execute-shown}
use gocrud.Tests.Data.{numbers, counter, list_store, rows_of}
use gocrud.Tests.Sort.{insertion_sort, insertion_sort-IsSort}

abbrev row : String → List ℕ → String → ℕ → Instruction
row pred object object_id ts = record {
  subject_id = "u";
  subject_type = "User";
  predicate = pred;
  object = object;
  object_id = object_id;
  nano_ts = pos ts;
  source = "me";
}

-- The rows are not in the order of time.
abbrev user_rows : List Instruction
user_rows = row "name" (3 ∷ []) "" 3 ∷ row "name" (1 ∷ []) "" 1 ∷ row "Friend" [] "u" 2 ∷ []

-- A store that knows one user.
abbrev user_store : Store
user_store = record {
  State = Unit;
  commit = λ its db. (error "read only", db);
  is_new = λ db id. true;
  get_entity = λ db id. value (if id == "u" then user_rows else []);
  iterate = λ db from num. ([], ok (0, record { kind = ""; id = "" }));
}

user_store-IsHealthy : IsHealthy numbers user_store tt
user_store-IsHealthy = record {
  rows = λ id. if id == "u" then user_rows else [];
  found = λ id. refl;
  readable = λ id. elim (Bool-cases (id == "u")) [
    | inl user ↦ rw user (refl, (refl, (refl, tt)))
    | inr other ↦ rw other tt
  ];
}

abbrev as_sent : List (Outcome (Result numbers)) → List (Outcome (Result numbers))
as_sent rs = rs

user_query : Queries
unfolding new_query
user_query = (new_query "u" []).0

user_query-IsTree : IsTree user_query
unfolding user_query
user_query-IsTree =
    IsTree-new_query "u" [] (record { below = λ n p s e up. cc; above = λ n s e. cc })

length-user_query : 0 < length user_query
unfolding user_query new_query
length-user_query = omega arith

run_succeeds_example :
    (top : ℕ) × (q : Query) × (q.parent ≡ none)
    × (get_elem? user_query top ≡ some q)
    × (root (λ (q : Query). q.parent) (length user_query) user_query 0 ≡ some top)
    × ((q.id ≡ "")
          × (run numbers user_store tt insertion_sort as_sent user_query 0 ≡ err "Empty entity id")
        ⊎ (q.id ≢ "")
          × ((r : Result numbers) × (run numbers user_store tt insertion_sort as_sent user_query 0
                ≡ ok r)))
run_succeeds_example =
    run_succeeds numbers user_store tt insertion_sort as_sent user_query user_store-IsHealthy
      insertion_sort-IsSort (record { same_results = λ rs. Perm.refl rs })
      (children-IsTree user_query user_query-IsTree) 0 (parents-IsTree user_query user_query-IsTree)
      length-user_query

rows_of-same : (its : List Instruction) (id : String) → rows_of its id ≡ ReadBack.rows_of id its
rows_of-same [] id = refl
rows_of-same (it ∷ its) id = ground (arith, rows_of-same its id)

rows_of-append :
    (db its : List Instruction) (id : String)
    → rows_of (db ++ its) id ≡ rows_of db id ++ ReadBack.rows_of id its
rows_of-append [] its id = rows_of-same its id
rows_of-append (it ∷ db) its id = ground (arith, rows_of-append db its id)

list_store-IsKept : IsKept list_store
list_store-IsKept its db db' id old c g =
    let e : db ++ its ≡ db' = ap (λ p. p.1) c in
    let o : rows_of db id ≡ old = cc in rw (← e, rows_of-append db its id, o) refl

-- One user, whose name is set to 5.
named : Updates numbers
unfolding new_update set_source set modify Dict.insert
named =
    set numbers "name" 5 0
      (set_source numbers "uid" 0 (new_update numbers "User" "uid" (pos 7) []).0)

abbrev context : Context
context = record { num_chars_unique = pos 2; updates = none; has_indexer = false }

abbrev start : Session numbers counter list_store
start = record { arena = named; seed = 0; db = []; sent = []; taken = 0; is_closed = false }

abbrev as_is : Dict.Dict ℕ → Dict.Dict ℕ
as_is d = d

named-LeafUpdate : LeafUpdate numbers counter list_store as_is context 0 start
unfolding named property_row root
named-LeafUpdate = record {
  top = 0;
  node = _;
  first = _;
  others = _;
  db = _;
  chars = refl;
  found = refl;
  at = refl;
  leaf = refl;
  authored = refl;
  encoded = edge refl no_edge;
  taken = refl;
  can_tell = inl refl;
}

saved : List Instruction
unfolding execute do_execute named emit_edges deref marshal emit add_children property_row root
    notify
saved = (execute numbers counter list_store as_is context 0 start).1.db

answer : Outcome (Result numbers)
unfolding do_run run_rows run_sorted collect_children gather visit visit_all visit_edge add_version
    follow_from add latest Dict.lookup Dict.insert saved
answer =
    do_run numbers list_store saved insertion_sort as_sent [] 3 (record blank { id = "uid" }) 0
      (pos 1)

reads : Outcome (Result numbers) → Result numbers
reads (ok r) = r
reads _ = empty_result numbers

read_back : answer ≡ ok (reads answer)
unfolding answer reads
read_back = refl

execute-shown_example :
    ((execute numbers counter list_store as_is context 0 start).0 ≡ ok tt)
    × ((reads answer ≡ empty_result numbers)
        ⊎ Mem
            (record { value = 5; source = "uid"; nano_ts = pos 7 })
            (shown numbers "name" (reads answer)))
unfolding named-LeafUpdate named answer saved
execute-shown_example =
    execute-shown numbers counter list_store as_is insertion_sort as_sent [] context 0 start
      named-LeafUpdate [] 3 (record blank { id = "uid" }) 0 (pos 1) (reads answer) "name" 5 (4 ∷ [])
      list_store-IsKept insertion_sort-IsSort.same_rows refl refl read_back (Memᴰ.head refl) refl
      refl refl
