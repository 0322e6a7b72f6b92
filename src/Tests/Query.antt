-- ===== src/Tests/Query.antt =====
-- Queries of a user whose posts are rows of a list.
use mathlib.Core.List.Perm
use gocrud.Prelude.{
  map, false, some, ℕ, ◌<◌, String, ◌≡◌, refl, ◌≢◌, ◌⊎◌, List, [], ◌∷◌, length, pos, arith,
}
use gocrud.Prelude.Dict
use gocrud.Outcome.{Outcome, ok, err, pending}
use gocrud.X.{Instruction}
use gocrud.Store.Arena.{modify}
use gocrud.Store.Query.{
  Query, Queries, Result, blank, new_query, collect, find_kind, collected, add, latest,
  empty_result,
}
use gocrud.Store.Query.WellFormed.{
  IsTree, IsTree-new_query, IsTree-collect, parents-IsTree, children-IsTree,
}
use gocrud.Store.Query.Run.{
  do_run, run, run_sorted, run_rows, collect_children, gather, visit, visit_all, visit_edge,
  add_version, follow_from,
}
use gocrud.Store.Query.Run.Discards.{do_run_leaves_out}
use gocrud.Store.Query.Run.Shows.{IsOf, do_run-IsOf}
use gocrud.Store.Query.Run.History.{history, shown, do_run-history}
use gocrud.Store.Query.Run.Returns.{run_returns}
use gocrud.Store.Query.Run.Errors.{OwnError, do_run-OwnError}
use gocrud.Store.Query.{Results, nil, cons, node}
use gocrud.Store.Query.ToMap.{
  Maps, Fields, as_fields, fields_in, has_kind, child_maps, to_map, maps, to_map-children,
}
use gocrud.Store.Query.ToMap.{val}
use gocrud.Store.Query.ToMap.Newest.{maps_of_children, do_run-newest}
use gocrud.Tests.Data.{numbers, list_store, rows_of}

abbrev row : String → String → String → List ℕ → String → ℕ → Instruction
row kind id pred object object_id ts = record {
  subject_id = id;
  subject_type = kind;
  predicate = pred;
  object = object;
  object_id = object_id;
  nano_ts = pos ts;
  source = "me";
}

abbrev db : List Instruction
db =
    row "User" "u" "name" (1 ∷ []) "" 1
    ∷ row "User" "u" "Post" [] "p" 2
    ∷ row "Post" "p" "_parent_" [] "u" 2
    ∷ row "Post" "p" "body" (7 ∷ []) "" 2
    ∷ row "User" "u" "name" (3 ∷ []) "" 3
    ∷ row "Post" "d" "body" (7 ∷ []) "" 4
    ∷ row "Post" "d" "_delete_" (1 ∷ []) "" 5
    ∷ row "Post" "bad" "body" [] "" 6
    ∷ []

-- The rows are in the order of time as they are.
abbrev in_order : List Instruction → List Instruction
in_order its = its

abbrev by_start : List (Outcome (Result numbers)) → List (Outcome (Result numbers))
by_start rs = rs

abbrev of_id : String → Query
of_id id = record blank { id = id }

queries : Queries
unfolding new_query collect find_kind collected modify
queries = (collect "Post" 0 (new_query "u" []).0).1

-- What a query of one entity comes back with.
answer : String → Outcome (Result numbers)
unfolding do_run run_rows run_sorted collect_children gather visit visit_all visit_edge add_version
    follow_from add latest Dict.lookup Dict.insert
answer id = do_run numbers list_store db in_order by_start [] 3 (of_id id) 0 (pos 1)

bad_answer : answer "bad" ≡ err "no byte"
unfolding answer
bad_answer = refl

reads : (o : Outcome (Result numbers)) → Result numbers
reads (ok r) = r
reads _ = empty_result numbers

-- The deleted post shows nothing.
read_d : answer "d" ≡ ok (reads (answer "d"))
unfolding answer reads
read_d = refl

read_u : answer "u" ≡ ok (reads (answer "u"))
unfolding answer reads
read_u = refl

do_run_leaves_out_example : reads (answer "d") ≡ empty_result numbers
unfolding answer
do_run_leaves_out_example =
    do_run_leaves_out numbers list_store db in_order by_start [] 3 (of_id "d") 0 (pos 1)
      (rows_of db "d") (reads (answer "d")) (λ l. Perm.refl l) refl refl read_d

do_run-history_example :
    (reads (answer "u") ≡ empty_result numbers)
    ⊎ ((k : String) → shown numbers k (reads (answer "u")) ≡ history numbers k (rows_of db "u"))
unfolding answer
do_run-history_example =
    do_run-history numbers list_store db in_order by_start [] 3 (of_id "u") 0 (pos 1)
      (rows_of db "u") (reads (answer "u")) refl read_u

queries-IsTree : IsTree queries
unfolding queries
queries-IsTree =
    IsTree-collect "Post" 0 (new_query "u" []).0
      (IsTree-new_query "u" [] (record { below = λ n p s e up. cc; above = λ n s e. cc }))

length-queries : 0 < length queries
unfolding queries
length-queries = omega arith

run_returns_example : run numbers list_store db in_order by_start queries 0 ≢ pending
run_returns_example =
    run_returns numbers list_store db in_order by_start queries
      (record { same_results = λ rs. Perm.refl rs }) (children-IsTree queries queries-IsTree) 0
      (parents-IsTree queries queries-IsTree) length-queries

do_run-OwnError_example :
    OwnError numbers list_store db in_order by_start [] (of_id "bad") "no byte"
unfolding answer
do_run-OwnError_example =
    do_run-OwnError numbers list_store db in_order by_start [] 3 (of_id "bad") 0 (pos 1) "no byte"
      bad_answer

abbrev posts : Results numbers
posts =
    cons (node "p" "Post" [] nil)
      (cons (node "l" "Like" [] nil) (cons (node "q" "Post" [] nil) nil))

post_maps : List (Fields numbers)
post_maps =
    map (λ r. as_fields numbers (to_map numbers (pos 9) r))
      (node "p" "Post" [] nil ∷ node "q" "Post" [] nil ∷ [])

to_map-children_example :
    (ms : Maps numbers) × (Dict.lookup "Post" (to_map numbers (pos 9) (node "u" "User" [] posts))
      ≡ some (maps ms))
    × (fields_in numbers ms ≡ post_maps)
unfolding post_maps child_maps
to_map-children_example = to_map-children numbers (pos 9) "Post" "u" "User" [] posts (λ e. cc)

no_name : has_kind numbers "name" (maps_of_children numbers (pos 9) (reads (answer "u"))) ≡ false
unfolding answer reads child_maps
no_name = refl

do_run-newest_example :
    (reads (answer "u") ≡ empty_result numbers)
    ⊎ (Dict.lookup "name" (to_map numbers (pos 9) (reads (answer "u"))) ≡ some (val 4))
unfolding answer
do_run-newest_example =
    do_run-newest numbers list_store db in_order by_start [] 3 (of_id "u") 0 (pos 1) (pos 9)
      (rows_of db "u") (reads (answer "u")) "name"
      (record { value = 2; source = "me"; nano_ts = pos 1 } ∷ [])
      (record { value = 4; source = "me"; nano_ts = pos 3 }) refl read_u (refl, refl, refl, refl)
      no_name refl

do_run-IsOf_example : IsOf (rows_of db "u") (reads (answer "u"))
unfolding answer
do_run-IsOf_example =
    do_run-IsOf numbers list_store db in_order by_start [] 3 (of_id "u") 0 (pos 1)
      (row "User" "u" "name" (1 ∷ []) "" 1)
      (row "User" "u" "Post" [] "p" 2 ∷ row "User" "u" "name" (3 ∷ []) "" 3 ∷ [])
      (reads (answer "u")) (λ l. Perm.refl l) refl refl read_u
