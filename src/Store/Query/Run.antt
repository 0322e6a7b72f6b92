-- ===== src/Store/Query/Run.antt =====
-- store/query.go: `Parent`, `doRun` and `Run`.
pub mod Walk
pub mod Discards
pub mod Shows
pub mod Healthy
pub mod Succeeds
pub mod History
pub mod Jobs
pub mod Sorting
mod Fuel
pub mod Returns
pub mod Errors
use gocrud.Prelude.{
  IsSortedBy, ℕ, zero, suc, ◌+◌, String, ◌≡◌, ◌==◌, Bool, true, false, not, ◌&&◌, Option, none,
  some, List, [], ◌∷◌, ◌++◌, map, Perm, length, get_elem?, ℤ, pos, pos_part, ltb_ℤ, if◌then◌else◌,
}
use gocrud.Prelude.Dict
use gocrud.Prelude.Dict.{Dict}
use gocrud.Outcome.{Outcome, Fallible, value, error, ok, err, halt, pending, lift, ◌>>=◌}
use gocrud.X.{Instruction}
use gocrud.Store.{Store}
use gocrud.Store.Arena.{root}
use gocrud.Store.Update.{Json}
use gocrud.Store.Query.{
  Query, Queries, blank, Object, Versions, add, Columns, Result, node, of_list, result_id,
  result_kind, empty_result,
}

-- sort.Sort on `x.Its`: the same rows, by their time.
pub record IsSort (sort : List Instruction → List Instruction) : Type 0 where
  pub sorted : (its : List Instruction) → IsSortedBy (λ i. i.nano_ts) (sort its)
  pub same_rows : (its : List Instruction) → Perm its (sort its)

-- A goroutine that `doRun` starts for a child.
pub record Job : Type 0 where
  pub query : Query
  pub level : ℕ
  pub max : ℤ

unfoldable pub parent_in : List Instruction → Outcome String
parent_in [] = err "No parent found"
parent_in (it ∷ its) = if it.predicate == "_parent_" then ok it.object_id else parent_in its

module _ (S : Store) where
  unfoldable pub parent : S.State → String → Outcome String
  unfolding parent_in
  parent db id = lift (S.get_entity db id) >>= parent_in

-- `follow[child.kind] = child`, for each child in turn.
unfoldable pub follow_from : Queries → List ℕ → Dict Query → Dict Query
follow_from qs [] m = m
follow_from qs (c ∷ cs) m = elim (get_elem? qs c) [
  | none ↦ follow_from qs cs m
  | some child ↦ follow_from qs cs (Dict.insert child.kind child m)
]

abbrev pub in_dict : Option Bool → Bool
in_dict none = false
in_dict (some b) = true

module _ (J : Json) where
  -- What the loop over the rows has built: the columns, and the goroutines in the order of their start.
  pub record Progress : Type 0 where
    pub columns : Columns J
    pub jobs : List Job

  abbrev pub versions_at : Option (Versions J) → Versions J
  versions_at none = []
  versions_at (some v) = v

  unfoldable pub add_version : Instruction → Progress → Outcome (Option Progress)
  add_version it p = do
    v ← lift (J.unmarshal it.object)
    w ←
        add J (record { value = v; source = it.source; nano_ts = it.nano_ts })
          (versions_at (Dict.lookup it.predicate p.columns))
    ok (some (record p { columns = Dict.insert it.predicate w p.columns }))

  -- The loop goes on, or returns from the function.
  abbrev pub proceed :
      (Progress → Outcome (Option Progress)) → Outcome (Option Progress) → Outcome (Option Progress)
  proceed next (ok (some p)) = next p
  proceed next (ok none) = ok none
  proceed next (err e) = err e
  proceed next (halt e) = halt e
  proceed next pending = pending

  module _ (q : Query) (follow : Dict Query) (level : ℕ) (max : ℤ) where
    unfoldable pub visit_edge : Instruction → Option Query → Progress → Progress
    visit_edge it (some childq) p = record p {
      jobs =
          p.jobs
          ++ record {
            query = record childq { id = it.object_id; get_deleted = q.get_deleted };
            level = 0;
            max = childq.max_depth;
          }
            ∷ [];
    }
    visit_edge it none p =
        if ltb_ℤ (pos level) max
        then record p {
          jobs =
              p.jobs
              ++ record {
                query = record blank { id = it.object_id; get_deleted = q.get_deleted };
                level = suc level;
                max = max;
              }
                ∷ [];
        }
        else p

    -- One round of the loop; `none` discards the entity.
    unfoldable pub visit : Instruction → Progress → Outcome (Option Progress)
    visit it p =
        if it.predicate == "_delete_" && not q.get_deleted
        then ok none
        else if it.predicate == "_parent_"
        then ok (some p)
        else if in_dict (Dict.lookup it.predicate q.filter_out)
        then ok none
        else if it.object_id == ""
        then add_version it p
        else ok (some (visit_edge it (Dict.lookup it.predicate follow) p))

    unfoldable pub visit_all : List Instruction → Progress → Outcome (Option Progress)
    visit_all [] p = ok (some p)
    visit_all (it ∷ its) p = proceed (visit_all its) (visit it p)

  -- A result without an id or a kind is left out.
  abbrev pub kept : Result J → List (Result J) → List (Result J)
  kept r acc =
      if result_id J r == "" then acc else if result_kind J r == "" then acc else acc ++ r ∷ []

  -- The loop that waits for the children. It logs a child's error through `x.LogErr(log, err)`, where
  -- `err` is the nil error of `GetEntity`, not the child's: that panics.
  unfoldable pub gather : List (Outcome (Result J)) → List (Result J) → Outcome (List (Result J))
  gather [] acc = ok acc
  gather (ok r ∷ rs) acc = gather rs (kept r acc)
  gather (err e ∷ rs) acc = halt "nil pointer dereference"
  gather (halt e ∷ rs) acc = halt e
  gather (pending ∷ rs) acc = pending

-- Every result comes through the channel once, in any order.
pub record IsArrival {J : Json} (arrive : List (Outcome (Result J)) → List (Outcome (Result J)))
    : Type 0 where
  pub same_results : (rs : List (Outcome (Result J))) → Perm rs (arrive rs)

-- No query descends further: the sum of the depths asked for.
unfoldable pub deepest : Queries → ℕ
deepest [] = 0
deepest (q ∷ rest) = pos_part q.max_depth + deepest rest

-- `sort` is sort.Sort on `x.Its`, by the time of the rows. `arrive` is the order in which the results of the children come through the channel. The database is
-- the one that all goroutines read.
module _ (J : Json) (S : Store) (db : S.State) (sort : List Instruction → List Instruction)
    (arrive : List (Outcome (Result J)) → List (Outcome (Result J))) (qs : Queries) where
  abbrev Rec : Type 0
  Rec = Query → ℕ → ℤ → Outcome (Result J)

  unfoldable pub collect_children : Rec → Instruction → Option (Progress J) → Outcome (Result J)
  collect_children rec it none = ok (empty_result J)
  collect_children rec it (some p) = do
    children ← gather J (arrive (map (λ j. rec j.query j.level j.max) p.jobs)) []
    ok (node it.subject_id it.subject_type p.columns (of_list J children))

  -- The first row gives the id and the kind.
  unfoldable pub run_sorted : Rec → Query → ℕ → ℤ → List Instruction → Outcome (Result J)
  run_sorted rec q level max [] = halt "index out of range"
  run_sorted rec q level max (it ∷ its) =
      visit_all J q (follow_from qs q.children []) level max (it ∷ its)
        (record { columns = []; jobs = [] })
      >>= collect_children rec it

  unfoldable pub run_rows : Rec → Query → ℕ → ℤ → List Instruction → Outcome (Result J)
  run_rows rec q level max [] = ok (empty_result J)
  run_rows rec q level max (it ∷ its) = run_sorted rec q level max (sort (it ∷ its))

  unfoldable pub do_run : ℕ → Query → ℕ → ℤ → Outcome (Result J)
  do_run zero q level max = pending
  do_run (suc f) q level max = lift (S.get_entity db q.id) >>= run_rows (do_run f) q level max

  -- Fuel: a level for each query of the tree, then one for each depth.
  unfoldable pub run : ℕ → Outcome (Result J)
  run n = elim (root (λ (q : Query). q.parent) (length qs) qs n) [
    | none ↦ pending
    | some top ↦ elim (get_elem? qs top) [
      | none ↦ halt "nil pointer dereference"
      | some q ↦
          if q.id == ""
          then err "Empty entity id"
          else do_run (suc (length qs + deepest qs)) q 0 q.max_depth
    ]
  ]
