-- ===== src/Store/Query.antt =====
-- store/query.go: queries, the versions of a property, and the results of a query.
-- A `*Query` is an index in the arena of all queries.
pub mod Run
pub mod Goroutines
pub mod Response
pub mod WellFormed
pub mod ToMap
use gocrud.Prelude.{
  ℕ, zero, suc, String, ◌==◌, Bool, true, false, Option, none, some, List, [], ◌∷◌, ◌++◌, length,
  get_elem?, ℤ, pos, ltb_ℤ, if◌then◌else◌,
}
use gocrud.Prelude.Dict
use gocrud.Prelude.Dict.{Dict}
use gocrud.Outcome.{Outcome, ok, halt}
use gocrud.Exec.{Exec}
use gocrud.Store.Arena.{modify}
use gocrud.Store.Update.{Json}

pub record Query : Type 0 where
  pub kind : String
  pub id : String
  pub filter_out : Dict Bool
  pub max_depth : ℤ
  pub children : List ℕ
  pub parent : Option ℕ
  pub get_deleted : Bool

abbrev pub Queries : Type 0
Queries = List Query

-- `new(Query)`
abbrev pub blank : Query
blank = record {
  kind = "";
  id = "";
  filter_out = [];
  max_depth = pos 0;
  children = [];
  parent = none;
  get_deleted = false;
}

unfoldable pub new_query : String → Queries → Queries × ℕ
new_query id qs = (qs ++ record blank { id = id } ∷ [], length qs)

unfoldable pub upto_depth : ℤ → ℕ → Queries → Queries
upto_depth level = modify (λ q. record q { max_depth = level })

unfoldable pub allow_deleted : ℕ → Queries → Queries
allow_deleted = modify (λ q. record q { get_deleted = true })

unfoldable pub filter_out : String → ℕ → Queries → Queries
filter_out property = modify (λ q. record q { filter_out = Dict.insert property true q.filter_out })

-- The loop of `Collect` over the children: the first of that kind.
unfoldable pub find_kind : String → Queries → List ℕ → Option ℕ
find_kind kind qs [] = none
find_kind kind qs (c ∷ cs) =
    let rest = find_kind kind qs cs in
    elim (get_elem? qs c) [ none ↦ rest | some child ↦ if child.kind == kind then some c else rest ]

unfoldable pub collected : String → ℕ → Query → Query
collected kind n q = record blank { kind = kind; parent = some n; get_deleted = q.get_deleted }

unfoldable pub collect : String → ℕ → Exec Queries ℕ
unfolding find_kind collected
collect kind n qs = elim (get_elem? qs n) [
  | none ↦ (halt "nil pointer dereference", qs)
  | some q ↦ elim (find_kind kind qs q.children) [
    | some c ↦ (ok c, qs)
    | none ↦ (
      ok (length qs),
      modify (λ p. record p { children = p.children ++ length qs ∷ [] }) n qs
          ++ collected kind n q ∷ [],
    )
  ]
]

module _ (J : Json) where
  pub record Object : Type 0 where
    pub value : J.Value
    pub source : String
    pub nano_ts : ℤ

  abbrev pub Versions : Type 0
  Versions = List Object

  -- `Object{}`
  abbrev pub no_object : Object
  no_object = record { value = J.nil_value; source = ""; nano_ts = pos 0 }

  unfoldable pub latest : Versions → Object
  latest [] = no_object
  latest (o ∷ []) = o
  latest (o ∷ p ∷ v) = latest (p ∷ v)

  unfoldable pub oldest : Versions → Object
  oldest [] = no_object
  oldest (o ∷ v) = o

  unfoldable pub count : Versions → ℕ
  count v = length v

  -- The process ends if the last version is later than the new one.
  unfoldable pub add : Object → Versions → Outcome Versions
  unfolding latest
  add o [] = ok (o ∷ [])
  add o (p ∷ v) =
      if ltb_ℤ o.nano_ts (latest (p ∷ v)).nano_ts
      then halt "Appending an object with lower ts to a sorted list"
      else ok ((p ∷ v) ++ o ∷ [])

  abbrev pub Columns : Type 0
  Columns = Dict Versions

  -- A result holds the list of its children.
  mutual
    pub data Result : Type 0 where
      node : String → String → Columns → Results → Result

    pub data Results : Type 0 where
      nil : Results
      cons : Result → Results → Results

  abbrev pub result_id : Result → String
  result_id (node id kind columns children) = id

  abbrev pub result_kind : Result → String
  result_kind (node id kind columns children) = kind

  abbrev pub columns_of : Result → Columns
  columns_of (node id kind columns children) = columns

  abbrev pub children_of : Result → Results
  children_of (node id kind columns children) = children

  abbrev pub of_list : List Result → Results
  of_list [] = nil
  of_list (r ∷ rs) = cons r (of_list rs)

  -- `new(Result)`, for an entity that is not there or is left out.
  abbrev pub empty_result : Result
  empty_result = node "" "" [] nil

  unfoldable pub drop : String → Result → Result
  drop pred (node id kind columns children) = node id kind (Dict.erase pred columns) children
