-- ===== src/Tests/Search.antt =====
-- A small index, with floats and values of other types as numbers.
use gocrud.Prelude.{
  ℕ, ltb, String, ◌≡◌, refl, ◌⊎◌, Bool, true, false, ◌==◌, some, List, [], ◌∷◌, pos,
}
use gocrud.Outcome.{Outcome, ok}
use gocrud.Prelude.Dict
use gocrud.Search.{Dyn, str, Go, fields, Doc, MemSearch, init, key, update}
use gocrud.Search.MemQuery.{
  filter_loop, and_round, test, Filter, MemQuery, or_match, run_and_filter, run_or_filter,
}
use gocrud.Search.MemQuery.Running.{run, count}
use gocrud.Search.MemQuery.Filtering.{and_is_or, filtered, select, run_or_filter-select}
use gocrud.Search.MemQuery.Page.{IsPlain, count-run}
use gocrud.Search.Versioning.{IsStored, IsConflict, update_versions}

abbrev same : Dyn ℕ ℕ → Dyn ℕ ℕ → Bool
same (str a) (str b) = a == b
same _ _ = false

abbrev pub small : Go
small = record {
  Float = ℕ;
  float_lt = ltb;
  Other = ℕ;
  nil_value = 0;
  same_other_type = λ a b. true;
  deep_equal = same;
  to_lower = λ s. s;
  Regexp = String;
  compile = λ s. some s;
  match_string = λ re s. re == s;
}

abbrev pub doc : String → String → ℕ → String → Doc small
doc kind id ts text = record {
  kind = kind;
  id = id;
  nano_ts = pos ts;
  body = fields (("text", str text) ∷ []);
}

abbrev two : List (Doc small)
two = doc "Post" "1" 1 "a" ∷ doc "Post" "2" 2 "b" ∷ []

index : MemSearch small
unfolding init update Dict.insert Dict.lookup key
index = (update small (doc "Post" "1" 1 "a") (init small)).1

update_versions_example :
    IsStored small
      (doc "Post" "1" 2 "b")
      index
      (update small (doc "Post" "1" 2 "b") index).1
      (update small (doc "Post" "1" 2 "b") index).0
    ⊎ IsConflict small
        (doc "Post" "1" 2 "b")
        index
        (update small (doc "Post" "1" 2 "b") index).1
        (update small (doc "Post" "1" 2 "b") index).0
update_versions_example = update_versions small (doc "Post" "1" 2 "b") index

abbrev texts : List (Filter small)
texts = record { field = "data.text"; value = str "b"; regex = "" } ∷ []

posts_query : MemQuery small
posts_query = record {
  docs = two;
  filter = some texts;
  filter_type = 1;
  from = pos 0;
  limit = pos 0;
  order = "";
}

and_is_or_example : run_and_filter small texts posts_query ≡ run_or_filter small texts posts_query
and_is_or_example = and_is_or small texts posts_query

run_or_filter-select_example :
    filtered small texts posts_query ≡ select small (or_match small texts) posts_query.docs
run_or_filter-select_example = run_or_filter-select small texts posts_query

-- A sort that leaves the documents as they are.
abbrev unsorted :
    (Doc small → Doc small → Outcome Bool) → List (Doc small) → Outcome (List (Doc small))
unsorted less docs = ok docs

posts_query-IsPlain : IsPlain {G = small} posts_query
unfolding posts_query
posts_query-IsPlain = record { order = refl; from = refl; limit = refl }

run_b : (run small unsorted posts_query).0 ≡ ok (doc "Post" "2" 2 "b" ∷ [])
unfolding run posts_query run_and_filter filter_loop and_round test Dict.lookup
run_b = refl

count-run_example :
    ((count small posts_query).0 ≡ ok 1)
    × ((count small posts_query).1.docs ≡ (run small unsorted posts_query).1.docs)
count-run_example =
    count-run small unsorted posts_query (doc "Post" "2" 2 "b" ∷ []) posts_query-IsPlain run_b
