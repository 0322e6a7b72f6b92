-- ===== src/Elasticsearch.antt =====
-- drivers/elasticsearch/elastic.go: the search engine that hands its queries to ElasticSearch, whose client
-- is a parameter.
use Prim.Native.String
pub mod Setup
pub mod Requests
use gocrud.Prelude.{
  ℕ, zero, suc, String, ◌==◌, starts_with, Bool, true, false, ◌||◌, Option, none, some, List, [],
  ◌∷◌, ◌++◌, ℤ, pos, negsuc, ltb_ℤ, if◌then◌else◌,
}
use gocrud.Outcome.{Outcome, Fallible, value, error, ok, err, lift, ◌>>=◌}
use gocrud.Search.{Go, Value, Doc}

module _ (G : Go) where
  -- What NewTermFilter and NewRegexpFilter make.
  pub data Filter : Type 0 where
    term : String → Value G → Filter
    regexp : String → String → Filter

  -- A FilteredQuery of all documents, with an AndFilter or an OrFilter.
  pub data FilteredQuery : Type 0 where
    and_filter : List Filter → FilteredQuery
    or_filter : List Filter → FilteredQuery

  -- `filter_type` is 0 for no filter, 1 for AND and 2 for OR.
  pub record ElasticQuery : Type 0 where
    pub sort : String
    pub from : ℤ
    pub limit : ℤ
    pub kind : String
    pub filter : Option (List Filter)
    pub filter_type : ℕ

  -- A search of the index "gocrud", as the client sends it. A field to sort by is with whether it ascends.
  pub record Request : Type 0 where
    pub kind : String
    pub sort : Option (String × Bool)
    pub from : Option ℤ
    pub size : Option ℤ
    pub query : Option FilteredQuery

  -- The client: `search` answers without hits or with the documents of all hits, and `index` takes a
  -- document with its time as external version.
  pub record Client : Type 1 where
    pub Index : Type 0
    pub index : Doc G → Index → Fallible (Unit {0}) × Index
    pub search : Index → Request → Fallible (Option (List (Doc G)))
    pub count : Index → String → Option FilteredQuery → Fallible ℤ

  is_zero : ℤ → Bool
  is_zero (pos zero) = true
  is_zero (pos (suc n)) = false
  is_zero (negsuc n) = false

  unfoldable pub update : (E : Client) → Doc G → E.Index → Outcome (Unit {0}) × E.Index
  unfolding is_zero
  update E doc ix =
      let (o, ix') = E.index doc ix in
      if doc.id == "" || (doc.kind == "" || is_zero doc.nano_ts)
      then (err "Invalid document", ix)
      else (lift o, ix')

  unfoldable pub new_query : String → ElasticQuery
  new_query kind = record {
    sort = "";
    from = pos 0;
    limit = pos 0;
    kind = kind;
    filter = none;
    filter_type = 0;
  }

  unfoldable pub new_and_filter : ElasticQuery → ElasticQuery
  new_and_filter eq = record eq { filter = some []; filter_type = 1 }

  unfoldable pub new_or_filter : ElasticQuery → ElasticQuery
  new_or_filter eq = record eq { filter = some []; filter_type = 2 }

  -- Through the filter that the query holds; there is one after `new_and_filter` or `new_or_filter`.
  unfoldable pub push_filter : Filter → Option (List Filter) → Option (List Filter)
  push_filter f none = none
  push_filter f (some fs) = some (fs ++ f ∷ [])

  unfoldable pub add_exact : String → Value G → ElasticQuery → ElasticQuery
  unfolding push_filter
  add_exact field v eq = record eq { filter = push_filter (term field v) eq.filter }

  unfoldable pub add_regex : String → String → ElasticQuery → ElasticQuery
  unfolding push_filter
  add_regex field v eq = record eq { filter = push_filter (regexp field v) eq.filter }

  unfoldable pub order : String → ElasticQuery → ElasticQuery
  order field eq = record eq { sort = field }

  unfoldable pub from : ℤ → ElasticQuery → ElasticQuery
  from num eq = record eq { from = num }

  unfoldable pub limit : ℤ → ElasticQuery → ElasticQuery
  limit num eq = record eq { limit = num }

  -- The tests of `generateQuery`, on the type and the filters.
  unfoldable pub generate_query : ℕ → List Filter → Outcome FilteredQuery
  generate_query zero fs = err "Filter present, but not set"
  generate_query (suc zero) fs = ok (and_filter fs)
  generate_query (suc (suc zero)) fs = ok (or_filter fs)
  generate_query (suc (suc (suc n))) fs = err "Invalid filter type"

  -- Where `Run` and `Count` have a filter, they generate its query.
  unfoldable pub query_of : Option (List Filter) → ℕ → Outcome (Option FilteredQuery)
  unfolding generate_query
  query_of none n = ok none
  query_of (some fs) n = do q ← generate_query n fs; ok (some q)

  -- A field that begins with "-" descends.
  unfoldable pub sort_of : String → Option (String × Bool)
  sort_of String.[] = none
  sort_of (String.◌∷◌ c rest) =
      if starts_with (String.◌∷◌ c rest) "-"
      then some (rest, false)
      else some (String.◌∷◌ c rest, true)

  unfoldable pub positive : ℤ → Option ℤ
  positive n = if ltb_ℤ (pos 0) n then some n else none

  abbrev pub results : Fallible (Option (List (Doc G))) → Outcome (List (Doc G))
  results (error e) = err e
  results (value none) = ok []
  results (value (some docs)) = ok docs

  unfoldable pub run : (E : Client) → E.Index → ElasticQuery → Outcome (List (Doc G))
  unfolding query_of sort_of positive
  run E ix eq = do
    q ← query_of eq.filter eq.filter_type
    results (
        E.search ix (record {
          kind = eq.kind;
          sort = sort_of eq.sort;
          from = positive eq.from;
          size = positive eq.limit;
          query = q;
        }))

  unfoldable pub count : (E : Client) → E.Index → ElasticQuery → Outcome ℤ
  unfolding query_of
  count E ix eq = do q ← query_of eq.filter eq.filter_type; lift (E.count ix eq.kind q)
