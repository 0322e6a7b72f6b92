-- ===== src/Elasticsearch/Requests.antt =====
-- Queries as their callers build them, and the requests that go out for them.
use gocrud.Prelude.{
  ℕ, zero, suc, String, ◌<>◌, starts_with, starts_with_iff, ◌≡◌, ◌≢◌, refl, sym, ap, subst, ◌∙◌,
  ◌⊎◌, inl, inr, Bool, Bool-cases, true, false, false≢true, Option, none, some, List, [], ◌∷◌, ◌++◌,
  ℤ, pos, negsuc, arith,
}
use text.Mathlib.TextLemmas.{nil-append, cons-append}
use gocrud.Outcome.{ok, lift}
use gocrud.Search.{Go, Value}
use gocrud.Elasticsearch
use gocrud.Elasticsearch.{
  Filter, term, regexp, FilteredQuery, and_filter, or_filter, ElasticQuery, Request, Client,
  new_query, new_and_filter, new_or_filter, push_filter, add_exact, add_regex, generate_query,
  query_of, sort_of, positive, results,
}

-- A text without its first character.
behind : String → String
behind String.[] = ""
behind (String.◌∷◌ c t) = t

behind_minus : (t : String) → behind ("-" <> t) ≡ t
unfolding behind
behind_minus t = ap behind (cons-append "-" "" t) ∙ nil-append t

module _ (G : Go) where
  -- The methods of a query and of its filter.
  pub data Call : Type 0 where
    and_of_all : Call
    or_of_all : Call
    exact : String → Value G → Call
    regex : String → String → Call
    sorted_by : String → Call
    starting_at : ℤ → Call
    at_most : ℤ → Call

  unfoldable pub called : Call → ElasticQuery G → ElasticQuery G
  called and_of_all eq = new_and_filter G eq
  called or_of_all eq = new_or_filter G eq
  called (exact field v) eq = add_exact G field v eq
  called (regex field v) eq = add_regex G field v eq
  called (sorted_by field) eq = Elasticsearch.order G field eq
  called (starting_at n) eq = Elasticsearch.from G n eq
  called (at_most n) eq = Elasticsearch.limit G n eq

  unfoldable pub built : List Call → ElasticQuery G → ElasticQuery G
  unfolding called
  built [] eq = eq
  built (c ∷ cs) eq = built cs (called c eq)

  -- The last field to sort by, offset and limit that were given, or else the first ones.
  abbrev pub last_field : String → List Call → String
  last_field d [] = d
  last_field d (sorted_by field ∷ cs) = last_field field cs
  last_field d (c ∷ cs) = last_field d cs

  abbrev pub last_offset : ℤ → List Call → ℤ
  last_offset d [] = d
  last_offset d (starting_at n ∷ cs) = last_offset n cs
  last_offset d (c ∷ cs) = last_offset d cs

  abbrev pub last_limit : ℤ → List Call → ℤ
  last_limit d [] = d
  last_limit d (at_most n ∷ cs) = last_limit n cs
  last_limit d (c ∷ cs) = last_limit d cs

  -- A filter with one more.
  abbrev pub with_filter : Filter G → Option (FilteredQuery G) → Option (FilteredQuery G)
  with_filter f none = none
  with_filter f (some (and_filter fs)) = some (and_filter (fs ++ f ∷ []))
  with_filter f (some (or_filter fs)) = some (or_filter (fs ++ f ∷ []))

  -- The last filter that was begun, with what was added to it.
  abbrev pub last_filter : Option (FilteredQuery G) → List Call → Option (FilteredQuery G)
  last_filter q [] = q
  last_filter q (and_of_all ∷ cs) = last_filter (some (and_filter [])) cs
  last_filter q (or_of_all ∷ cs) = last_filter (some (or_filter [])) cs
  last_filter q (exact field v ∷ cs) = last_filter (with_filter (term field v) q) cs
  last_filter q (regex field v ∷ cs) = last_filter (with_filter (regexp field v) q) cs
  last_filter q (c ∷ cs) = last_filter q cs

  push_filter-query :
      (f : Filter G) (o : Option (List (Filter G))) (n : ℕ) (q : Option (FilteredQuery G))
      → query_of G o n ≡ ok q
      → query_of G (push_filter G f o) n ≡ ok (with_filter f q)
  unfolding query_of push_filter generate_query
  push_filter-query f none n none h = refl
  push_filter-query f none n (some q) h = cc
  push_filter-query f (some fs) zero q h = cc
  push_filter-query f (some fs) (suc zero) none h = cc
  push_filter-query f (some fs) (suc zero) (some (and_filter gs)) h = cc
  push_filter-query f (some fs) (suc zero) (some (or_filter gs)) h = cc
  push_filter-query f (some fs) (suc (suc zero)) none h = cc
  push_filter-query f (some fs) (suc (suc zero)) (some (and_filter gs)) h = cc
  push_filter-query f (some fs) (suc (suc zero)) (some (or_filter gs)) h = cc
  push_filter-query f (some fs) (suc (suc (suc n))) q h = cc

  -- An offset or a limit that is sent: a positive one.
  abbrev pub if_positive : ℤ → Option ℤ
  if_positive (pos zero) = none
  if_positive (pos (suc n)) = some (pos (suc n))
  if_positive (negsuc n) = none

  positive-if_positive : (n : ℤ) → positive G n ≡ if_positive n
  unfolding positive
  positive-if_positive (pos zero) = ground arith
  positive-if_positive (pos (suc n)) = ground arith
  positive-if_positive (negsuc n) = ground arith

  -- What is sent for a field to sort by: nothing for the empty one, the rest of one that begins with a minus,
  -- to descend, and any other, to ascend.
  abbrev pub IsOrder : String → Option (String × Bool) → Type 0
  IsOrder field o =
      ((field ≡ "") × (o ≡ none))
      ⊎ ((rest : String) × (field ≡ "-" <> rest) × (o ≡ some (rest, false)))
      ⊎ ((field ≢ "") × ((rest : String) → field ≢ "-" <> rest) × (o ≡ some (field, true)))

  sort_of-IsOrder : (field : String) → IsOrder field (sort_of G field)
  unfolding sort_of behind
  sort_of-IsOrder String.[] = inl (refl, refl)
  sort_of-IsOrder (String.◌∷◌ c rest) =
      let field = String.◌∷◌ c rest in
      elim (Bool-cases (starts_with field "-")) [
        | inl falls ↦
            let (r, longer) = (starts_with_iff field "-").0 falls in
            rw falls (
              inr (
                inl (
                  r,
                  sym longer,
                  ap (λ t. some (t, false)) (sym (ap behind longer) ∙ behind_minus r),
                )))
        | inr rises ↦ rw rises (
            inr (
              inr (
                λ e. cc,
                (λ r e. false≢true (sym rises ∙ (starts_with_iff field "-").1 (r, sym e))),
                refl,
              )))
      ]

  -- The request for a query after further calls.
  abbrev pub asks : List Call → ElasticQuery G → Option (FilteredQuery G) → Request G
  asks cs eq q = record {
    kind = eq.kind;
    sort = sort_of G (last_field eq.sort cs);
    from = positive G (last_offset eq.from cs);
    size = positive G (last_limit eq.limit cs);
    query = last_filter q cs;
  }

  module _ (E : Client G) (ix : E.Index) where
    abbrev Sends : List Call → ElasticQuery G → Option (FilteredQuery G) → Type 0
    Sends cs eq q =
        (Elasticsearch.run G E ix (built cs eq) ≡ results G (E.search ix (asks cs eq q)))
        × (Elasticsearch.count G E ix (built cs eq) ≡ lift (E.count ix eq.kind (last_filter q cs)))

    built-Sends :
        (cs : List Call) (eq : ElasticQuery G) (q : Option (FilteredQuery G))
        → query_of G eq.filter eq.filter_type ≡ ok q
        → Sends cs eq q
    unfolding built called Elasticsearch.run Elasticsearch.count new_and_filter new_or_filter
        query_of generate_query add_exact add_regex Elasticsearch.order Elasticsearch.from
        Elasticsearch.limit
    built-Sends [] eq q h = (rw h refl, rw h refl)
    built-Sends (and_of_all ∷ cs) eq q h =
        built-Sends cs (new_and_filter G eq) (some (and_filter [])) refl
    built-Sends (or_of_all ∷ cs) eq q h =
        built-Sends cs (new_or_filter G eq) (some (or_filter [])) refl
    built-Sends (exact field v ∷ cs) eq q h =
        built-Sends cs (add_exact G field v eq) (with_filter (term field v) q)
          (push_filter-query (term field v) eq.filter eq.filter_type q h)
    built-Sends (regex field v ∷ cs) eq q h =
        built-Sends cs (add_regex G field v eq) (with_filter (regexp field v) q)
          (push_filter-query (regexp field v) eq.filter eq.filter_type q h)
    built-Sends (sorted_by field ∷ cs) eq q h = built-Sends cs (Elasticsearch.order G field eq) q h
    built-Sends (starting_at n ∷ cs) eq q h = built-Sends cs (Elasticsearch.from G n eq) q h
    built-Sends (at_most n ∷ cs) eq q h = built-Sends cs (Elasticsearch.limit G n eq) q h

    -- A query that is made by NewQuery and then by any calls of its methods never ends in an error of its
    -- own: Run returns what the client answers to the request for the order of the last field to sort by,
    -- the last offset and limit, each if it is positive, and the filter begun last with what was added to
    -- it since; and Count returns what the client counts for that filter. A field that begins with a
    -- minus descends by the rest of its name, any other but the empty one ascends.
    pub built_sends :
        (kind : String) (cs : List Call)
        → (order : Option (String × Bool)) × IsOrder (last_field "" cs) order
          × (Elasticsearch.run G E ix (built cs (new_query G kind))
              ≡ results G (
                  E.search ix (record {
                    kind = kind;
                    sort = order;
                    from = if_positive (last_offset (pos 0) cs);
                    size = if_positive (last_limit (pos 0) cs);
                    query = last_filter none cs;
                  })))
          × (Elasticsearch.count G E ix (built cs (new_query G kind))
              ≡ lift (E.count ix kind (last_filter none cs)))
    unfolding new_query query_of
    built_sends kind cs =
        let (ran, counted) = built-Sends cs (new_query G kind) none refl in
        (
          sort_of G (last_field "" cs),
          sort_of-IsOrder (last_field "" cs),
          subst
              (λ n.
                Elasticsearch.run G E ix (built cs (new_query G kind))
                ≡ results G (
                    E.search ix (record {
                      kind = kind;
                      sort = sort_of G (last_field "" cs);
                      from = n;
                      size = if_positive (last_limit (pos 0) cs);
                      query = last_filter none cs;
                    })))
              (positive-if_positive (last_offset (pos 0) cs))
              (subst
                (λ n.
                  Elasticsearch.run G E ix (built cs (new_query G kind))
                  ≡ results G (
                      E.search ix (record {
                        kind = kind;
                        sort = sort_of G (last_field "" cs);
                        from = positive G (last_offset (pos 0) cs);
                        size = n;
                        query = last_filter none cs;
                      })))
                (positive-if_positive (last_limit (pos 0) cs)) ran),
          counted,
        )
