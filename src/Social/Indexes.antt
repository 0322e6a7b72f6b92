-- ===== src/Social/Indexes.antt =====
-- What the indexer of the example returns over a store without bad rows.
use gocrud.Prelude.{String, [], ℤ}
use gocrud.Outcome.{Outcome}
use gocrud.Store.{Store}
use gocrud.Store.Query.{Query, Queries, new_query, upto_depth}

-- The arena of one query.
abbrev one_query : String → ℤ → Queries
one_query id depth = upto_depth depth 0 (new_query id []).0
