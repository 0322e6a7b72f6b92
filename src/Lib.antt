-- ===== src/Lib.antt =====
-- gocrud: versioned entities over a data store, with a search index beside it.
--
-- A caller builds a tree of updates and calls Execute, which turns the tree into instructions (rows),
-- draws ids for new children, commits the rows as one batch to a driver, and tells the indexer which
-- entities have changed. A caller builds a tree of queries and calls Run, which reads the rows of an
-- entity, builds its columns of versions, and follows the edges to children in goroutines. The
-- indexer regenerates documents of changed entities and hands them to a search engine, which answers
-- queries with filters, an order and pages.
--
-- Which file models which part:
-- - Outcome, Exec: what a Go call ends in, a value, a returned error, or the end of the process (a
--   panic or log.Fatal), and such calls over a state. A recursion that is cut off by its fuel,
--   and a send that blocks for ever, is `pending`.
-- - Store/Registry: the one registered driver of store/store.go. Store/Query/ToMap: ToMap, with
--   Latest and Newest about the value it shows of a property.
-- - X, X/Its, X/Codec, X/UniqueString, X/Url: x/x.go, the rows, their order, their gob encoding,
--   fresh ids, and ids from paths. X/Http: SetStatus, ParseRequest and Reply of x/x.go, with
--   Store/Query/Response for ToJson and WriteJsonResponse; http.ResponseWriter and encoding/json are
--   parameters. encoding/gob, math/rand and strings.LastIndex are parameters.
-- - Req: req/req.go, the contexts; a channel is its capacity and what has been sent to it.
-- - Store: store/store.go, the interface of a driver as a record over the state of its database.
--   Store/Arena holds what update and query trees share: a pointer is an index in the arena of all
--   the nodes built so far, with an optional parent and a list of children.
-- - Store/Update, Store/Update/Execute: store/update.go. The loops follow the methods Set, AddChild,
--   SetCommitTs, doExecute and Execute. A send to the channel of updates goes through while the
--   channel has a free place or a receiver for it, and blocks else, which is `pending`. A Go map
--   of edges is an association list, and the order in which `range` walks it is a parameter. Json
--   values and their encoding are a parameter.
-- - Store/Query, Store/Query/Run: store/query.go. Collect, FilterOut, Versions, Parent, doRun and
--   Run. The order in which the results of goroutines arrive is a parameter, as is sort.Sort,
--   whose calls of the methods of x.Its Store/Query/Run/Sorting is about. ToMap
--   reads a clock that stands still during a call. Store/Query/Run/Healthy and Succeeds are about
--   stores whose rows can all be read. Store/Query/Goroutines is one call of doRun with the
--   goroutines of its children, as steps that interleave; the call blocks in its own send until
--   the call above takes the result.
-- - Store/ReadBack: store/update.go with store/query.go, a commit that is read back.
-- - Search, Search/MemQuery, Search/MemQuery/Running: drivers/memsearch/memsearch.go, with x.Doc of
--   x/x.go. A slice that is filtered in place is its storage with a place to read and one to write.
--   Floats, reflect.DeepEqual, strings.ToLower, regexp and sort.Sort are parameters.
--   Search/Convergence is about many updates.
-- - Leveldb: drivers/leveldb/leveldb.go, over LevelDB's iterators, Has and Write as parameters.
--   Leveldb/Endless runs LoopOnce of indexer/server.go over it, and Leveldb/Prefixes is about keys.
-- - Sqlstore: drivers/sqlstore/sql.go, over the statements of database/sql; Sqlstore/Table is about
--   tables that keep their rows, and Sqlstore/Statements is Init. Mongodb:
--   drivers/mongodb/mongodb.go, over a collection. Cassandra: drivers/cassandra/cassandra.go, over
--   the statements of a session. Rethinkdb: drivers/rethinkdb/rethink.go, over its queries.
--   Datastore: drivers/datastore/datastore.go, over its client.
-- - Search/Registry: the one engine of search/search.go. Elasticsearch:
--   drivers/elasticsearch/elastic.go, with the requests that its client is given, and
--   Init in Elasticsearch/Setup.
-- - Indexer: indexer/indexer.go and indexer/server.go, one routine on what comes through its channel.
--   What OnUpdate, Regenerate and the engine's Update read and change is one state, the world. A
--   search engine is registered.
-- - Social: examples/social/social.go, the indexer of the example.
-- - Prelude: shared names, numbers, lists and maps. Tests: small programs, and examples of the
--   theorems.
--
-- Bounds and fuel: int and int64 values are integers without wrap-around, since the code only
-- compares and copies them, counts a few, and divides by a million in ToMap. Execute gives doExecute
-- as much fuel as there are updates, enough since a child stands after its parent in the arena. Run
-- gives doRun one level for each query and one for each depth asked for, enough since each goroutine
-- either moves down the tree of queries or one level deeper. Following parents takes at most as many
-- steps as there are nodes. LoopOnce has fuel as an argument.
--
-- Not modelled: logging, Print and Debug; how encoding/json writes a map; Init of the other drivers,
-- which connect to their servers; InfiniteLoop, which waits between its rounds; the
-- goroutines of the indexer's Run and of NewServer side by side, with WaitForDone and Finish: the
-- engine in memory tests and writes without a lock; the scenario of the
-- example, the other examples and the slides.
pub mod Prelude
pub mod Outcome
pub mod Exec
pub mod X
pub mod Leveldb
pub mod Sqlstore
pub mod Cassandra
pub mod Elasticsearch
pub mod Rethinkdb
pub mod Datastore
pub mod Social
pub mod Mongodb
pub mod Indexer
pub mod Req
pub mod Store
pub mod Search
pub mod Tests
