-- ===== src/Tests/Clients.antt =====
-- A SQL table that is a list, and an ElasticSearch of one document.
use mathlib.Core.List.Perm
use gocrud.Prelude.{
  Option, Bool, true, false, has_none, String, ◌≡◌, refl, ap, subst, ◌==◌, none, some, List, [],
  ◌∷◌, ◌++◌, map, take, Perm, pos, if◌then◌else◌,
}
use gocrud.Outcome.{value, error, ok, err}
use gocrud.X.{Instruction}
use gocrud.Search.{str}
use gocrud.Store.ReadBack.{rows_of}
use gocrud.Sqlstore.{Sql, commit, is_new, get_entity}
use gocrud.Sqlstore.Table.{IsTable, commit_adds}
use gocrud.Elasticsearch.Setup
use gocrud.Elasticsearch.Setup.{Admin}
use gocrud.Elasticsearch
use gocrud.Elasticsearch.{Client, sort_of}
use gocrud.Elasticsearch.Requests.{
  IsOrder, last_field, Call, and_of_all, exact, sorted_by, at_most, built, built_sends,
}
use gocrud.Tests.Search.{small, doc}

abbrev list_sql : Sql
list_sql = record {
  Db = List Instruction;
  insert = λ i db. (value tt, i ∷ db);
  ids = λ db id.
      value
        (record { scans = map (λ i. value i.subject_id) (take 1 (rows_of id db)); failure = none });
  select = λ db id. value (record { scans = map value (rows_of id db); failure = none });
}

added :
    (i : Instruction) (db last : List Instruction) (id : String)
    → i ∷ db ≡ last
    → Perm (rows_of id last) (if i.subject_id == id then i ∷ rows_of id db else rows_of id db)
added i db last id e =
    subst (λ l. Perm (rows_of id l) (rows_of id (i ∷ db))) e (Perm.refl (rows_of id (i ∷ db)))

list_sql-IsTable : IsTable list_sql
list_sql-IsTable = record {
  rows = λ db id. rows_of id db;
  inserted = λ i db last id h. added i db last id (ap (λ p. p.1) h);
  selected = λ db id. (rows_of id db, refl, Perm.refl (rows_of id db));
  limited = λ db id. refl;
}

abbrev post : Instruction
post = record {
  subject_id = "p";
  subject_type = "Post";
  predicate = "body";
  object = 4 ∷ [];
  object_id = "";
  nano_ts = pos 7;
  source = "u";
}

one_inserted : (commit list_sql (post ∷ []) []).0 ≡ ok tt
unfolding commit
one_inserted = refl

commit_adds_example :
    ((read : List Instruction) × (get_entity list_sql (commit list_sql (post ∷ []) []).1 "p"
        ≡ ok read)
      × Perm read (rows_of "p" (post ∷ []) ++ []))
    × (is_new list_sql (commit list_sql (post ∷ []) []).1 "p"
        ≡ has_none (rows_of "p" (post ∷ []) ++ []))
unfolding list_sql-IsTable
commit_adds_example = commit_adds list_sql list_sql-IsTable (post ∷ []) [] "p" one_inserted

-- It finds its document by any filter.
abbrev client : Client small
client = record {
  Index = Unit;
  index = λ d ix. (error "read only", ix);
  search = λ ix r. elim r.query [
    | none ↦ value none
    | some q ↦ value (some (doc "Post" "1" 1 "a" ∷ []))
  ];
  count = λ ix kind q. value (pos 1);
}

abbrev calls : List (Call small)
calls = and_of_all ∷ exact "text" (str "a") ∷ sorted_by "-text" ∷ at_most (pos 5) ∷ []

built_sends_example :
    (order : Option (String × Bool)) × IsOrder small (last_field small "" calls) order
    × (Elasticsearch.run small client tt (built small calls (Elasticsearch.new_query small "Post"))
        ≡ ok (doc "Post" "1" 1 "a" ∷ []))
    × (Elasticsearch.count small client tt
          (built small calls (Elasticsearch.new_query small "Post"))
        ≡ ok (pos 1))
built_sends_example = built_sends small client tt "Post" calls

falling : sort_of small "-text" ≡ some ("text", false)
unfolding sort_of
falling = refl

rising : sort_of small "text" ≡ some ("text", true)
unfolding sort_of
rising = refl

-- A server whose state is whether the index is there.
abbrev index_server : Admin
index_server = record {
  Server = Bool;
  Client = String;
  new_client = λ url. value url;
  version = λ client url s. value "1";
  exists = λ client index s. value s;
  create = λ client index s. (value false, true);
  delete = λ client index s. if s then (value tt, false) else (error "no index", false);
}

starts : Setup.init index_server ("local" ∷ []) false ≡ (ok "local", true)
unfolding Setup.init Setup.connect Setup.ensure_index Setup.create_index
starts = refl

drops : Setup.drop_index index_server "local" false ≡ (err "no index", false)
unfolding Setup.drop_index
drops = refl
