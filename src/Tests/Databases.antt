-- ===== src/Tests/Databases.antt =====
-- A table that refuses rows without a subject.
use gocrud.Prelude.{◌≡◌, refl, ◌⊎◌, String, List, [], ◌∷◌, ◌++◌, pos}
use gocrud.Outcome.{Fallible, value, error, ok, err}
use gocrud.X.{Instruction}
use gocrud.Sqlstore.Statements.{
  Connector, Ready, Began, texts, prepared, connected, init, init-Began,
}
use gocrud.Sqlstore.{Sql, commit as sql_commit}
use gocrud.Sqlstore.Inserts.{Inserted, IsCutOff, commit_cases}
use gocrud.Mongodb.{Collection, commit}
use gocrud.Mongodb.Swallowed.{all_stored, and_stored, commit_swallows}

abbrev of_subject : String → Instruction
of_subject id = record {
  subject_id = id;
  subject_type = "User";
  predicate = "name";
  object = [];
  object_id = "";
  nano_ts = pos 1;
  source = "me";
}

abbrev insert : Instruction → List Instruction → Fallible (Unit {0}) × List Instruction
insert it db = elim it.subject_id [
  | String.[] ↦ (error "no subject", db)
  | String.◌∷◌ c s ↦ (value tt, db ++ it ∷ [])
]

abbrev table : Sql
table = record {
  Db = List Instruction;
  insert = insert;
  ids = λ db id. error "down";
  select = λ db id. error "down";
}

abbrev collection : Collection
collection = record {
  Db = List Instruction;
  insert = insert;
  count_subject = λ db id. error "down";
  find_subject = λ db id. error "down";
}

abbrev rows : List Instruction
rows = of_subject "a" ∷ of_subject "" ∷ of_subject "b" ∷ []

commit_cases_example :
    (((sql_commit table rows []).0 ≡ ok tt) × Inserted table rows [] (sql_commit table rows []).1)
    ⊎ ((e : String) × ((sql_commit table rows []).0 ≡ err e)
        × IsCutOff table rows [] (sql_commit table rows []).1 e)
commit_cases_example = commit_cases table rows []

commit_swallows_example : commit collection rows [] ≡ (ok tt, of_subject "a" ∷ [])
commit_swallows_example =
    commit_swallows collection (of_subject "a" ∷ []) (of_subject "b" ∷ []) (of_subject "") []
      (of_subject "a" ∷ []) (of_subject "a" ∷ []) "no subject" (and_stored refl all_stored) refl

-- A database whose statements are their texts.
abbrev plain_sql : Connector
plain_sql = record {
  Conn = String;
  Stmt = String;
  connect = λ dbtype source. value source;
  ping = λ db. value tt;
  prepare = λ db text. value text;
}

abbrev sql_args : List String
sql_args = "postgres" ∷ "local" ∷ "rows" ∷ []

abbrev sql_ready : Ready plain_sql
sql_ready = record {
  db = "local";
  stmt = (texts "postgres" "rows").insert;
  statements = texts "postgres" "rows";
}

sql_starts : init plain_sql sql_args ≡ ok sql_ready
unfolding init connected prepared texts
sql_starts = refl

init-Began_example : Began plain_sql sql_args sql_ready
init-Began_example = init-Began plain_sql sql_args sql_ready sql_starts
