-- ===== src/Sqlstore/Statements.antt =====
-- drivers/sqlstore/sql.go: `Init`, over sql.Open and the connection that it gives as parameters.
use gocrud.Prelude.{
  ℕ, ◌+◌, String, ◌<>◌, ◌≡◌, ◌==◌, refl, sym, subst, Bool, true, false, inl, inr, List, [], ◌∷◌,
  arith, if◌then◌else◌,
}
use text.Mathlib.TextLemmas.{nil-append, cons-append}
use gocrud.Outcome.{Outcome, Fallible, Fallible-cases, value, error, ok, halt}

-- sql.Open as `connect`, and the methods Ping and Prepare of a connection.
pub record Connector : Type 1 where
  pub Conn : Type 0
  pub Stmt : Type 0
  pub connect : String → String → Fallible Conn
  pub ping : Conn → Fallible (Unit {0})
  pub prepare : Conn → String → Fallible Stmt

-- The texts of the statements, for a kind of database and a table.
pub record Texts : Type 0 where
  pub insert : String
  pub is_new : String
  pub select : String

-- The cases of the switch over the kind of database: `postgres`, and the default.
abbrev pub texts_of : Bool → String → Texts
texts_of true tablename = record {
  insert =
      "insert into "
      <> (tablename
          <> " (subject_id, subject_type, predicate,\n\tobject, object_id, nano_ts, source) values ($1, $2, $3, $4, $5, $6, $7)");
  is_new = "select subject_id from " <> (tablename <> " where subject_id = $1 limit 1");
  select =
      "select subject_id, subject_type, predicate,\n\tobject, object_id, nano_ts, source from "
      <> (tablename <> " where subject_id = $1");
}
texts_of false tablename = record {
  insert =
      "insert into "
      <> (tablename
          <> " (subject_id, subject_type, predicate,\n\tobject, object_id, nano_ts, source) values (?, ?, ?, ?, ?, ?, ?)");
  is_new = "select subject_id from " <> (tablename <> " where subject_id = ? limit 1");
  select =
      "select subject_id, subject_type, predicate,\n\tobject, object_id, nano_ts, source from "
      <> (tablename <> " where subject_id = ?");
}

unfoldable pub texts : String → String → Texts
texts dbtype tablename = texts_of (dbtype == "postgres") tablename

module _ (C : Connector) where
  -- What the driver keeps: its connection, and the statements.
  pub record Ready : Type 0 where
    pub db : C.Conn
    pub stmt : C.Stmt
    pub statements : Texts

  -- `log.Fatal` ends the process, and so does the panic of a statement that cannot be prepared.
  unfoldable pub prepared : C.Conn → Texts → Outcome Ready
  prepared db t = elim (C.prepare db t.insert) [
    | value stmt ↦ ok (record { db = db; stmt = stmt; statements = t })
    | error e ↦ halt e
  ]

  unfoldable pub connected : Fallible C.Conn → Texts → Outcome Ready
  connected (error e) t = halt "While opening connection"
  connected (value db) t = elim (C.ping db) [
    | error e ↦ halt "While pinging db"
    | value u ↦ prepared db t
  ]

  unfoldable pub init : List String → Outcome Ready
  unfolding texts
  init (dbtype ∷ source ∷ tablename ∷ []) =
      connected (C.connect dbtype source) (texts dbtype tablename)
  init _ = halt "Invalid arguments"

-- How often a character, given as a text, stands in a text.
abbrev pub marks : String → String → ℕ
marks mark String.[] = 0
marks mark (String.◌∷◌ c s) = (if String.◌∷◌ c String.[] == mark then 1 else 0) + marks mark s

marks-append : (mark s t : String) → marks mark (s <> t) ≡ marks mark s + marks mark t
marks-append mark String.[] t = rw (nil-append t) (omega arith)
marks-append mark (String.◌∷◌ c s) t = rw (cons-append c s t, marks-append mark s t) (omega arith)

marks-within :
    (mark before s after : String)
    → marks mark (before <> (s <> after)) ≡ (marks mark before + marks mark after) + marks mark s
marks-within mark before s after =
    rw (marks-append mark before (s <> after), marks-append mark s after) (omega arith)

-- The placeholders of the three statements, beside those characters that the name of the table has: one
-- for each value that `Commit` gives, and one for the id.
pub record HasPlaceholders (mark tablename : String) (t : Texts) : Type 0 where
  pub insert : marks mark t.insert ≡ 7 + marks mark tablename
  pub is_new : marks mark t.is_new ≡ 1 + marks mark tablename
  pub select : marks mark t.select ≡ 1 + marks mark tablename

-- The mark of a placeholder.
abbrev pub mark_of : Bool → String
mark_of true = "$"
mark_of false = "?"

texts_of-HasPlaceholders :
    (postgres : Bool) (tablename : String)
    → HasPlaceholders (mark_of postgres) tablename (texts_of postgres tablename)
texts_of-HasPlaceholders true tablename = record {
  insert = marks-within "$" _ tablename _;
  is_new = marks-within "$" _ tablename _;
  select = marks-within "$" _ tablename _;
}
texts_of-HasPlaceholders false tablename = record {
  insert = marks-within "?" _ tablename _;
  is_new = marks-within "?" _ tablename _;
  select = marks-within "?" _ tablename _;
}

module _ (C : Connector) where
  -- How a call of `Init` that comes back has begun, and what it leaves.
  pub record Began (args : List String) (r : Ready C) : Type 0 where
    pub dbtype : String
    pub source : String
    pub tablename : String
    pub given : args ≡ dbtype ∷ source ∷ tablename ∷ []
    pub connection : C.connect dbtype source ≡ value r.db
    pub statement : C.prepare r.db r.statements.insert ≡ value r.stmt
    pub placeholders : HasPlaceholders (mark_of (dbtype == "postgres")) tablename r.statements

  prepared-inv :
      (db : C.Conn) (t : Texts) (r : Ready C)
      → prepared C db t ≡ ok r
      → (r.db ≡ db) × (r.statements ≡ t) × (C.prepare db t.insert ≡ value r.stmt)
  unfolding prepared
  prepared-inv db t r h = elim (Fallible-cases (C.prepare db t.insert)) [
    | inl (stmt, e) ↦ let g : ok _ ≡ ok r = rw (prepared, e) at h in (cc, cc, cc)
    | inr (m, e) ↦ let g : halt m ≡ ok r = rw (prepared, e) at h in cc
  ]

  connected-inv :
      (f : Fallible C.Conn) (t : Texts) (r : Ready C)
      → connected C f t ≡ ok r
      → (f ≡ value r.db) × (r.statements ≡ t) × (C.prepare r.db t.insert ≡ value r.stmt)
  unfolding connected
  connected-inv (error e) t r h = cc
  connected-inv (value db) t r h = elim (Fallible-cases (C.ping db)) [
    | inl (u, e) ↦ let (a, b, c) = prepared-inv db t r (rw (connected, e) at h) in (cc, b, cc)
    | inr (m, e) ↦ let g : halt "While pinging db" ≡ ok r = rw (connected, e) at h in cc
  ]

  -- Init of the SQL driver comes back only with three arguments, on the connection that is opened by the
  -- first two, with the insert statement prepared on it; that statement has seven placeholders of
  -- the kind of the database, `$` for postgres and `?` else, and the queries of IsNew and GetEntity
  -- have one, beside such characters in the name of the table.
  pub init-Began : (args : List String) (r : Ready C) → init C args ≡ ok r → Began args r
  unfolding init texts
  init-Began [] r h = cc
  init-Began (a ∷ []) r h = cc
  init-Began (a ∷ b ∷ []) r h = cc
  init-Began (a ∷ b ∷ c ∷ d ∷ args) r h = cc
  init-Began (dbtype ∷ source ∷ tablename ∷ []) r h =
      let (opened, same, done) =
        connected-inv (C.connect dbtype source) (texts dbtype tablename) r h in
      record {
        dbtype = dbtype;
        source = source;
        tablename = tablename;
        given = refl;
        connection = opened;
        statement = subst (λ t. C.prepare r.db t.insert ≡ value r.stmt) (sym same) done;
        placeholders =
            subst (HasPlaceholders (mark_of (dbtype == "postgres")) tablename) (sym same)
              (texts_of-HasPlaceholders (dbtype == "postgres") tablename);
      }
