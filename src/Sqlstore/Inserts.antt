-- ===== src/Sqlstore/Inserts.antt =====
-- What a commit to SQL has written, and what a new id means.
use gocrud.Prelude.{◌≡◌, refl, ap, ◌⊎◌, inl, inr, String, List, [], ◌∷◌, ◌++◌}
use gocrud.Outcome.{value, error, ok, err, Fallible-cases}
use gocrud.X.{Instruction}
use gocrud.Sqlstore.{Sql, commit}

module _ (L : Sql) where
  -- Every row is inserted, from one state of the database to another.
  pub data Inserted : List Instruction → L.Db → L.Db → Type 0 where
    none_left : {db : L.Db} → Inserted [] db db
    next :
        {it : Instruction} {its : List Instruction} {db mid last : L.Db}
        → L.insert it db ≡ (value tt, mid)
        → Inserted its mid last
        → Inserted (it ∷ its) db last

  -- The rows before the one that fails are inserted, and that one is the last that was tried.
  pub record IsCutOff (its : List Instruction) (db last : L.Db) (e : String) : Type 0 where
    pub before : List Instruction
    pub failed : Instruction
    pub after : List Instruction
    pub mid : L.Db
    pub rows : its ≡ before ++ failed ∷ after
    pub inserted : Inserted before db mid
    pub at : L.insert failed mid ≡ (error e, last)

  -- A commit has inserted every row and returns no error, or it returns the error of the first row that
  -- could not be inserted, and the rows before that one stay inserted: a commit is not atomic.
  pub commit_cases :
      (its : List Instruction) (db : L.Db)
      → (((commit L its db).0 ≡ ok tt) × Inserted its db (commit L its db).1)
        ⊎ ((e : String) × ((commit L its db).0 ≡ err e) × IsCutOff its db (commit L its db).1 e)
  unfolding commit
  commit_cases [] db = inl (refl, none_left)
  commit_cases (it ∷ its) db = elim (Fallible-cases (L.insert it db).0) [
    | inr (e, h) ↦
        rw (h, commit)
          (inr (
            e,
            refl,
            record {
              before = [];
              failed = it;
              after = its;
              mid = db;
              rows = refl;
              inserted = none_left;
              at = ap (λ o. (o, (L.insert it db).1)) h;
            },
          ))
    | inl (u, h) ↦
        rw (h, commit)
          (elim (commit_cases its (L.insert it db).1) [
            | inl (fine, all) ↦ inl (fine, next (ap (λ o. (o, (L.insert it db).1)) h) all)
            | inr (e, failed, cut) ↦ inr (
              e,
              failed,
              record {
                before = it ∷ cut.before;
                failed = cut.failed;
                after = cut.after;
                mid = cut.mid;
                rows = ap (λ l. it ∷ l) cut.rows;
                inserted = next (ap (λ o. (o, (L.insert it db).1)) h) cut.inserted;
                at = cut.at;
              },
            )
          ])
  ]
