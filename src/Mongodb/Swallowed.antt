-- ===== src/Mongodb/Swallowed.antt =====
-- The errors that a commit to MongoDB does not return.
use gocrud.Prelude.{◌≡◌, ap, sym, subst, String, List, [], ◌∷◌, ◌++◌}
use gocrud.Outcome.{value, error, ok}
use gocrud.X.{Instruction}
use gocrud.Mongodb.{Collection, commit}

module _ (C : Collection) where
  -- Every row is inserted, from one state of the collection to another.
  pub data Stored : List Instruction → C.Db → C.Db → Type 0 where
    all_stored : {db : C.Db} → Stored [] db db
    and_stored :
        {it : Instruction} {its : List Instruction} {db mid last : C.Db}
        → C.insert it db ≡ (value tt, mid)
        → Stored its mid last
        → Stored (it ∷ its) db last

  -- Where a row cannot be inserted, the commit returns no error, and none of the rows after it is tried:
  -- the caller takes a part of the batch for all of it.
  pub commit_swallows :
      (before after : List Instruction) (failed : Instruction) (db mid last : C.Db) (e : String)
      → Stored before db mid
      → C.insert failed mid ≡ (error e, last)
      → commit C (before ++ failed ∷ after) db ≡ (ok tt, last)
  unfolding commit
  commit_swallows [] after failed db mid last e all_stored h =
      rw (ap (λ p. p.0) h, commit) (ap (λ p. (ok tt, p.1)) h)
  commit_swallows (it ∷ before) after failed db mid last e (and_stored first rest) h =
      rw (ap (λ p. p.0) first, commit)
        (subst (λ d. commit C (before ++ failed ∷ after) d ≡ (ok tt, last))
          (sym (ap (λ p. p.1) first)) (commit_swallows before after failed _ mid last e rest h))
