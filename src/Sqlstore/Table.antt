-- ===== src/Sqlstore/Table.antt =====
-- What a commit to SQL promises to its caller, as the multiset of the rows of each id.
use mathlib.Core.List.Perm
use gocrud.Prelude.{
  has_none, ◌≡◌, refl, sym, ap, ◌∙◌, inl, inr, String, ◌==◌, true, Bool-cases, none, List, [], ◌∷◌,
  ◌++◌, map, take, Perm, if◌then◌else◌,
}
use mathlib.Core.List.{perm_middle}
use gocrud.Outcome.{value, ok}
use gocrud.X.{Instruction}
use gocrud.Store.ReadBack.{rows_of}
use gocrud.Sqlstore.{Sql, commit, is_new, get_entity, scan_rows, scan_ids, answer, ended}
use gocrud.Sqlstore.Inserts.{Inserted, none_left, next, commit_cases}

-- A table that works: an insert that returns no error adds its row, and the queries scan what stands there,
-- in an order of the database.
pub record IsTable (L : Sql) : Type 0 where
  pub rows : L.Db → String → List Instruction
  pub inserted :
      (i : Instruction) (db last : L.Db) (id : String)
      → L.insert i db ≡ (value tt, last)
      → Perm (rows last id) (if i.subject_id == id then i ∷ rows db id else rows db id)
  pub selected :
      (db : L.Db) (id : String)
      → (l : List Instruction) × (L.select db id
          ≡ value (record { scans = map value l; failure = none }))
        × Perm l (rows db id)
  pub limited :
      (db : L.Db) (id : String)
      → L.ids db id
        ≡ value
            (record { scans = map (λ i. value i.subject_id) (take 1 (rows db id)); failure = none })

has_none-Perm : (l m : List Instruction) → Perm l m → has_none l ≡ has_none m
has_none-Perm [] m p = ap has_none (Perm.nil-eq p)
has_none-Perm (i ∷ l) [] p = sym (ap has_none (Perm.nil-eq (Perm.symm p)))
has_none-Perm (i ∷ l) (j ∷ m) p = refl

module _ (L : Sql) (t : IsTable L) where
  rows-Inserted :
      (id : String) {its : List Instruction} {db last : L.Db}
      → Inserted L its db last
      → Perm (t.rows last id) (rows_of id its ++ t.rows db id)
  rows-Inserted id (none_left {db}) = Perm.refl (t.rows db id)
  rows-Inserted id (next {it} {its} {db} {mid} {last} i rest) =
      let later = rows-Inserted id rest in
      let first = t.inserted it db mid id i in
      elim (Bool-cases (it.subject_id == id)) [
        | inl same ↦ rw same (
            Perm.trans later (
              Perm.trans (Perm.append_left (rows_of id its) (rw same at first))
                (perm_middle (rows_of id its) (t.rows db id))))
        | inr other ↦
            rw other (Perm.trans later (Perm.append_left (rows_of id its) (rw other at first)))
      ]

  scan_rows-map : (l : List Instruction) → scan_rows L (map value l) ≡ ok l
  unfolding scan_rows
  scan_rows-map [] = refl
  scan_rows-map (i ∷ l) = rw (scan_rows-map l) refl

  get_entity-table :
      (db : L.Db) (id : String)
      → (l : List Instruction) × (get_entity L db id ≡ ok l) × Perm l (t.rows db id)
  unfolding get_entity ended
  get_entity-table db id =
      let (l, read, same) = t.selected db id in
      (l, rw (read, get_entity, scan_rows-map l) refl, same)

  is_new-first :
      (l : List Instruction)
      → answer L (scan_ids L (map (λ i. value i.subject_id) (take 1 l)) true) none ≡ has_none l
  unfolding scan_ids answer
  is_new-first [] = refl
  is_new-first (i ∷ l) = refl

  is_new-table : (db : L.Db) (id : String) → is_new L db id ≡ has_none (t.rows db id)
  unfolding is_new
  is_new-table db id = rw (t.limited db id, is_new) (is_new-first (t.rows db id))

  -- After a commit that returns no error to a table that works, GetEntity reads for each id the rows of the
  -- batch with that id and the rows that it had before, in some order, and IsNew tells whether there are
  -- none.
  pub commit_adds :
      (its : List Instruction) (db : L.Db) (id : String)
      → (commit L its db).0 ≡ ok tt
      → ((read : List Instruction) × (get_entity L (commit L its db).1 id ≡ ok read)
          × Perm read (rows_of id its ++ t.rows db id))
        × (is_new L (commit L its db).1 id ≡ has_none (rows_of id its ++ t.rows db id))
  commit_adds its db id h = elim (commit_cases L its db) [
    | inr (e, failed, cut) ↦ cc
    | inl (fine, all) ↦
        let same = rows-Inserted id all in
        let (read, got, order) = get_entity-table (commit L its db).1 id in
        (
          (read, got, Perm.trans order same),
          is_new-table (commit L its db).1 id ∙ has_none-Perm _ _ same,
        )
  ]
