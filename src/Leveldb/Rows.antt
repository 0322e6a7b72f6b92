-- ===== src/Leveldb/Rows.antt =====
-- What the LevelDB driver reads of what it writes.
use gocrud.Prelude.{
  String, ◌≡◌, refl, sym, ap, ◌∙◌, true, false, Option, some, List, [], ◌∷◌, ◌++◌, map, append-nil,
  Option-cases, inl, inr,
}
use gocrud.Outcome.{ok, >>=-eq-ok}
use gocrud.X.{Instruction}
use gocrud.X.Codec.{Gob, IsLawfulGob, gob_encode, gob_decode, gob_decode-gob_encode}
use gocrud.Leveldb.{Bytes, LevelDb, any_key, is_new, decode_all, get_entity, batch}

module _ (G : Gob) (L : LevelDb) where
  -- If gob reads back what it has written, the rows of a batch stand under the keys that were drawn, the
  -- first one under the first key and so on, and, read in the order in which they were put, are the
  -- instructions of the batch: no field and no instruction is lost or changed.
  pub decode_all-batch :
      (its : List Instruction) (keys : List String) (rows : List (String × Bytes))
      → IsLawfulGob G
      → batch G L its keys ≡ ok rows
      → ((spare : List String) × (keys ≡ map (λ row. row.0) rows ++ spare))
        × (decode_all G L (map (λ row. some row.1) rows) ≡ ok its)
  unfolding batch decode_all
  decode_all-batch [] keys rows lawful h = let e : [] ≡ rows = cc in rw (← e) ((keys, refl), refl)
  decode_all-batch (it ∷ its) [] rows lawful h = cc
  decode_all-batch (it ∷ its) (key ∷ keys) rows lawful h =
      let (buf, encoded, h₁) = >>=-eq-ok (gob_encode G it) _ h in
      let (rest, put, h₂) = >>=-eq-ok (batch G L its keys) _ h₁ in
      let e : (key, buf) ∷ rest ≡ rows = cc in
      let back : gob_decode G buf ≡ ok (it, []) =
        ap (gob_decode G) (sym (append-nil buf))
        ∙ gob_decode-gob_encode G it buf [] lawful encoded in
      let ((spare, under), read) = decode_all-batch its keys rest lawful put in
      rw (← e, back, read) ((spare, ap (λ l. key ∷ l) under), refl)

  any_key-false : (vs : List (Option Bytes)) → any_key G L vs false ≡ false
  unfolding any_key
  any_key-false [] = refl
  any_key-false (v ∷ vs) = any_key-false vs

  any_key-true : (vs : List (Option Bytes)) → any_key G L vs true ≡ true → vs ≡ []
  unfolding any_key
  any_key-true [] h = refl
  any_key-true (v ∷ vs) h = let none_new = any_key-false vs in cc

  -- An id that the driver calls new has no rows: its entity is read without an error, and empty.
  pub get_entity-is_new :
      (db : L.Db) (id : String) → is_new G L db id ≡ true → get_entity G L db id ≡ ok []
  unfolding is_new get_entity decode_all
  get_entity-is_new db id h = elim (Option-cases (L.by_prefix db id).failure) [
    | inl fine ↦
        let empty = any_key-true (L.by_prefix db id).values (rw (fine, is_new) at h) in
        rw (empty, fine, get_entity) refl
    | inr (e, failed) ↦ let p : false ≡ true = rw (failed, is_new) at h in cc
  ]
