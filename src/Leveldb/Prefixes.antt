-- ===== src/Leveldb/Prefixes.antt =====
-- What `GetEntity` and `IsNew` read from LevelDB, by the keys of the rows.
use gocrud.Prelude.{
  String, ◌<>◌, starts_with, starts_with_iff, ◌≡◌, refl, sym, ap, ◌∙◌, ◌↔◌, inl, inr, Bool, true,
  false, Bool-cases, Option, none, some, List, [], ◌∷◌, Memᴰ, has_none,
}
use mathlib.Core.List.Memᴰ.{cases_cons, not-nil}
use gocrud.Outcome.{ok}
use gocrud.X.{Instruction}
use gocrud.X.Codec.{Gob, gob_decode}
use gocrud.Leveldb.{Bytes, Iterator, LevelDb, any_key, decode_all, is_new, get_entity}
use gocrud.Leveldb.Endless.{above, IsRow, values}

-- The documentation of LevelDB: an iterator over a prefix walks over all rows whose key begins with it.
pub record IsPrefixed (L : LevelDb) : Type 0 where
  pub entries : L.Db → List (String × Bytes)
  pub walks :
      (db : L.Db) (id : String)
      → L.by_prefix db id
        ≡ record { values = values (above (λ e. starts_with e.0 id) (entries db)); failure = none }

module _ (G : Gob) (L : LevelDb) where
  -- The row of an entry, under a key that begins with the id.
  abbrev pub IsUnder : String → Instruction → String × Bytes → Type 0
  IsUnder id i e =
      ((t : String) × (e.0 ≡ id <> t)) × ((rest : Bytes) × (gob_decode G e.1 ≡ ok (i, rest)))

  -- Decoding the entries whose key passes a test.
  abbrev Decoded : (String × Bytes → Bool) → List (String × Bytes) → List Instruction → Type 0
  Decoded test es its =
      (decode_all G L (values (above test es)) ≡ ok its)
      × ((i : Instruction)
          → Memᴰ i its ↔ (
              (e : String × Bytes) × Memᴰ e es
              × (test e ≡ true)
              × ((rest : Bytes) × (gob_decode G e.1 ≡ ok (i, rest)))))
      × (any_key G L (values (above test es)) true ≡ has_none its)

  any_key-started : (vs : List (Option Bytes)) → any_key G L vs false ≡ false
  unfolding any_key
  any_key-started [] = refl
  any_key-started (v ∷ vs) = any_key-started vs

  decode_all-Decoded :
      (test : String × Bytes → Bool) (es : List (String × Bytes))
      → ((e : String × Bytes) → Memᴰ e es → IsRow G e)
      → (its : List Instruction) × Decoded test es its
  unfolding decode_all any_key
  decode_all-Decoded test [] rows =
      ([], (refl, λ i. (λ m. absurd (not-nil m), λ (e, m, t, d). absurd (not-nil m)), refl))
  decode_all-Decoded test (x ∷ es) rows =
      let (its, (read, same, new)) = decode_all-Decoded test es (λ e m. rows e (Memᴰ.tail m)) in
      let row = rows x (Memᴰ.head refl) in
      elim (Bool-cases (test x)) [
        | inr out ↦ rw out (
          its,
          (
            read,
            λ i. (
              λ m. let (e, at, t, d) = (same i).0 m in (e, Memᴰ.tail at, t, d),
              λ (e, at, t, d). elim (cases_cons at) [
                | inl here ↦ let no : true ≡ false = sym t ∙ ap test here ∙ out in cc
                | inr there ↦ (same i).1 (e, there, t, d)
              ],
            ),
            new,
          ),
        )
        | inl in_ ↦ rw in_ (
          row.row ∷ its,
          (
            rw (row.read, read) refl,
            λ i. (
              λ m. elim (cases_cons m) [
                | inl here ↦ (
                  x,
                  Memᴰ.head refl,
                  in_,
                  (row.rest, row.read ∙ ap (λ j. ok (j, row.rest)) (sym here)),
                )
                | inr there ↦ let (e, at, t, d) = (same i).0 there in (e, Memᴰ.tail at, t, d)
              ],
              λ (e, at, t, (rest, d)). elim (cases_cons at) [
                | inl here ↦
                    let one : i ≡ row.row = cc (d, ap (λ y. gob_decode G y.1) here, row.read) in
                    Memᴰ.head one
                | inr there ↦ Memᴰ.tail ((same i).1 (e, there, t, (rest, d)))
              ],
            ),
            any_key-started (values (above test es)),
          ),
        )
      ]

  -- Over a LevelDB store whose rows all are as `Commit` writes them, GetEntity reads without an error exactly the
  -- rows whose key begins with the id, which are those of the id and also those of every longer id that
  -- begins with it; and IsNew tells whether there are none.
  pub get_entity-begins :
      (o : IsPrefixed L) (db : L.Db) (id : String)
      → ((e : String × Bytes) → Memᴰ e (o.entries db) → IsRow G e)
      → (its : List Instruction) × (get_entity G L db id ≡ ok its)
        × ((i : Instruction)
            → Memᴰ i its ↔ ((e : String × Bytes) × Memᴰ e (o.entries db) × IsUnder id i e))
        × (is_new G L db id ≡ has_none its)
  unfolding get_entity is_new
  get_entity-begins o db id rows =
      let (its, (read, same, new)) =
        decode_all-Decoded (λ e. starts_with e.0 id) (o.entries db) rows in
      (
        its,
        rw (o.walks db id, get_entity, read) refl,
        λ i. (
          λ m.
              let (e, at, t, d) = (same i).0 m in
              let (u, longer) = (starts_with_iff e.0 id).0 t in (e, at, ((u, sym longer), d)),
          λ (e, at, ((u, longer), d)).
              (same i).1 (e, at, (starts_with_iff e.0 id).1 (u, sym longer), d),
        ),
        ap (λ it. any_new it) (o.walks db id) ∙ new,
      )
    where
      any_new : Iterator → Bool
      any_new it = elim it.failure [ none ↦ any_key G L it.values true | some e ↦ false ]
