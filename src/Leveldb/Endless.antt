-- ===== src/Leveldb/Endless.antt =====
-- `LoopOnce` of the indexing server over a LevelDB store.
use gocrud.Prelude.{
  ℕ, zero, suc, ◌≤◌, ◌<◌, String, ◌<>◌, ◌≡◌, refl, sym, ap, ◌∙◌, ◌⊎◌, inl, inr, Bool, true,
  Bool-cases, Option, none, some, List, [], ◌∷◌, ◌++◌, map, Memᴰ, length, length-append, leb, arith,
  if◌then◌else◌,
}
use mathlib.Core.List.Memᴰ.{cases_cons}
use gocrud.Outcome.{ok, pending}
use gocrud.X.{Entity, Instruction}
use gocrud.X.Codec.{Gob, gob_decode}
use gocrud.Leveldb.{Bytes, LevelDb, Sent, present, walk, iterate}
use gocrud.Indexer.{loop_from, loop_once}

module _ {A : Type 0} where
  abbrev pub above : (A → Bool) → List A → List A
  above p [] = []
  above p (x ∷ xs) = let rest = above p xs in if p x then x ∷ rest else rest

  Memᴰ-above : (p : A → Bool) (x : A) (xs : List A) → p x ≡ true → Memᴰ x xs → Memᴰ x (above p xs)
  Memᴰ-above p x [] h m = elim m [ ]
  Memᴰ-above p x (y ∷ xs) h (Memᴰ.head e) = rw (ap p (sym e) ∙ h) (Memᴰ.head e)
  Memᴰ-above p x (y ∷ xs) h (Memᴰ.tail m) = elim (Bool-cases (p y)) [
    | inl kept ↦ rw kept (Memᴰ.tail (Memᴰ-above p x xs h m))
    | inr out ↦ rw out (Memᴰ-above p x xs h m)
  ]

  of_Memᴰ-above : (p : A → Bool) (x : A) (xs : List A) → Memᴰ x (above p xs) → Memᴰ x xs
  of_Memᴰ-above p x [] m = m
  of_Memᴰ-above p x (y ∷ xs) m = elim (Bool-cases (p y)) [
    | inl kept ↦ elim (cases_cons (rw kept at m)) [
      | inl e ↦ Memᴰ.head e
      | inr t ↦ Memᴰ.tail (of_Memᴰ-above p x xs t)
    ]
    | inr out ↦ Memᴰ.tail (of_Memᴰ-above p x xs (rw out at m))
  ]

-- The documentation of LevelDB: an iterator with a start walks, in the order of the keys, over all rows
-- whose key is not below the start; and a key is not below its prefixes.
pub record IsOrdered (L : LevelDb) : Type 0 where
  pub entries : L.Db → List (String × Bytes)
  pub not_below : String → String → Bool
  pub walks :
      (db : L.Db) (start : String)
      → L.from db start ≡ record {
        values = map (λ e. some e.1) (above (λ e. not_below start e.0) (entries db));
        failure = none;
      }
  pub prefix : (s t : String) → not_below s (s <> t) ≡ true
  pub least : (s : String) → not_below "" s ≡ true

-- A row as `Commit` writes it: an encoded instruction, under a key that its id begins.
pub record IsRow (G : Gob) (e : String × Bytes) : Type 0 where
  pub row : Instruction
  pub rest : Bytes
  pub read : gob_decode G e.1 ≡ ok (row, rest)
  pub suffix : String
  pub key : e.0 ≡ row.subject_id <> suffix

-- Some row's key begins with the id.
abbrev pub Begins : List (String × Bytes) → String → Type 0
Begins es id = (e : String × Bytes) × Memᴰ e es × (t : String) × (e.0 ≡ id <> t)

abbrev pub values : List (String × Bytes) → List (Option Bytes)
values es = map (λ e. some e.1) es

module _ (G : Gob) (L : LevelDb) where
  -- The walk comes to its end, and what it has seen last is the entity of one of the rows.
  abbrev Walked : ℕ → List (String × Bytes) → Sent G L → Type 0
  Walked num es s =
      (t : Sent G L) × (walk G L num (values es) s ≡ (ok tt, t))
      × (length s.entities ≤ length t.entities)
      × ((t.last ≡ s.last) ⊎ Begins es t.last.id)

  abbrev entity_of : Instruction → Entity
  entity_of i = record { kind = i.subject_type; id = i.subject_id }

  -- What follows the first row.
  Walked-rest :
      (x : String × Bytes) (es : List (String × Bytes)) (row : IsRow G x) (t s : Sent G L)
      → (t.last ≡ entity_of row.row) ⊎ Begins es t.last.id
      → Begins (x ∷ es) t.last.id
  Walked-rest x es row t s (inl e) =
      (x, Memᴰ.head refl, row.suffix, row.key ∙ ap (λ l. l.id <> row.suffix) (sym e))
  Walked-rest x es row t s (inr (y, m, u, k)) = (y, Memᴰ.tail m, u, k)

  walk-Walked :
      (num : ℕ) (es : List (String × Bytes)) (s : Sent G L)
      → ((x : String × Bytes) → Memᴰ x es → IsRow G x)
      → Walked num es s
  unfolding walk
  walk-Walked num [] s rows = (s, refl, omega arith, inl refl)
  walk-Walked num (x ∷ es) s rows =
      let row = rows x (Memᴰ.head refl) in
      let e = entity_of row.row in
      let later = λ (y : String × Bytes) (m : Memᴰ y es). rows y (Memᴰ.tail m) in
      rw (row.read, walk)
        (elim (Bool-cases (present G L e s.entities)) [
          | inl seen ↦ rw seen (
              let (t, walked, more, last) = walk-Walked num es (record s { last = e }) later in
              (t, walked, more, inr (Walked-rest x es row t s last)))
          | inr new ↦ rw new (elim (Bool-cases (leb num (suc (length s.entities)))) [
            | inl full ↦ rw full (
              record { entities = s.entities ++ e ∷ []; last = e },
              refl,
              omega (arith, length-append s.entities (e ∷ [])),
              inr (x, Memᴰ.head refl, row.suffix, row.key),
            )
            | inr room ↦ rw room (
                let (t, walked, more, last) =
                  walk-Walked num es (record { entities = s.entities ++ e ∷ []; last = e }) later in
                (
                  t,
                  walked,
                  omega (arith, more, length-append s.entities (e ∷ [])),
                  inr (Walked-rest x es row t s last),
                ))
          ])
        ])

  abbrev nothing : Sent G L
  nothing = record { entities = []; last = record { kind = ""; id = "" } }

  walk-first :
      (num : ℕ) (x : String × Bytes) (es : List (String × Bytes))
      → ((y : String × Bytes) → Memᴰ y (x ∷ es) → IsRow G y)
      → (t : Sent G L) × (walk G L num (values (x ∷ es)) nothing ≡ (ok tt, t))
        × (0 < length t.entities)
        × Begins (x ∷ es) t.last.id
  unfolding walk present
  walk-first num x es rows =
      let row = rows x (Memᴰ.head refl) in
      let e = entity_of row.row in
      rw (row.read, walk)
        (elim (Bool-cases (leb num 1)) [
          | inl full ↦ rw full (
            record { entities = e ∷ []; last = e },
            refl,
            omega arith,
            (x, Memᴰ.head refl, row.suffix, row.key),
          )
          | inr room ↦ rw room (
              let (t, walked, more, last) =
                walk-Walked num es (record { entities = e ∷ []; last = e })
                  (λ y m. rows y (Memᴰ.tail m)) in
              (t, walked, omega (arith, more), Walked-rest x es row t nothing last))
        ])

module _ (G : Gob) (L : LevelDb) (o : IsOrdered L) (db : L.Db) where
  abbrev start_of : String → List (String × Bytes)
  start_of from = above (λ e. o.not_below from e.0) (o.entries db)

  -- A walk from a list with a row in it.
  iterate-walked :
      (from : String) (num : ℕ) (l : List (String × Bytes)) (y : String × Bytes)
      → start_of from ≡ l
      → Memᴰ y l
      → ((x : String × Bytes) → Memᴰ x l → IsRow G x)
      → (n : ℕ) × (sent : List Entity) × (last : Entity) × (iterate G L db from num
          ≡ (sent, ok (suc n, last)))
        × Begins l last.id
  unfolding iterate
  iterate-walked from num [] y at m rows = elim m [ ]
  iterate-walked from num (x ∷ es) y at m rows =
      let (t, walked, some_sent, last) = walk-first G L num x es rows in
      let it : L.from db from ≡ record { values = values (x ∷ es); failure = none } =
        o.walks db from ∙ ap (λ l. record { values = values l; failure = none }) at in
      sent_out {last = t.last} t.entities some_sent last (rw (it, iterate, walked) refl)
    where
      sent_out :
          {last : Entity} (sent : List Entity)
          → 0 < length sent
          → Begins (x ∷ es) last.id
          → iterate G L db from num ≡ (sent, ok (length sent, last))
          → (n : ℕ) × (s : List Entity) × (e : Entity) × (iterate G L db from num
              ≡ (s, ok (suc n, e)))
            × Begins (x ∷ es) e.id
      sent_out [] h b i = elim h [ ]
      sent_out {last} (s ∷ sent) h b i = (length sent, s ∷ sent, last, i, b)

  module _ (rows : (x : String × Bytes) → Memᴰ x (o.entries db) → IsRow G x)
      (first : String × Bytes) (stored : Memᴰ first (o.entries db)) where
    abbrev Starts : String → Type 0
    Starts from = (from ≡ "") ⊎ Begins (o.entries db) from

    above_start : (from : String) → Starts from → (y : String × Bytes) × Memᴰ y (start_of from)
    above_start from (inl e) = (
      first,
      Memᴰ-above (λ e. o.not_below from e.0) first (o.entries db) (rw e (o.least first.0)) stored,
    )
    above_start from (inr (y, m, t, k)) =
        (y, Memᴰ-above (λ e. o.not_below from e.0) y (o.entries db) (rw k (o.prefix from t)) m)

    loop_from-endless :
        (f : ℕ) (from : String) → Starts from → (loop_from (iterate G L db) f from).0 ≡ pending
    unfolding loop_from
    loop_from-endless zero from starts = refl
    loop_from-endless (suc f) from starts =
        let (y, there) = above_start from starts in
        let (n, sent, last, answered, (z, m, t, k)) =
          iterate-walked from 1000 (start_of from) y refl there
            (λ x w. rows x (of_Memᴰ-above (λ e. o.not_below from e.0) x (o.entries db) w)) in
        rw (answered, loop_from)
          (loop_from-endless f last.id
            (inr (z, of_Memᴰ-above (λ e. o.not_below from e.0) z (o.entries db) m, t, k)))

    -- Over a LevelDB store with a row, whose rows all are as `Commit` writes them, `LoopOnce` never returns,
    -- however long it runs: each round starts at the last entity of the round before, and finds it again.
    pub loop_once-endless : (f : ℕ) → (loop_once (iterate G L db) f).0 ≡ pending
    unfolding loop_once
    loop_once-endless f = loop_from-endless f "" (inl refl)
