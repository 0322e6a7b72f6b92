-- ===== src/Indexer/Indexing.antt =====
-- What reaches the search engine, and in which order.
use gocrud.Prelude.{
  String, ◌≡◌, refl, ◌∙◌, Bool, true, false, Option, none, some, List, [], ◌∷◌, ◌++◌, Option-cases,
  inl, inr, ◌⊎◌, if◌then◌else◌, ◌==◌,
}
use gocrud.Prelude.Dict
use gocrud.Prelude.Dict.{Dict, lookup-insert}
use gocrud.Outcome.{Outcome, ok, err, halt, pending}
use gocrud.Exec.{Exec, pure, bind-eq}
use gocrud.X.{Entity}
use gocrud.Indexer.{
  Engine, Indexer, Indexers, register, get, logged, index_one, regenerate_all, regenerate_and_index,
}

-- A call of the engine comes back, with or without an error.
abbrev pub comes_back : Outcome (Unit {0}) → Bool
comes_back (ok u) = true
comes_back (err e) = true
comes_back (halt e) = false
comes_back pending = false

module _ (W Doc : Type 0) (idxs : Indexers W Doc) (E : Engine W Doc) (named : Entity → List Entity)
    (document : Entity → Doc) where
  -- The indexers answer by the entity alone and change nothing: `named` and `document` are what they return.
  -- The engine comes back from every document.
  pub record IsSteady : Type 0 where
    pub names :
        (kind : String) (i : Indexer W Doc)
        → get W Doc kind idxs ≡ some i
        → (e : Entity) (w : W) → i.on_update e w ≡ (ok (named e), w)
    pub documents :
        (kind : String) (i : Indexer W Doc)
        → get W Doc kind idxs ≡ some i
        → (e : Entity) (w : W) → i.regenerate e w ≡ (ok (document e), w)
    pub back : (d : Doc) (w : W) → comes_back (E.update d w).0 ≡ true

  abbrev is_there : Option (Indexer W Doc) → Bool
  is_there none = false
  is_there (some i) = true

  -- The documents of the entities whose kind has an indexer.
  abbrev pub documents_of : List Entity → List Doc
  documents_of [] = []
  documents_of (e ∷ es) =
      if is_there (Dict.lookup e.kind idxs) then document e ∷ documents_of es else documents_of es

  -- The entities that the indexers of the updated ones name.
  abbrev pub dirty : List Entity → List Entity
  dirty [] = []
  dirty (e ∷ es) = if is_there (Dict.lookup e.kind idxs) then named e ++ dirty es else dirty es

  -- The world after the engine has been given some documents, one after the other.
  abbrev pub updated : List Doc → W → W
  updated [] w = w
  updated (d ∷ ds) w = updated ds (E.update d w).1

  module _ (steady : IsSteady) where
    logged-back :
        (next : Exec W (Unit {0})) (p : Outcome (Unit {0}) × W)
        → comes_back p.0 ≡ true
        → logged W Doc idxs E next p ≡ next p.1
    unfolding logged
    logged-back next (ok u, w) h = refl
    logged-back next (err e, w) h = refl
    logged-back next (halt e, w) h = cc
    logged-back next (pending, w) h = cc

    index_one-updated :
        (i : Indexer W Doc) (e : Entity) (next : Exec W (Unit {0})) (w : W)
        → get W Doc e.kind idxs ≡ some i
        → index_one W Doc idxs E i e next w ≡ next (E.update (document e) w).1
    unfolding index_one
    index_one-updated i e next w found =
        bind-eq (i.regenerate e) _ w (steady.documents e.kind i found e w)
        ∙ logged-back next (E.update (document e) w) (steady.back (document e) w)

    regenerate_all-updated :
        (es : List Entity) (next : Exec W (Unit {0})) (w : W)
        → regenerate_all W Doc idxs E es next w ≡ next (updated (documents_of es) w)
    unfolding regenerate_all get
    regenerate_all-updated [] next w = refl
    regenerate_all-updated (e ∷ es) next w = elim (Option-cases (Dict.lookup e.kind idxs)) [
      | inl absent ↦ rw (absent, regenerate_all) (regenerate_all-updated es next w)
      | inr (i, found) ↦
          rw (found, regenerate_all)
            (index_one-updated i e (regenerate_all W Doc idxs E es next) w found
              ∙ regenerate_all-updated es next (E.update (document e) w).1)
    ]

    -- The server gives the engine exactly the documents of the entities that come through its channel and
    -- whose kind has an indexer, in their order, whatever errors the engine returns between.
    pub regenerate_and_index-documents :
        (es : List Entity) (w : W)
        → regenerate_and_index W Doc idxs E es w ≡ (ok tt, updated (documents_of es) w)
    unfolding regenerate_and_index
    regenerate_and_index-documents es w = regenerate_all-updated es (pure tt) w

module _ (W Doc : Type 0) where
  pub record IsRegistered (kind : String) (driver : Indexer W Doc) (idxs idxs' : Indexers W Doc)
      (o : Outcome (Unit {0})) : Type 0 where
    pub answer : o ≡ ok tt
    pub free : get W Doc kind idxs ≡ none
    pub at :
        (k : String) → get W Doc k idxs' ≡ (if kind == k then some driver else get W Doc k idxs)

  pub record IsRefused (kind : String) (idxs idxs' : Indexers W Doc) (o : Outcome (Unit {0}))
      : Type 0 where
    pub reason : String
    pub answer : o ≡ halt reason
    pub same : idxs' ≡ idxs

  -- A driver is registered for a kind that has none, and leaves the drivers of other kinds; a nil driver,
  -- or one for a kind that has a driver, ends the process with the registry as it was.
  pub register_cases :
      (kind : String) (d : Option (Indexer W Doc)) (idxs : Indexers W Doc)
      → ((driver : Indexer W Doc) × (d ≡ some driver)
          × IsRegistered kind driver idxs
              (register W Doc kind d idxs).1
              (register W Doc kind d idxs).0)
        ⊎ IsRefused kind idxs (register W Doc kind d idxs).1 (register W Doc kind d idxs).0
  unfolding register get
  register_cases kind none idxs = inr (record { reason = _; answer = refl; same = refl })
  register_cases kind (some driver) idxs = elim (Option-cases (Dict.lookup kind idxs)) [
    | inl free ↦
        rw (free, register)
          (inl (
            driver,
            refl,
            record { answer = refl; free = free; at = λ k. lookup-insert kind k driver idxs },
          ))
    | inr (dup, taken) ↦
        rw (taken, register) (inr (record { reason = _; answer = refl; same = refl }))
  ]
