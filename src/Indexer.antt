-- ===== src/Indexer.antt =====
-- indexer/indexer.go and indexer/server.go: the registry of indexers, the routine that processes the
-- updates of a context, and the server that goes over the whole store.
pub mod Indexing
use gocrud.Prelude.{
  ℕ, zero, suc, String, ◌≡◌, Bool, true, false, Option, none, some, List, [], ◌∷◌, ◌++◌, length,
  if◌then◌else◌,
}
use gocrud.Prelude.Dict
use gocrud.Prelude.Dict.{Dict}
use gocrud.Outcome.{Outcome, Fallible, value, error, ok, err, halt, pending}
use gocrud.Exec.{Exec, pure, ◌>>=◌}
use gocrud.X.{Entity}

-- `W` is what the calls read and change beside their arguments: the store, the clock and the index of the
-- search engine. `Engine` is a search engine over the documents, by its method `Update`.
pub record Engine (W Doc : Type 0) : Type 0 where
  pub update : Doc → Exec W (Unit {0})

module _ (W Doc : Type 0) where
  -- A call may read the world, change it, and end the process.
  pub record Indexer : Type 0 where
    pub on_update : Entity → Exec W (List Entity)
    pub regenerate : Entity → Exec W Doc

  abbrev pub Indexers : Type 0
  Indexers = Dict Indexer

  -- `none` is a nil driver.
  unfoldable pub register : String → Option Indexer → Indexers → Outcome (Unit {0}) × Indexers
  register kind none idxs = (halt "nil indexer", idxs)
  register kind (some driver) idxs = elim (Dict.lookup kind idxs) [
    | some dup ↦ (halt "Another driver is already handling the same entity kind", idxs)
    | none ↦ (ok tt, Dict.insert kind driver idxs)
  ]

  unfoldable pub get : String → Indexers → Option Indexer
  get kind idxs = Dict.lookup kind idxs

  keys : Indexers → List String
  keys [] = []
  keys ((kind, i) ∷ idxs) = kind ∷ keys idxs

  -- `sort` is sort.Strings.
  unfoldable pub kinds : (List String → List String) → Indexers → List String
  unfolding keys
  kinds sort idxs = sort (keys idxs)

  unfoldable pub num : Indexers → ℕ
  num idxs = length idxs

  module _ (idxs : Indexers) (E : Engine W Doc) where
    -- An error of the engine is logged, and the loop goes on; a panic ends the process.
    unfoldable pub logged : Exec W (Unit {0}) → Outcome (Unit {0}) × W → Outcome (Unit {0}) × W
    logged next (ok u, w) = next w
    logged next (err e, w) = next w
    logged next (halt e, w) = (halt e, w)
    logged next (pending, w) = (pending, w)

    -- A document is made and given to the engine.
    unfoldable pub index_one : Indexer → Entity → Exec W (Unit {0}) → Exec W (Unit {0})
    unfolding logged
    index_one didxr de next = didxr.regenerate de >>= λ doc. (λ w. logged next (E.update doc w))

    -- The loop over the entities to regenerate, then `next`.
    unfoldable pub regenerate_all : List Entity → Exec W (Unit {0}) → Exec W (Unit {0})
    unfolding get index_one
    regenerate_all [] next = next
    regenerate_all (de ∷ dirty) next =
        let rest = regenerate_all dirty next in
        elim (get de.kind idxs) [ none ↦ rest | some didxr ↦ index_one didxr de rest ]

    -- `processUpdates`, on what comes through the channel until it is closed.
    unfoldable pub process_updates : List Entity → Exec W (Unit {0})
    unfolding regenerate_all get
    process_updates [] = pure tt
    process_updates (entity ∷ es) =
        let rest = process_updates es in
        elim (get entity.kind idxs) [
          | none ↦ rest
          | some idxr ↦ idxr.on_update entity >>= λ dirty. regenerate_all dirty rest
        ]

    -- `regenerateAndIndex` of the server, on what comes through its channel.
    unfoldable pub regenerate_and_index : List Entity → Exec W (Unit {0})
    unfolding regenerate_all
    regenerate_and_index es = regenerate_all es (pure tt)

-- `LoopOnce`, over `Iterate` of the store: the entities that are sent to the channel. Each round asks for
-- 1000 entities from the last one on.
module _ (iterate : String → ℕ → List Entity × Outcome (ℕ × Entity)) where
  unfoldable pub loop_from : ℕ → String → Outcome (Unit {0}) × List Entity
  loop_from zero from = (pending, [])
  loop_from (suc f) from =
      let (sent, answer) = iterate from 1000 in
      elim answer [
        | ok (found, last) ↦ elim found [
          | zero ↦ (ok tt, sent)
          | suc n ↦ let (o, rest) = loop_from f last.id in (o, sent ++ rest)
        ]
        | err e ↦ (ok tt, sent)
        | halt e ↦ (halt e, sent)
        | pending ↦ (pending, sent)
      ]

  unfoldable pub loop_once : ℕ → Outcome (Unit {0}) × List Entity
  unfolding loop_from
  loop_once f = loop_from f ""
