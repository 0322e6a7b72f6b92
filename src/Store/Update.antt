-- ===== src/Store/Update.antt =====
-- store/update.go: the tree of changes that a caller builds, and the rows that it is turned into.
-- A `*Update` is an index in the arena of all updates.
pub mod Execute
pub mod WellFormed
use gocrud.Prelude.{
  ℕ, zero, suc, String, Option, none, some, List, [], ◌∷◌, ◌++◌, length, get_elem?, ℤ,
}
use gocrud.Prelude.Dict
use gocrud.Prelude.Dict.{Dict}
use gocrud.Outcome.{Fallible, ok, halt}
use gocrud.Exec.{Exec}
use gocrud.Store.Arena.{modify}

-- Values of properties, of Go's type `interface{}`, and encoding/json on them.
pub record Json : Type 1 where
  pub Value : Type 0
  pub nil_value : Value
  pub true_value : Value
  pub marshal : Value → Fallible (List ℕ)
  pub unmarshal : List ℕ → Fallible Value

module _ (J : Json) where
  pub record Update : Type 0 where
    pub kind : String
    pub id : String
    pub source : String
    pub children : List ℕ
    pub parent : Option ℕ
    pub edges : Dict J.Value
    pub nano_ts : ℤ

  abbrev pub Updates : Type 0
  Updates = List Update

  -- `now` is the clock's reading. The new node is its own root, at the end of the arena.
  unfoldable pub new_update : String → String → ℤ → Updates → Updates × ℕ
  new_update kind id now us = (
    us
        ++ record {
          kind = kind;
          id = id;
          source = "";
          children = [];
          parent = none;
          edges = [];
          nano_ts = now;
        }
          ∷ [],
    length us,
  )

  unfoldable pub set_source : String → ℕ → Updates → Updates
  set_source source = modify (λ u. record u { source = source })

  unfoldable pub child_of : String → ℕ → Update → Update
  child_of kind n u = record {
    kind = kind;
    id = "";
    source = u.source;
    children = [];
    parent = some n;
    edges = [];
    nano_ts = u.nano_ts;
  }

  -- Through a nil pointer the call panics.
  unfoldable pub add_child : String → ℕ → Exec Updates ℕ
  unfolding child_of
  add_child kind n us = elim (get_elem? us n) [
    | none ↦ (halt "nil pointer dereference", us)
    | some u ↦ (
      ok (length us),
      modify (λ v. record v { children = v.children ++ length us ∷ [] }) n us
          ++ child_of kind n u ∷ [],
    )
  ]

  unfoldable pub set : String → J.Value → ℕ → Updates → Updates
  set property value = modify (λ u. record u { edges = Dict.insert property value u.edges })

  unfoldable pub mark_deleted : ℕ → Updates → Updates
  unfolding set
  mark_deleted = set "_delete_" J.true_value

  stamp_all : (ℕ → Updates → Updates) → List ℕ → Updates → Updates
  stamp_all stamp [] us = us
  stamp_all stamp (c ∷ cs) us = stamp_all stamp cs (stamp c us)

  -- setCommitTs, with fuel for the depth of the tree.
  unfoldable pub stamp : ℕ → ℤ → ℕ → Updates → Updates
  unfolding stamp_all
  stamp zero ts n us = us
  stamp (suc f) ts n us = elim (get_elem? us n) [
    | none ↦ us
    | some u ↦ stamp_all (stamp f ts) u.children (modify (λ v. record v { nano_ts = ts }) n us)
  ]

  -- On a child node the call is ignored.
  unfoldable pub set_commit_ts : ℤ → ℕ → Updates → Updates
  unfolding stamp
  set_commit_ts ts n us = elim (get_elem? us n) [
    | none ↦ us
    | some u ↦ elim u.parent [ none ↦ stamp (length us) ts n us | some p ↦ us ]
  ]

  unfoldable pub id_of : ℕ → Updates → Option String
  id_of n us = elim (get_elem? us n) [ none ↦ none | some u ↦ some u.id ]
