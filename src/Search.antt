-- ===== src/Search.antt =====
-- search/search.go and drivers/memsearch/memsearch.go: documents and the search engine in memory.
pub mod MemQuery
pub mod Versioning
pub mod Convergence
pub mod Registry
use gocrud.Prelude.{
  ℕ, String, ◌<>◌, ◌==◌, Bool, Option, none, some, List, [], ◌∷◌, ℤ, leb_ℤ, if◌then◌else◌,
}
use gocrud.Prelude.Dict
use gocrud.Prelude.Dict.{Dict}
use gocrud.Outcome.{Outcome, ok, err}

-- The dynamic types that the code tells apart in an `interface{}`.
pub data Dyn (Float Other : Type 0) : Type 0 where
  str : String → Dyn Float Other
  int64 : ℤ → Dyn Float Other
  int32 : ℤ → Dyn Float Other
  int : ℤ → Dyn Float Other
  float64 : Float → Dyn Float Other
  other : Other → Dyn Float Other

-- What the engine takes from Go's libraries: floats, values of other types, reflect.DeepEqual,
-- strings.ToLower, and regexp (`none` where MustCompile panics).
pub record Go : Type 1 where
  pub Float : Type 0
  pub float_lt : Float → Float → Bool
  pub Other : Type 0
  pub nil_value : Other
  pub same_other_type : Other → Other → Bool
  pub deep_equal : Dyn Float Other → Dyn Float Other → Bool
  pub to_lower : String → String
  pub Regexp : Type 0
  pub compile : String → Option Regexp
  pub match_string : Regexp → String → Bool

module _ (G : Go) where
  abbrev pub Value : Type 0
  Value = Dyn G.Float G.Other

  -- `Data` is an `interface{}`: a map of fields, or anything else.
  pub data DocData : Type 0 where
    fields : Dict Value → DocData
    opaque : DocData

  -- x.Doc
  pub record Doc : Type 0 where
    pub kind : String
    pub id : String
    pub nano_ts : ℤ
    pub body : DocData

  abbrev pub MemSearch : Type 0
  MemSearch = Dict Doc

  unfoldable pub init : MemSearch
  init = []

  unfoldable pub key : Doc → String
  key doc = doc.kind <> (":" <> doc.id)

  -- A version conflict leaves the index as it is.
  unfoldable pub update : Doc → MemSearch → Outcome (Unit {0}) × MemSearch
  unfolding key
  update doc docs = elim (Dict.lookup (key doc) docs) [
    | none ↦ (ok tt, Dict.insert (key doc) doc docs)
    | some pdoc ↦
        if leb_ℤ doc.nano_ts pdoc.nano_ts
        then (err "version conflict", docs)
        else (ok tt, Dict.insert (key doc) doc docs)
  ]

  unfoldable pub all : MemSearch → List Doc
  all [] = []
  all ((k, doc) ∷ docs) = doc ∷ all docs

  unfoldable pub of_kind : String → List Doc → List Doc
  of_kind kind [] = []
  of_kind kind (doc ∷ docs) =
      let rest = of_kind kind docs in if doc.kind == kind then doc ∷ rest else rest
