-- ===== src/Store/Query/ToMap.antt =====
-- store/query.go: `ToMap`, the map from which the JSON of a result is made.
pub mod Latest
pub mod Newest
use gocrud.Prelude.{
  ℕ, zero, suc, ◌/◌, String, ◌≡◌, refl, ap, ◌∙◌, ◌≢◌, map, ◌==◌, Bool, Bool-cases, true, false,
  some, List, [], ◌∷◌, inl, inr, ℤ, pos, negsuc, ltb_ℤ, arith, eq_iff, if◌then◌else◌,
}
use gocrud.Prelude.Dict
use gocrud.Prelude.Dict.{Dict, lookup-insert}
use gocrud.Store.Update.{Json}
use gocrud.Store.Query.{
  Object, latest, oldest, Columns, Result, node, Results, nil, cons, result_kind,
}

-- A number of Go divided by a million, towards zero.
negative : ℕ → ℤ
negative zero = pos 0
negative (suc n) = negsuc n

unfoldable pub millis : ℤ → ℤ
unfolding negative
millis (pos n) = pos (n / 1000000)
millis (negsuc n) = negative (suc n / 1000000)

module _ (J : Json) where
  -- What the map holds: a value, a text, a number, or a list of such maps.
  mutual
    pub data Datum : Type 0 where
      val : J.Value → Datum
      text : String → Datum
      int : ℤ → Datum
      maps : Maps → Datum

    pub data Maps : Type 0 where
      no_map : Maps
      and_map : Fields → Maps → Maps

    pub data Fields : Type 0 where
      no_field : Fields
      and_field : String → Datum → Fields → Fields

  abbrev pub Data : Type 0
  Data = Dict Datum

  abbrev pub as_fields : Data → Fields
  as_fields [] = no_field
  as_fields ((k, d) ∷ m) = and_field k d (as_fields m)

  -- The loop over the columns: the map, and the times of the latest and of the oldest version.
  pub record Seen : Type 0 where
    pub data_ : Data
    pub ts_latest : ℤ
    pub ts_oldest : ℤ

  unfoldable pub see_latest : Object J → Seen → Seen
  see_latest o s =
      if ltb_ℤ s.ts_latest o.nano_ts
      then record s {
        data_ = Dict.insert "modifier" (text o.source) s.data_;
        ts_latest = o.nano_ts;
      }
      else s

  unfoldable pub see_oldest : Object J → Seen → Seen
  see_oldest o s =
      if ltb_ℤ o.nano_ts s.ts_oldest
      then record s { data_ = Dict.insert "creator" (text o.source) s.data_; ts_oldest = o.nano_ts }
      else s

  unfoldable pub see_columns : Columns J → Seen → Seen
  unfolding see_latest see_oldest latest oldest
  see_columns [] s = s
  see_columns ((pred, versions) ∷ columns) s = see_columns columns (
      see_oldest (oldest J versions) (
        see_latest (latest J versions)
          (record s { data_ = Dict.insert pred (val (latest J versions).value) s.data_ })))

  -- `data["creation_ms"]` and `data["modification_ms"]`, after the loop.
  unfoldable pub with_times : Seen → Data
  unfolding millis
  with_times s =
      Dict.insert "modification_ms" (int (millis s.ts_latest))
        (Dict.insert "creation_ms" (int (millis s.ts_oldest)) s.data_)

  -- The set of the kinds of the children, given with their maps.
  unfoldable pub kinds_from : List (String × Data) → Dict Bool → Dict Bool
  kinds_from [] kinds = kinds
  kinds_from ((kind, m) ∷ children) kinds = kinds_from children (Dict.insert kind true kinds)

  unfoldable pub maps_of : String → List (String × Data) → Maps
  maps_of kind [] = no_map
  maps_of kind ((k, m) ∷ children) =
      let rest = maps_of kind children in if k == kind then and_map (as_fields m) rest else rest

  unfoldable pub with_kinds : List (String × Data) → Dict Bool → Data → Data
  unfolding maps_of
  with_kinds children [] m = m
  with_kinds children ((kind, b) ∷ kinds) m =
      with_kinds children kinds (Dict.insert kind (maps (maps_of kind children)) m)

  -- `now` is `time.Now().UnixNano()`, which is taken to stand still during the call.
  module _ (now : ℤ) where
    abbrev pub own_data : String → String → Columns J → Data
    own_data id kind columns = with_times (
        see_columns columns (record {
          data_ = Dict.insert "kind" (text kind) (Dict.insert "id" (text id) []);
          ts_latest = pos 0;
          ts_oldest = now;
        }))

    unfoldable mutual
      pub to_map : Result J → Data
      to_map (node id kind columns children) =
          let cs = child_maps children in
          with_kinds cs (kinds_from cs []) (own_data id kind columns)

      pub child_maps : Results J → List (String × Data)
      child_maps nil = []
      child_maps (cons r rs) = (result_kind J r, to_map r) ∷ child_maps rs

  -- Some child has the kind.
  abbrev pub has_kind : String → List (String × Data) → Bool
  has_kind k [] = false
  has_kind k ((kind, m) ∷ children) = if kind == k then true else has_kind k children

  kinds_from-has :
      (k : String) (children : List (String × Data)) (kinds : Dict Bool)
      → Dict.lookup k kinds ≡ some true
      → Dict.lookup k (kinds_from children kinds) ≡ some true
  unfolding kinds_from
  kinds_from-has k [] kinds h = h
  kinds_from-has k ((kind, m) ∷ children) kinds h =
      kinds_from-has k children (Dict.insert kind true kinds)
        (ground (arith, lookup-insert kind k true kinds))

  kinds_from-has_kind :
      (k : String) (children : List (String × Data)) (kinds : Dict Bool)
      → has_kind k children ≡ true
      → Dict.lookup k (kinds_from children kinds) ≡ some true
  unfolding kinds_from
  kinds_from-has_kind k [] kinds h = cc
  kinds_from-has_kind k ((kind, m) ∷ children) kinds h = elim (Bool-cases (kind == k)) [
    | inl same ↦
        kinds_from-has k children (Dict.insert kind true kinds)
          (ground (arith, lookup-insert kind k true kinds))
    | inr other ↦ kinds_from-has_kind k children (Dict.insert kind true kinds) (ground arith)
  ]

  module _ (k : String) (children : List (String × Data)) where
    with_kinds-stays :
        (kinds : Dict Bool) (m : Data)
        → Dict.lookup k m ≡ some (maps (maps_of k children))
        → Dict.lookup k (with_kinds children kinds m) ≡ some (maps (maps_of k children))
    unfolding with_kinds
    with_kinds-stays [] m h = h
    with_kinds-stays ((kind, b) ∷ kinds) m h =
        with_kinds-stays kinds _
          (ground (arith, eq_iff kind k, lookup-insert kind k (maps (maps_of kind children)) m))

    with_kinds-has :
        (kinds : Dict Bool) (m : Data)
        → Dict.lookup k kinds ≡ some true
        → Dict.lookup k (with_kinds children kinds m) ≡ some (maps (maps_of k children))
    unfolding with_kinds Dict.lookup
    with_kinds-has [] m h = cc
    with_kinds-has ((kind, b) ∷ kinds) m h = elim (Bool-cases (kind == k)) [
      | inl same ↦
          with_kinds-stays kinds _
            (ground (arith, eq_iff kind k, lookup-insert kind k (maps (maps_of kind children)) m))
      | inr other ↦ with_kinds-has kinds _ (ground arith)
    ]

  abbrev pub children_of : Results J → List (Result J)
  children_of nil = []
  children_of (cons r rs) = r ∷ children_of rs

  -- The children of a kind, in their order.
  abbrev pub of_kind : String → List (Result J) → List (Result J)
  of_kind k [] = []
  of_kind k (r ∷ rs) = if result_kind J r == k then r ∷ of_kind k rs else of_kind k rs

  abbrev pub fields_in : Maps → List Fields
  fields_in no_map = []
  fields_in (and_map m ms) = m ∷ fields_in ms

  module _ (now : ℤ) (k : String) where
    maps_of-of_kind :
        (rs : Results J)
        → fields_in (maps_of k (child_maps now rs))
          ≡ map (λ r. as_fields (to_map now r)) (of_kind k (children_of rs))
    unfolding maps_of child_maps
    maps_of-of_kind nil = refl
    maps_of-of_kind (cons r rs) = elim (Bool-cases (result_kind J r == k)) [
      | inl same ↦ rw same (ap (λ l. as_fields (to_map now r) ∷ l) (maps_of-of_kind rs))
      | inr other ↦ rw other (maps_of-of_kind rs)
    ]

    has_kind-of_kind :
        (rs : Results J) → of_kind k (children_of rs) ≢ [] → has_kind k (child_maps now rs) ≡ true
    unfolding child_maps
    has_kind-of_kind nil some_child = absurd (some_child refl)
    has_kind-of_kind (cons r rs) some_child = elim (Bool-cases (result_kind J r == k)) [
      | inl same ↦ rw same refl
      | inr other ↦ rw other (
          has_kind-of_kind rs (λ e. some_child (
            ap
              (λ (b : Bool).
                if b then r ∷ of_kind k (children_of rs) else of_kind k (children_of rs))
              other
            ∙ e)))
    ]

    -- The map of a result holds, under each kind that one of its children has, the list of the maps of
    -- exactly its children of that kind, in their order.
    pub to_map-children :
        (id kind : String) (columns : Columns J) (children : Results J)
        → of_kind k (children_of children) ≢ []
        → (ms : Maps) × (Dict.lookup k (to_map now (node id kind columns children))
            ≡ some (maps ms))
          × (fields_in ms ≡ map (λ r. as_fields (to_map now r)) (of_kind k (children_of children)))
    unfolding to_map
    to_map-children id kind columns children some_child =
        let cs = child_maps now children in
        (
          maps_of k cs,
          with_kinds-has k cs (kinds_from cs []) (own_data now id kind columns)
              (kinds_from-has_kind k cs [] (has_kind-of_kind children some_child)),
          maps_of-of_kind children,
        )
