-- ===== src/Store/Query/ToMap/Latest.antt =====
-- What the map of a result shows of a property.
use gocrud.Prelude.{
  String, ◌≡◌, ◌==◌, refl, ap, ◌∙◌, subst, Bool, Bool-cases, true, false, none, some, List, [], ◌∷◌,
  inl, inr, ℤ, pos, ltb_ℤ, arith, eq_iff,
}
use gocrud.Prelude.Dict
use gocrud.Prelude.Dict.{Dict, Distinct, lookup-insert, lookup-insert_other, lookup-insert_same}
use gocrud.Store.Update.{Json}
use gocrud.Store.Query.{Object, Versions, latest, oldest, Columns, node, Results}
use gocrud.Store.Query.ToMap.{
  val, text, int, Data, Seen, see_latest, see_oldest, see_columns, with_times, kinds_from, maps,
  with_kinds, maps_of, own_data, to_map, child_maps, has_kind, millis,
}

-- The code does not write the key itself after the columns.
abbrev pub IsFree : String → Type 0
IsFree k =
    (("modifier" == k) ≡ false)
    × (("creator" == k) ≡ false)
    × (("creation_ms" == k) ≡ false)
    × (("modification_ms" == k) ≡ false)

module _ (J : Json) (k : String) (free : IsFree k) where
  see_latest-keeps :
      (o : Object J) (s : Seen J) → Dict.lookup k (see_latest J o s).data_ ≡ Dict.lookup k s.data_
  unfolding see_latest
  see_latest-keeps o s = elim (Bool-cases (ltb_ℤ s.ts_latest o.nano_ts)) [
    | inl later ↦ rw later (lookup-insert_other "modifier" k (text o.source) s.data_ free.0)
    | inr earlier ↦ rw earlier refl
  ]

  see_oldest-keeps :
      (o : Object J) (s : Seen J) → Dict.lookup k (see_oldest J o s).data_ ≡ Dict.lookup k s.data_
  unfolding see_oldest
  see_oldest-keeps o s = elim (Bool-cases (ltb_ℤ o.nano_ts s.ts_oldest)) [
    | inl earlier ↦ rw earlier (lookup-insert_other "creator" k (text o.source) s.data_ free.1)
    | inr later ↦ rw later refl
  ]

  -- A column, with its latest value written.
  abbrev written : String → Versions J → Seen J → Seen J
  written pred versions s = record s {
    data_ = Dict.insert pred (val (latest J versions).value) s.data_;
  }

  see_versions-keeps :
      (pred : String) (versions : Versions J) (s : Seen J)
      → Dict.lookup k
          (see_oldest J
            (oldest J versions)
            (see_latest J (latest J versions) (written pred versions s))).data_
        ≡ Dict.lookup k (Dict.insert pred (val (latest J versions).value) s.data_)
  see_versions-keeps pred versions s =
      see_oldest-keeps (oldest J versions)
        (see_latest J (latest J versions) (written pred versions s))
      ∙ see_latest-keeps (latest J versions) (written pred versions s)

  see_columns-absent :
      (columns : Columns J) (s : Seen J)
      → Dict.lookup k columns ≡ none
      → Dict.lookup k (see_columns J columns s).data_ ≡ Dict.lookup k s.data_
  unfolding see_columns Dict.lookup
  see_columns-absent [] s h = refl
  see_columns-absent ((pred, versions) ∷ columns) s h = elim (Bool-cases (pred == k)) [
    | inl here ↦ let e : some versions ≡ none = rw here at h in cc
    | inr other ↦
        see_columns-absent columns _ (rw other at h)
        ∙ see_versions-keeps pred versions s
        ∙ lookup-insert_other pred k (val (latest J versions).value) s.data_ other
  ]

  see_columns-latest :
      (columns : Columns J) (s : Seen J) (v : Versions J)
      → Distinct columns
      → Dict.lookup k columns ≡ some v
      → Dict.lookup k (see_columns J columns s).data_ ≡ some (val (latest J v).value)
  unfolding see_columns Dict.lookup
  see_columns-latest [] s v d h = cc
  see_columns-latest ((pred, versions) ∷ columns) s v d h = elim (Bool-cases (pred == k)) [
    | inl here ↦
        let e : some versions ≡ some v = rw here at h in
        let same : versions ≡ v = cc in
        see_columns-absent columns _
          (subst (λ p. Dict.lookup p columns ≡ none) ((eq_iff pred k).0 here) d.0)
        ∙ see_versions-keeps pred versions s
        ∙ lookup-insert_same pred k (val (latest J versions).value) s.data_ here
        ∙ ap (λ w. some (val (latest J w).value)) same
    | inr other ↦ see_columns-latest columns _ v d.1 (rw other at h)
  ]

  kinds_from-none :
      (children : List (String × Data J)) (kinds : Dict Bool)
      → has_kind J k children ≡ false
      → Dict.lookup k kinds ≡ none
      → Dict.lookup k (kinds_from J children kinds) ≡ none
  unfolding kinds_from
  kinds_from-none [] kinds h n = n
  kinds_from-none ((kind, m) ∷ children) kinds h n =
      kinds_from-none children (Dict.insert kind true kinds) (ground arith)
        (ground (arith, lookup-insert kind k true kinds))

  with_kinds-other :
      (children : List (String × Data J)) (kinds : Dict Bool) (m : Data J)
      → Dict.lookup k kinds ≡ none
      → Dict.lookup k (with_kinds J children kinds m) ≡ Dict.lookup k m
  unfolding with_kinds Dict.lookup
  with_kinds-other children [] m n = refl
  with_kinds-other children ((kind, b) ∷ kinds) m n = elim (Bool-cases (kind == k)) [
    | inl here ↦ let e : some b ≡ none = rw here at n in cc
    | inr other ↦
        with_kinds-other children kinds _ (rw other at n)
        ∙ lookup-insert_other kind k (maps (maps_of J kind children)) m other
  ]

  pub to_map-latest :
      (now : ℤ) (id kind : String) (columns : Columns J) (children : Results J) (v : Versions J)
      → has_kind J k (child_maps J now children) ≡ false
      → Distinct columns
      → Dict.lookup k columns ≡ some v
      → Dict.lookup k (to_map J now (node id kind columns children)) ≡ some (val (latest J v).value)
  unfolding to_map with_times Dict.lookup
  to_map-latest now id kind columns children v no_child d h =
      let cs = child_maps J now children in
      let s : Seen J = see_columns J columns (record {
        data_ = Dict.insert "kind" (text kind) (Dict.insert "id" (text id) []);
        ts_latest = pos 0;
        ts_oldest = now;
      }) in
      let created = int (millis s.ts_oldest) in
      with_kinds-other cs (kinds_from J cs []) (own_data J now id kind columns)
        (kinds_from-none cs [] no_child refl)
      ∙ lookup-insert_other "modification_ms" k (int (millis s.ts_latest))
          (Dict.insert "creation_ms" created s.data_) free.3
      ∙ lookup-insert_other "creation_ms" k created s.data_ free.2
      ∙ see_columns-latest columns _ v d h
