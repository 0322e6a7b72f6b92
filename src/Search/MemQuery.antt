-- ===== src/Search/MemQuery.antt =====
-- drivers/memsearch/memsearch.go: building and running queries.
use Prim.Native.Char.{Char}
use Prim.Native.String
pub mod Filtering
pub mod Page
pub mod Running
use Prim.Native.String.{compare}
use Prim.Native.Nat.{Ordering}
use gocrud.Prelude.{
  ℕ, zero, suc, ◌+◌, String, ◌==◌, starts_with, Bool, true, false, ◌&&◌, Option, none, some, List,
  [], ◌∷◌, ◌++◌, ℤ, pos, pos_part, ltb, ltb_ℤ, length, get_elem?, set, take, drop, if◌then◌else◌,
}
use gocrud.Prelude.Dict
use gocrud.Prelude.Dict.{Dict}
use gocrud.Outcome.{Outcome, ok, err, halt, pending, ◌>>=◌}
use gocrud.Search.{
  Dyn, str, int64, int32, int, float64, other, Go, Value, DocData, fields, opaque, Doc, MemSearch,
  all, of_kind,
}

module _ (G : Go) where
  -- `Regex` is empty for an exact filter.
  pub record Filter : Type 0 where
    pub field : String
    pub value : Value G
    pub regex : String

  pub record MemQuery : Type 0 where
    pub docs : List (Doc G)
    pub filter : Option (List Filter)
    pub filter_type : ℕ
    pub from : ℤ
    pub limit : ℤ
    pub order : String

  -- `range` is the order in which Go walks the map of documents.
  unfoldable pub new_query : (List (Doc G) → List (Doc G)) → String → MemSearch G → MemQuery
  new_query range kind ms = record {
    docs = of_kind G kind (range (all G ms));
    filter = none;
    filter_type = 0;
    from = pos 0;
    limit = pos 0;
    order = "";
  }

  unfoldable pub new_and_filter : MemQuery → MemQuery
  new_and_filter mq = record mq { filter = some []; filter_type = 1 }

  unfoldable pub new_or_filter : MemQuery → MemQuery
  new_or_filter mq = record mq { filter = some []; filter_type = 2 }

  -- Through the filter that the query holds; there is one after `new_and_filter` or `new_or_filter`.
  push_filter : Filter → Option (List Filter) → Option (List Filter)
  push_filter f none = none
  push_filter f (some fs) = some (fs ++ f ∷ [])

  unfoldable pub add_exact : String → Value G → MemQuery → MemQuery
  unfolding push_filter
  add_exact field v mq = record mq {
    filter = push_filter (record { field = field; value = v; regex = "" }) mq.filter;
  }

  unfoldable pub add_regex : String → String → MemQuery → MemQuery
  unfolding push_filter
  add_regex field v mq = record mq {
    filter = push_filter (record { field = field; value = other G.nil_value; regex = v }) mq.filter;
  }

  unfoldable pub from : ℤ → MemQuery → MemQuery
  from num mq = record mq { from = num }

  unfoldable pub limit : ℤ → MemQuery → MemQuery
  limit num mq = record mq { limit = num }

  unfoldable pub order : String → MemQuery → MemQuery
  order field mq = record mq { order = field }

  -- `strings.ToLower(field[0:5]) == "data."` drops the prefix of a longer field.
  unfoldable pub strip : String → String
  strip
        (String.◌∷◌ a
          (String.◌∷◌ b (String.◌∷◌ c (String.◌∷◌ d (String.◌∷◌ e (String.◌∷◌ f rest)))))) =
      if G.to_lower (String.◌∷◌ a (String.◌∷◌ b (String.◌∷◌ c (String.◌∷◌ d (String.◌∷◌ e "")))))
        == "data."
      then String.◌∷◌ f rest
      else String.◌∷◌ a
          (String.◌∷◌ b (String.◌∷◌ c (String.◌∷◌ d (String.◌∷◌ e (String.◌∷◌ f rest)))))
  strip field = field

  -- `doc.Data.(map[string]interface{})`
  unfoldable pub fields_of : Doc G → Outcome (Dict (Value G))
  fields_of doc = elim doc.body [ fields m ↦ ok m | opaque ↦ halt "interface conversion" ]

  equal_to : Value G → Option (Value G) → Bool
  equal_to v none = false
  equal_to v (some val) = G.deep_equal val v

  unfoldable pub match_exact : Doc G → String → Value G → Outcome Bool
  unfolding equal_to fields_of
  match_exact doc field v = do m ← fields_of doc; ok (equal_to v (Dict.lookup (strip field) m))

  regex_matches : G.Regexp → Option (Value G) → Outcome Bool
  regex_matches re none = ok false
  regex_matches re (some (str s)) = ok (G.match_string re s)
  regex_matches re (some v) = halt "interface conversion"

  -- MustCompile panics on a bad expression, before the document is looked at.
  unfoldable pub match_regex : Doc G → String → String → Outcome Bool
  unfolding regex_matches fields_of
  match_regex doc field v = elim (G.compile v) [
    | none ↦ halt "regexp: Compile"
    | some re ↦ do m ← fields_of doc; regex_matches re (Dict.lookup (strip field) m)
  ]

  -- The test of one filter, as in both loops.
  unfoldable pub test : Filter → Doc G → Outcome Bool
  unfolding match_exact match_regex
  test f doc =
      if f.regex == "" then match_exact doc f.field f.value else match_regex doc f.field f.regex

  -- A slice that is filtered in place: `array` is its storage, read at `i` and written at `j`.
  pub record Slots : Type 0 where
    pub array : List (Doc G)
    pub i : ℕ
    pub j : ℕ

  -- `filtered = append(filtered, doc)`, whose storage is that of `docs`.
  unfoldable pub keep : Doc G → Slots → Slots
  keep doc s = record s { array = set s.array s.j doc; j = s.j + 1 }

  -- The inner loop of runAndFilter: it appends the document at the first filter that matches.
  unfoldable pub and_round : List Filter → Doc G → Slots → Outcome Slots
  unfolding keep
  and_round [] doc s = ok s
  and_round (f ∷ fs) doc s =
      let rest = and_round fs doc s in
      if f.field == ""
      then err "Invalid field"
      else do m ← test f doc; if m then ok (keep doc s) else rest

  -- The inner loop of runOrFilter, which sets `match`.
  unfoldable pub or_match : List Filter → Doc G → Outcome Bool
  or_match [] doc = ok false
  or_match (f ∷ fs) doc =
      let rest = or_match fs doc in
      if f.field == "" then err "Invalid field" else do m ← test f doc; if m then ok true else rest

  unfoldable pub or_round : List Filter → Doc G → Slots → Outcome Slots
  unfolding keep
  or_round fs doc s = do m ← or_match fs doc; if m then ok (keep doc s) else ok s

  abbrev pub filter_step :
      (Slots → Outcome (List (Doc G)) × List (Doc G))
      → Outcome Slots
      → Slots
      → Outcome (List (Doc G)) × List (Doc G)
  filter_step next (ok t) s = next (record t { i = t.i + 1 })
  filter_step next (err e) s = (err e, s.array)
  filter_step next (halt e) s = (halt e, s.array)
  filter_step next pending s = (pending, s.array)

  -- `for _, doc := range docs`, with the rounds that are left. A round that fails has written nothing.
  unfoldable pub filter_loop :
      (Doc G → Slots → Outcome Slots) → ℕ → Slots → Outcome (List (Doc G)) × List (Doc G)
  filter_loop round zero s = (ok (take s.j s.array), s.array)
  filter_loop round (suc n) s = elim (get_elem? s.array s.i) [
    | none ↦ (halt "index out of range", s.array)
    | some doc ↦ filter_step (filter_loop round n) (round doc s) s
  ]

  -- The result, and the documents that the query holds after the call.
  unfoldable pub stored :
      Outcome (List (Doc G)) × List (Doc G) → MemQuery → Outcome (Unit {0}) × MemQuery
  stored (ok filtered, array) mq = (ok tt, record mq { docs = filtered })
  stored (err e, array) mq = (err e, record mq { docs = array })
  stored (halt e, array) mq = (halt e, record mq { docs = array })
  stored (pending, array) mq = (pending, record mq { docs = array })

  abbrev pub slots : List (Doc G) → Slots
  slots docs = record { array = docs; i = 0; j = 0 }

  unfoldable pub run_and_filter : List Filter → MemQuery → Outcome (Unit {0}) × MemQuery
  unfolding stored
  run_and_filter fs mq = stored (filter_loop (and_round fs) (length mq.docs) (slots mq.docs)) mq

  unfoldable pub run_or_filter : List Filter → MemQuery → Outcome (Unit {0}) × MemQuery
  unfolding stored
  run_or_filter fs mq = stored (filter_loop (or_round fs) (length mq.docs) (slots mq.docs)) mq

  unfoldable pub run_filter : List Filter → MemQuery → Outcome (Unit {0}) × MemQuery
  run_filter fs mq = elim mq.filter_type [
    | zero ↦ (err "Filter present, but not set", mq)
    | suc n ↦ elim n [
      | zero ↦ run_and_filter fs mq
      | suc k ↦ elim k [ zero ↦ run_or_filter fs mq | _ ↦ (err "Invalid filter type", mq) ]
    ]
  ]

  -- `if mq.filter != nil { mq.runFilter() }`
  unfoldable pub filter_docs : MemQuery → Outcome (Unit {0}) × MemQuery
  unfolding run_filter
  filter_docs mq = elim mq.filter [ none ↦ (ok tt, mq) | some fs ↦ run_filter fs mq ]
