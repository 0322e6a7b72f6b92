-- ===== src/Search/MemQuery/Running.antt =====
-- drivers/memsearch/memsearch.go: the order of results, their pages, and `Run` and `Count`.

use Prim.Native.String.{compare}
use Prim.Native.Nat.{Ordering}
use gocrud.Prelude.{
  ℕ, String, ◌==◌, starts_with, Bool, true, false, ◌&&◌, none, some, List, [], ◌∷◌, ℤ, pos,
  pos_part, ltb_ℤ, length, take, drop, if◌then◌else◌,
}
use gocrud.Prelude.Dict
use gocrud.Prelude.Dict.{Dict}
use gocrud.Outcome.{Outcome, ok, err, halt, pending, ◌>>=◌}
use gocrud.Search.{str, int64, int32, int, float64, other, Go, Value, Doc}
use gocrud.Search.MemQuery.{MemQuery, fields_of, strip, filter_docs}

-- `<` of Go's strings.
abbrev pub str_lt : String → String → Bool
str_lt a b = elim (compare a b) [ Ordering.lt ↦ true | _ ↦ false ]

module _ (G : Go) where
  -- The two slicings of `Run`.
  unfoldable pub page : ℤ → ℤ → List (Doc G) → List (Doc G)
  page from limit docs =
      let rest =
        if ltb_ℤ (pos 0) from && ltb_ℤ from (pos (length docs))
        then drop (pos_part from) docs
        else docs in
      if ltb_ℤ (pos 0) limit && ltb_ℤ limit (pos (length rest))
      then take (pos_part limit) rest
      else rest

  unfoldable pub count : MemQuery G → Outcome ℕ × MemQuery G
  unfolding filter_docs
  count mq = let (o, mq') = filter_docs G mq in (o >>= λ _. ok (length mq'.docs), mq')

  -- `Docs.Get`
  unfoldable pub sort_key : String → Doc G → Outcome (Value G)
  unfolding fields_of
  sort_key field doc = do
    m ← fields_of G doc
    elim (Dict.lookup field m) [ none ↦ halt "Field not found for sorting" | some v ↦ ok v ]

  -- The type switch of `Docs.Less`, after the test that both values have one type.
  unfoldable pub less_value : Value G → Value G → Outcome Bool
  less_value (str a) (str b) = ok (str_lt a b)
  less_value (int64 a) (int64 b) = ok (ltb_ℤ a b)
  less_value (int32 a) (int32 b) = ok (ltb_ℤ a b)
  less_value (int a) (int b) = ok (ltb_ℤ a b)
  less_value (float64 a) (float64 b) = ok (G.float_lt a b)
  less_value (other a) (other b) =
      if G.same_other_type a b then halt "Invalid type" else halt "Different types"
  less_value _ _ = halt "Different types"

  unfoldable pub less : String → Doc G → Doc G → Outcome Bool
  unfolding less_value sort_key
  less field di dj = do vi ← sort_key field di; vj ← sort_key field dj; less_value vi vj

  -- A leading "-" asks for the reverse order.
  unfoldable pub order_field : String → Bool × String
  unfolding strip
  order_field (String.◌∷◌ c rest) =
      if starts_with (String.◌∷◌ c rest) "-"
      then (true, strip G rest)
      else (false, strip G (String.◌∷◌ c rest))
  order_field empty = (false, strip G empty)

  unfoldable pub eligible : String → List (Doc G) → Outcome (List (Doc G))
  unfolding fields_of
  eligible field [] = ok []
  eligible field (doc ∷ docs) = do
    m ← fields_of G doc
    rest ← eligible field docs
    ok (elim (Dict.lookup field m) [ none ↦ rest | some v ↦ doc ∷ rest ])

  -- `sort` is sort.Sort, given `Less`. sort.Reverse swaps the arguments of `Less`.
  module _ (sort : (Doc G → Doc G → Outcome Bool) → List (Doc G) → Outcome (List (Doc G))) where
    unfoldable pub bring_order : String → List (Doc G) → Outcome (List (Doc G))
    unfolding eligible less order_field
    bring_order order docs = do
      let (reverse, field) = order_field order
      found ← eligible field docs
      if reverse then sort (λ di dj. less field dj di) found else sort (less field) found

    unfoldable pub order_docs : String → List (Doc G) → Outcome (List (Doc G))
    unfolding bring_order
    order_docs order docs = if order == "" then ok docs else bring_order order docs

    unfoldable pub finish : Outcome (Unit {0}) → MemQuery G → Outcome (List (Doc G)) × MemQuery G
    finish (ok u) mq = elim (order_docs mq.order mq.docs) [
      | ok docs ↦ let shown = page mq.from mq.limit docs in (ok shown, record mq { docs = shown })
      | err e ↦ (err e, mq)
      | halt e ↦ (halt e, mq)
      | pending ↦ (pending, mq)
    ]
    finish (err e) mq = (err e, mq)
    finish (halt e) mq = (halt e, mq)
    finish pending mq = (pending, mq)

    unfoldable pub run : MemQuery G → Outcome (List (Doc G)) × MemQuery G
    unfolding filter_docs order_docs page finish
    run mq = let (o, mq') = filter_docs G mq in finish o mq'
