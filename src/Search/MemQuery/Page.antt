-- ===== src/Search/MemQuery/Page.antt =====
-- Pages of results.
use gocrud.Prelude.{
  Bool, Option-cases, inl, inr, ap, ◌∙◌, ℕ, zero, suc, ◌+◌, ◌≤◌, ◌<◌, ◌≡◌, refl, sym, List, ℤ, pos,
  pos_part, length, length-take, length-drop, take, drop, arith,
}
use gocrud.Search.{Go, Doc}
use gocrud.Search.MemQuery.Running.{page, run, count, finish, order_docs}
use gocrud.Search.MemQuery.{
  Filter, filter_loop, and_round, or_round, slots, MemQuery, stored, run_filter, run_and_filter,
  run_or_filter, filter_docs,
}
use gocrud.Outcome.{Outcome, ok, err, halt, pending, ◌>>=◌}

-- The query asks for no order, offset or limit.
pub record IsPlain {G : Go} (mq : MemQuery G) : Type 0 where
  pub order : mq.order ≡ ""
  pub from : mq.from ≡ pos 0
  pub limit : mq.limit ≡ pos 0

module _ (G : Go) where
  -- A page holds at most `limit` documents, if there is a limit.
  pub length-page :
      (from : ℤ) (limit : ℕ) (docs : List (Doc G))
      → 0 < limit
      → length (page G from (pos limit) docs) ≤ limit
  unfolding page
  length-page from limit docs h =
      ground (arith, length-take limit docs, length-take limit (drop (pos_part from) docs))

  -- Within the results, `from` and `limit` cut out the documents from the one, as many as the other.
  pub page_inside :
      (from limit : ℕ) (docs : List (Doc G))
      → from < length docs
      → 0 < limit
      → limit + from < length docs
      → page G (pos from) (pos limit) docs ≡ take limit (drop from docs)
  unfolding page
  page_inside zero limit docs h k l = ground arith
  page_inside (suc from) limit docs h k l = ground (arith, length-drop (suc from) docs)

  -- An offset at or beyond the last result is ignored: the page is the first one again.
  pub page_beyond :
      (from : ℕ) (limit : ℤ) (docs : List (Doc G))
      → length docs ≤ from
      → page G (pos from) limit docs ≡ page G (pos 0) limit docs
  unfolding page
  page_beyond from limit docs h = ground arith

module _ (G : Go) where
  same-IsPlain :
      (mq : MemQuery G) (docs : List (Doc G)) → IsPlain mq → IsPlain (record mq { docs = docs })
  same-IsPlain mq docs plain = record {
    order = plain.order;
    from = plain.from;
    limit = plain.limit;
  }

  stored-IsPlain :
      (r : Outcome (List (Doc G)) × List (Doc G)) (mq : MemQuery G)
      → IsPlain mq
      → IsPlain (stored G r mq).1
  unfolding stored
  stored-IsPlain (ok docs, array) mq plain = same-IsPlain mq docs plain
  stored-IsPlain (err e, array) mq plain = same-IsPlain mq array plain
  stored-IsPlain (halt e, array) mq plain = same-IsPlain mq array plain
  stored-IsPlain (pending, array) mq plain = same-IsPlain mq array plain

  run_filter-IsPlain :
      (fs : List (Filter G)) (mq : MemQuery G) (n : ℕ)
      → mq.filter_type ≡ n
      → IsPlain mq
      → IsPlain (run_filter G fs mq).1
  unfolding run_filter run_and_filter run_or_filter
  run_filter-IsPlain fs mq zero h plain = rw (h, run_filter) plain
  run_filter-IsPlain fs mq (suc zero) h plain =
      rw (h, run_filter)
        (stored-IsPlain (filter_loop G (and_round G fs) (length mq.docs) (slots G mq.docs)) mq
          plain)
  run_filter-IsPlain fs mq (suc (suc zero)) h plain =
      rw (h, run_filter)
        (stored-IsPlain (filter_loop G (or_round G fs) (length mq.docs) (slots G mq.docs)) mq plain)
  run_filter-IsPlain fs mq (suc (suc (suc n))) h plain = rw (h, run_filter) plain

  filter_docs-IsPlain : (mq : MemQuery G) → IsPlain mq → IsPlain (filter_docs G mq).1
  unfolding filter_docs
  filter_docs-IsPlain mq plain = elim (Option-cases mq.filter) [
    | inl e ↦ rw (e, filter_docs) plain
    | inr (fs, e) ↦ rw (e, filter_docs) (run_filter-IsPlain fs mq mq.filter_type refl plain)
  ]

module _ (G : Go)
    (sort : (Doc G → Doc G → Outcome Bool) → List (Doc G) → Outcome (List (Doc G))) where
  order_docs-plain : (docs : List (Doc G)) → order_docs G sort "" docs ≡ ok docs
  unfolding order_docs
  order_docs-plain docs = refl

  page-plain : (docs : List (Doc G)) → page G (pos 0) (pos 0) docs ≡ docs
  unfolding page
  page-plain docs = refl

  finish-plain :
      (o : Outcome (Unit {0})) (mq : MemQuery G) (docs : List (Doc G))
      → IsPlain mq
      → (finish G sort o mq).0 ≡ ok docs
      → ((o >>= λ _. ok (length mq.docs)) ≡ ok (length docs))
        × (mq.docs ≡ (finish G sort o mq).1.docs)
  unfolding finish
  finish-plain (ok u) mq docs plain h =
      let ordered : order_docs G sort mq.order mq.docs ≡ ok mq.docs =
        rw plain.order (order_docs-plain mq.docs) in
      let shown : page G mq.from mq.limit mq.docs ≡ mq.docs =
        rw (plain.from, plain.limit) (page-plain mq.docs) in
      let result : finish G sort (ok u) mq ≡ (
        ok (page G mq.from mq.limit mq.docs),
        record mq { docs = page G mq.from mq.limit mq.docs },
      ) =
        rw (ordered, finish) refl in
      let all : ok mq.docs ≡ ok docs = ap ok (sym shown) ∙ sym (ap (λ p. p.0) result) ∙ h in
      let same : mq.docs ≡ docs = cc in
      (ap (λ l. ok (length l)) same, sym (ap (λ p. p.1.docs) result ∙ shown))
  finish-plain (err e) mq docs plain h = cc
  finish-plain (halt e) mq docs plain h = cc
  finish-plain pending mq docs plain h = cc

  -- Without an order, an offset and a limit, `Run` and `Count` of the same query agree: where `Run` returns
  -- documents, `Count` returns how many they are, and both leave the query with the same documents.
  pub count-run :
      (mq : MemQuery G) (docs : List (Doc G))
      → IsPlain mq
      → (run G sort mq).0 ≡ ok docs
      → ((count G mq).0 ≡ ok (length docs)) × ((count G mq).1.docs ≡ (run G sort mq).1.docs)
  unfolding run count
  count-run mq docs plain h =
      finish-plain (filter_docs G mq).0 (filter_docs G mq).1 docs (filter_docs-IsPlain G mq plain) h
