-- ===== src/Search/MemQuery/Filtering.antt =====
-- drivers/memsearch/memsearch.go: the loops that filter documents in place.
use gocrud.Prelude.{
  ◌+◌, ◌≡◌, refl, sym, ◌∙◌, ap, Bool, true, false, some, List, [], ◌∷◌, ◌++◌, append_assoc,
  append-nil, length, get_elem?, set, take, arith, if◌then◌else◌, length-append,
}
use mathlib.Core.Path.{fun_ext}
use gocrud.Outcome.{Outcome, ok, err, halt, pending, ◌>>=◌}
use gocrud.Search.{Go, Doc}
use gocrud.Search.MemQuery.{
  Filter, MemQuery, Slots, keep, and_round, or_match, or_round, filter_step, filter_loop, stored,
  slots, run_and_filter, run_or_filter,
}

module _ {A : Type 0} where
  set-middle :
      (pre : List A) (x : A) (post : List A) (y : A)
      → set (pre ++ (x ∷ post)) (length pre) y ≡ pre ++ (y ∷ post)
  set-middle [] x post y = refl
  set-middle (p ∷ pre) x post y = ap (λ l. p ∷ l) (set-middle pre x post y)

  get-middle :
      (pre : List A) (x : A) (post : List A) → get_elem? (pre ++ (x ∷ post)) (length pre) ≡ some x
  get-middle [] x post = refl
  get-middle (p ∷ pre) x post = get-middle pre x post

  take-length : (pre post : List A) → take (length pre) (pre ++ post) ≡ pre
  take-length [] post = refl
  take-length (p ∷ pre) post = ap (λ l. p ∷ l) (take-length pre post)

module _ (G : Go) where
  and_round-eq :
      (fs : List (Filter G)) (doc : Doc G) (s : Slots G)
      → and_round G fs doc s ≡ or_round G fs doc s
  unfolding and_round or_round or_match
  and_round-eq [] doc s = refl
  and_round-eq (f ∷ fs) doc s = ground (arith, and_round-eq fs doc s)

  -- A query with an AND filter gives exactly what the same filters give under OR: a document is kept as
  -- soon as one filter matches it.
  pub and_is_or :
      (fs : List (Filter G)) (mq : MemQuery G) → run_and_filter G fs mq ≡ run_or_filter G fs mq
  unfolding run_and_filter run_or_filter
  and_is_or fs mq =
      let same : and_round G fs ≡ or_round G fs =
        fun_ext λ doc. fun_ext λ s. and_round-eq fs doc s in
      rw same

  -- The plain filter: the documents that the test keeps, in order; the first failure ends it.
  abbrev put : Doc G → Bool → List (Doc G) → List (Doc G)
  put doc b docs = if b then doc ∷ docs else docs

  abbrev pub select : (Doc G → Outcome Bool) → List (Doc G) → Outcome (List (Doc G))
  select m [] = ok []
  select m (doc ∷ docs) = do b ← m doc; rest ← select m docs; ok (put doc b rest)

  -- The storage in mid loop: the documents kept so far, leftovers, and those that are still to be read.
  record Mid (s : Slots G) (pre rest : List (Doc G)) : Type 0 where
    left : List (Doc G)
    array : s.array ≡ pre ++ (left ++ rest)
    i : s.i ≡ length pre + length left
    j : s.j ≡ length pre

  Mid-skip :
      (s : Slots G) (pre : List (Doc G)) (doc : Doc G) (rest : List (Doc G))
      → Mid s pre (doc ∷ rest)
      → Mid (record s { i = s.i + 1 }) pre rest
  Mid-skip s pre doc rest h = record {
    left = h.left ++ doc ∷ [];
    array = h.array ∙ ap (λ l. pre ++ l) (sym (append_assoc h.left (doc ∷ []) rest));
    i = omega (arith, h.i, length-append h.left (doc ∷ []));
    j = h.j;
  }

  Mid-keep :
      (s : Slots G) (pre left : List (Doc G)) (doc : Doc G) (rest : List (Doc G))
      → s.array ≡ pre ++ (left ++ (doc ∷ rest))
      → s.i ≡ length pre + length left
      → s.j ≡ length pre
      → Mid (record (keep G doc s) { i = s.i + 1 }) (pre ++ doc ∷ []) rest
  unfolding keep
  Mid-keep s pre [] doc rest a i j = record {
    left = [];
    array = rw (a, j) (set-middle pre doc rest doc ∙ sym (append_assoc pre (doc ∷ []) rest));
    i = omega (arith, length-append pre (doc ∷ []));
    j = omega (arith, length-append pre (doc ∷ []));
  }
  Mid-keep s pre (x ∷ left) doc rest a i j = record {
    left = left ++ doc ∷ [];
    array =
        rw (a, j)
          (set-middle pre x (left ++ (doc ∷ rest)) doc
            ∙ sym (
                append_assoc pre (doc ∷ []) _
                ∙ ap (λ l. pre ++ (doc ∷ l)) (append_assoc left (doc ∷ []) rest)));
    i = omega (arith, length-append pre (doc ∷ []), length-append left (doc ∷ []));
    j = omega (arith, length-append pre (doc ∷ []));
  }

  Mid-read :
      (s : Slots G) (pre : List (Doc G)) (doc : Doc G) (rest : List (Doc G))
      → Mid s pre (doc ∷ rest)
      → get_elem? s.array s.i ≡ some doc
  Mid-read s pre doc rest h =
      rw (h.array, h.i)
        (ap (λ l. get_elem? l (length pre + length h.left))
            (sym (append_assoc pre h.left (doc ∷ rest)))
          ∙ ap (get_elem? ((pre ++ h.left) ++ (doc ∷ rest))) (sym (length-append pre h.left))
          ∙ get-middle (pre ++ h.left) doc rest)

  prepend : List (Doc G) → Outcome (List (Doc G)) → Outcome (List (Doc G))
  prepend pre (ok docs) = ok (pre ++ docs)
  prepend pre (err e) = err e
  prepend pre (halt e) = halt e
  prepend pre pending = pending

  prepend-kept :
      (pre : List (Doc G)) (doc : Doc G) (o : Outcome (List (Doc G)))
      → prepend (pre ++ doc ∷ []) o ≡ prepend pre (o >>= λ rest. ok (doc ∷ rest))
  unfolding prepend
  prepend-kept pre doc (ok docs) = ap ok (append_assoc pre (doc ∷ []) docs)
  prepend-kept pre doc (err e) = refl
  prepend-kept pre doc (halt e) = refl
  prepend-kept pre doc pending = refl

  prepend-dropped :
      (pre : List (Doc G)) (o : Outcome (List (Doc G)))
      → prepend pre o ≡ prepend pre (o >>= λ rest. ok rest)
  prepend-dropped pre (ok docs) = refl
  prepend-dropped pre (err e) = refl
  prepend-dropped pre (halt e) = refl
  prepend-dropped pre pending = refl

  prepend-nil : (o : Outcome (List (Doc G))) → prepend [] o ≡ o
  unfolding prepend
  prepend-nil (ok docs) = refl
  prepend-nil (err e) = refl
  prepend-nil (halt e) = refl
  prepend-nil pending = refl

  filter_step-select :
      (next : Slots G → Outcome (List (Doc G)) × List (Doc G)) (pre rest : List (Doc G))
      (doc : Doc G) (s : Slots G) (later : Outcome (List (Doc G))) (o : Outcome Bool)
      → (next (record (keep G doc s) { i = s.i + 1 })).0 ≡ prepend (pre ++ doc ∷ []) later
      → (next (record s { i = s.i + 1 })).0 ≡ prepend pre later
      → (filter_step G next (o >>= λ b. if b then ok (keep G doc s) else ok s) s).0
        ≡ prepend pre (o >>= λ b. later >>= λ r. ok (put doc b r))
  unfolding prepend keep
  filter_step-select next pre rest doc s later (ok true) kept dropped =
      kept ∙ prepend-kept pre doc later
  filter_step-select next pre rest doc s later (ok false) kept dropped =
      dropped ∙ prepend-dropped pre later
  filter_step-select next pre rest doc s later (err e) kept dropped = refl
  filter_step-select next pre rest doc s later (halt e) kept dropped = refl
  filter_step-select next pre rest doc s later pending kept dropped = refl

  filter_loop-select :
      (fs : List (Filter G)) (rest : List (Doc G)) (s : Slots G) (pre : List (Doc G))
      → Mid s pre rest
      → (filter_loop G (or_round G fs) (length rest) s).0
        ≡ prepend pre (select (or_match G fs) rest)
  unfolding filter_loop prepend or_round
  filter_loop-select fs [] s pre h =
      ap ok (rw (h.array, h.j) (take-length pre (h.left ++ [])) ∙ sym (append-nil pre))
  filter_loop-select fs (doc ∷ rest) s pre h =
      rw (Mid-read s pre doc rest h, filter_loop)
        (filter_step-select (filter_loop G (or_round G fs) (length rest)) pre rest doc s
          (select (or_match G fs) rest) (or_match G fs doc)
          (filter_loop-select fs rest (record (keep G doc s) { i = s.i + 1 }) (pre ++ doc ∷ [])
            (Mid-keep s pre h.left doc rest h.array h.i h.j))
          (filter_loop-select fs rest (record s { i = s.i + 1 }) pre (Mid-skip s pre doc rest h)))

  -- The documents of a query after its filters.
  abbrev pub filtered : List (Filter G) → MemQuery G → Outcome (List (Doc G))
  filtered fs mq = let (o, mq') = run_or_filter G fs mq in o >>= λ _. ok mq'.docs

  stored_docs :
      (mq : MemQuery G) (o : Outcome (List (Doc G))) (array : List (Doc G))
      → (let r = stored G (o, array) mq in r.0 >>= λ _. ok r.1.docs) ≡ o
  unfolding stored
  stored_docs mq (ok docs) array = refl
  stored_docs mq (err e) array = refl
  stored_docs mq (halt e) array = refl
  stored_docs mq pending array = refl

  -- The loop of an OR filter, which writes the documents it keeps into the slice it reads, gives what a
  -- plain filter gives: in order, the documents that some filter matches, or the first failure.
  pub run_or_filter-select :
      (fs : List (Filter G)) (mq : MemQuery G) → filtered fs mq ≡ select (or_match G fs) mq.docs
  unfolding run_or_filter
  run_or_filter-select fs mq =
      let r = filter_loop G (or_round G fs) (length mq.docs) (slots G mq.docs) in
      stored_docs mq r.0 r.1
      ∙ filter_loop-select fs mq.docs (slots G mq.docs) []
          (record { left = []; array = refl; i = omega arith; j = refl })
      ∙ prepend-nil (select (or_match G fs) mq.docs)
