-- ===== src/X/Url.antt =====
-- x/x.go: `ParseIdFromUrl`. A text is its bytes, and strings.LastIndex is a parameter.
use gocrud.Prelude.{
  ℕ, zero, suc, ◌+◌, ◌≤◌, ◌≡◌, refl, sym, ap, ◌∙◌, ◌⊎◌, inl, inr, Bool, true, false, Option,
  Option-cases, none, some, List, [], ◌∷◌, ◌++◌, length, arith,
}
use gocrud.Outcome.{Outcome, ok, halt, ◌>>=◌}

abbrev pub Bytes : Type 0
Bytes = List ℕ

-- `text[from:]`, which panics beyond the end.
unfoldable pub slice_from : ℕ → Bytes → Outcome Bytes
slice_from zero text = ok text
slice_from (suc from) [] = halt "slice bounds out of range"
slice_from (suc from) (b ∷ text) = slice_from from text

-- `last_index` is strings.LastIndex, with none for -1.
module _ (last_index : Bytes → Bytes → Option ℕ) where
  unfoldable pub parse_id_from_url : Bytes → Bytes → Outcome (Bytes × Bool)
  parse_id_from_url url url_token = elim (last_index url url_token) [
    | none ↦ ok ([], false)
    | some idx ↦ do uid ← slice_from (idx + length url_token) url; ok (uid, true)
  ]

  -- The documentation of strings.LastIndex: where the last instance of the token begins, if there is one.
  pub record IsLastIndex : Type 0 where
    pub found :
        (url token : Bytes) (i : ℕ)
        → last_index url token ≡ some i
        → (before : Bytes) × (after : Bytes) × (url ≡ before ++ (token ++ after))
          × (length before ≡ i)
    pub last :
        (url token : Bytes) (i : ℕ) (before after : Bytes)
        → last_index url token ≡ some i
        → url ≡ before ++ (token ++ after)
        → length before ≤ i
    pub missing :
        (url token before after : Bytes)
        → last_index url token ≡ none
        → url ≡ before ++ (token ++ after)
        → ⊥

  slice_from-append :
      (before token after : Bytes)
      → slice_from (length before + length token) (before ++ (token ++ after)) ≡ ok after
  unfolding slice_from
  slice_from-append [] [] after = refl
  slice_from-append [] (b ∷ token) after =
      let e : 0 + suc (length token) ≡ suc (0 + length token) = omega arith in
      rw e (slice_from-append [] token after)
  slice_from-append (b ∷ before) token after =
      let e : suc (length before) + length token ≡ suc (length before + length token) =
        omega arith in
      rw e (slice_from-append before token after)

  -- ParseIdFromUrl never panics: it tells that the token does not occur in the path, or returns what stands
  -- behind the token where it occurs last.
  pub parse_id_from_url_lem :
      (url token : Bytes)
      → IsLastIndex
      → ((parse_id_from_url url token ≡ ok ([], false))
          × ((b a : Bytes) → url ≡ b ++ (token ++ a) → ⊥))
        ⊎ ((before : Bytes) × (id : Bytes) × (url ≡ before ++ (token ++ id))
            × (parse_id_from_url url token ≡ ok (id, true))
            × ((b a : Bytes) → url ≡ b ++ (token ++ a) → length b ≤ length before))
  unfolding parse_id_from_url
  parse_id_from_url_lem url token lawful = elim (Option-cases (last_index url token)) [
    | inl missing ↦
        inl (rw (missing, parse_id_from_url) refl, λ b a. lawful.missing url token b a missing)
    | inr (i, found) ↦
        let (before, id, at, len) = lawful.found url token i found in
        inr (
          before,
          id,
          at,
          rw (found, parse_id_from_url)
              (ap (λ o. o >>= λ uid. ok (uid, true))
                (ap (λ n. slice_from (n + length token) url) (sym len)
                  ∙ ap (slice_from (length before + length token)) at
                  ∙ slice_from-append before token id)),
          λ b a h. rw len (lawful.last url token i b a found h),
        )
  ]
