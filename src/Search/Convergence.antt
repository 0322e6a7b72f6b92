-- ===== src/Search/Convergence.antt =====
-- The index after many updates: each key holds the newest of the documents, in whichever order they came.
use gocrud.Prelude.{
  String, ◌≡◌, refl, sym, ◌∙◌, ap, subst, ◌⊎◌, inl, inr, false, Bool-cases, Option-cases, Option,
  none, some, List, [], ◌∷◌, Memᴰ, ◌==◌, ◌≤ℤ◌, leb_ℤ, le_of_leb_ℤ, le_of_not_leb_ℤ, ≤ℤ_trans,
  ≤ℤ_refl, ≤ℤ_antisym, arith, eq_iff, if◌then◌else◌,
}
use mathlib.Core.List.Memᴰ.{not-nil, cases_cons}
use gocrud.Prelude.Dict
use gocrud.Prelude.Dict.{lookup-insert}
use gocrud.Search.{Go, Doc, MemSearch, init, key, update}

module _ (G : Go) where
  -- The updates with a list of documents, in turn; a version conflict changes nothing.
  abbrev pub update_all : List (Doc G) → MemSearch G → MemSearch G
  update_all [] docs = docs
  update_all (d ∷ ds) docs = update_all ds (update G d docs).1

  -- What a key holds after an update.
  abbrev pub newer : Doc G → Option (Doc G) → Option (Doc G)
  newer d none = some d
  newer d (some o) = if leb_ℤ d.nano_ts o.nano_ts then some o else some d

  lookup-update_same :
      (d : Doc G) (docs : MemSearch G)
      → Dict.lookup (key G d) (update G d docs).1 ≡ newer d (Dict.lookup (key G d) docs)
  unfolding update
  lookup-update_same d docs = elim (Option-cases (Dict.lookup (key G d) docs)) [
    | inl free ↦
        rw (free, update)
          (ground (arith, lookup-insert (key G d) (key G d) d docs, eq_iff (key G d) (key G d)))
    | inr (o, held) ↦
        rw (held, update)
          (ground
            (arith, held, lookup-insert (key G d) (key G d) d docs, eq_iff (key G d) (key G d)))
  ]

  lookup-update_other :
      (k : String) (d : Doc G) (docs : MemSearch G)
      → (key G d == k) ≡ false
      → Dict.lookup k (update G d docs).1 ≡ Dict.lookup k docs
  unfolding update
  lookup-update_other k d docs other = elim (Option-cases (Dict.lookup (key G d) docs)) [
    | inl free ↦ rw (free, update) (ground (arith, lookup-insert (key G d) k d docs))
    | inr (o, held) ↦ rw (held, update) (ground (arith, lookup-insert (key G d) k d docs))
  ]

  other_key : (k : String) (d : Doc G) → (key G d == k) ≡ false → key G d ≡ k → ⊥
  other_key k d other e = let same = (eq_iff (key G d) k).1 e in cc

  lookup-update :
      (k : String) (d : Doc G) (docs : MemSearch G)
      → Dict.lookup k (update G d docs).1
        ≡ (if key G d == k then newer d (Dict.lookup k docs) else Dict.lookup k docs)
  lookup-update k d docs = elim (Bool-cases (key G d == k)) [
    | inl same ↦ rw same (
        subst (λ j. Dict.lookup j (update G d docs).1 ≡ newer d (Dict.lookup j docs))
          ((eq_iff (key G d) k).0 same) (lookup-update_same d docs))
    | inr other ↦ rw other (lookup-update_other k d docs other)
  ]

  module _ (k : String) where
    -- What a key holds is the newest of the documents of `P` with that key.
    abbrev pub IsNewest : (Doc G → Type 0) → Option (Doc G) → Type 0
    IsNewest P none = (d : Doc G) → P d → key G d ≡ k → ⊥
    IsNewest P (some w) =
        P w × (key G w ≡ k) × ((e : Doc G) → P e → key G e ≡ k → e.nano_ts ≤ℤ w.nano_ts)

    pub IsNewest-iff :
        (P Q : Doc G → Type 0) (o : Option (Doc G))
        → ((d : Doc G) → P d → Q d)
        → ((d : Doc G) → Q d → P d)
        → IsNewest P o
        → IsNewest Q o
    IsNewest-iff P Q none to back h = λ d q. h d (back d q)
    IsNewest-iff P Q (some w) to back h = (to w h.0, h.1, λ e q. h.2 e (back e q))

    IsNewest-newer :
        (P : Doc G → Type 0) (d : Doc G) (o : Option (Doc G))
        → key G d ≡ k
        → IsNewest P o
        → IsNewest (λ e. P e ⊎ (e ≡ d)) (newer d o)
    IsNewest-newer P d none same h = (
      inr refl,
      same,
      λ e m f. elim m [ inl p ↦ absurd (h e p f) | inr q ↦ rw q (≤ℤ_refl d.nano_ts) ],
    )
    IsNewest-newer P d (some w) same h = elim (Bool-cases (leb_ℤ d.nano_ts w.nano_ts)) [
      | inl old ↦ rw old (
        inl h.0,
        h.1,
        λ e m f. elim m [ inl p ↦ h.2 e p f | inr q ↦ rw q (le_of_leb_ℤ d.nano_ts w.nano_ts old) ],
      )
      | inr new ↦ rw new (
        inr refl,
        same,
        λ e m f. elim m [
          | inl p ↦
              ≤ℤ_trans e.nano_ts w.nano_ts d.nano_ts (h.2 e p f)
                (le_of_not_leb_ℤ d.nano_ts w.nano_ts new)
          | inr q ↦ rw q (≤ℤ_refl d.nano_ts)
        ],
      )
    ]

    IsNewest-other :
        (P : Doc G → Type 0) (d : Doc G) (o : Option (Doc G))
        → (key G d == k) ≡ false
        → IsNewest P o
        → IsNewest (λ e. P e ⊎ (e ≡ d)) o
    IsNewest-other P d none other h = λ e m f. elim m [
      | inl p ↦ h e p f
      | inr q ↦ absurd (other_key k d other (ap (key G) (sym q) ∙ f))
    ]
    IsNewest-other P d (some w) other h = (
      inl h.0,
      h.1,
      λ e m f. elim m [
        | inl p ↦ h.2 e p f
        | inr q ↦ absurd (other_key k d other (ap (key G) (sym q) ∙ f))
      ],
    )

    -- An update with one more document keeps the newest under each key.
    pub IsNewest-update :
        (P : Doc G → Type 0) (d : Doc G) (docs : MemSearch G)
        → IsNewest P (Dict.lookup k docs)
        → IsNewest (λ e. P e ⊎ (e ≡ d)) (Dict.lookup k (update G d docs).1)
    IsNewest-update P d docs h = rw (lookup-update k d docs) (elim (Bool-cases (key G d == k)) [
      | inl same ↦ rw same (IsNewest-newer P d (Dict.lookup k docs) ((eq_iff (key G d) k).0 same) h)
      | inr other ↦ rw other (IsNewest-other P d (Dict.lookup k docs) other h)
    ])

    pub IsNewest-update_all :
        (P : Doc G → Type 0) (ds : List (Doc G)) (docs : MemSearch G)
        → IsNewest P (Dict.lookup k docs)
        → IsNewest (λ e. P e ⊎ Memᴰ e ds) (Dict.lookup k (update_all ds docs))
    IsNewest-update_all P [] docs h =
        IsNewest-iff P (λ e. P e ⊎ Memᴰ e []) (Dict.lookup k docs) (λ d p. inl p)
          (λ d m. elim m [ inl p ↦ p | inr none_in ↦ absurd (not-nil none_in) ]) h
    IsNewest-update_all P (d ∷ ds) docs h =
        IsNewest-iff (λ e. (P e ⊎ (e ≡ d)) ⊎ Memᴰ e ds) (λ e. P e ⊎ Memᴰ e (d ∷ ds)) _
          (λ e m. elim m [
            | inl n ↦ elim n [ inl p ↦ inl p | inr q ↦ inr (Memᴰ.head q) ]
            | inr t ↦ inr (Memᴰ.tail t)
          ])
          (λ e m. elim m [
            | inl p ↦ inl (inl p)
            | inr n ↦ elim (cases_cons n) [ inl q ↦ inl (inr q) | inr t ↦ inr t ]
          ])
          (IsNewest-update_all (λ e. P e ⊎ (e ≡ d)) ds (update G d docs).1
            (IsNewest-update P d docs h))

    pub IsNewest-unique :
        (P : Doc G → Type 0) (o o' : Option (Doc G))
        → ((d e : Doc G) → P d → P e → key G d ≡ key G e → d.nano_ts ≡ e.nano_ts → d ≡ e)
        → IsNewest P o
        → IsNewest P o'
        → o ≡ o'
    IsNewest-unique P none none versioned h h' = refl
    IsNewest-unique P none (some w) versioned h h' = absurd (h w h'.0 h'.1)
    IsNewest-unique P (some w) none versioned h h' = absurd (h' w h.0 h.1)
    IsNewest-unique P (some v) (some w) versioned h h' = ap some (
        versioned v w h.0 h'.0 (h.1 ∙ sym h'.1)
          (≤ℤ_antisym v.nano_ts w.nano_ts (h'.2 v h.0 h.1) (h.2 w h'.0 h'.1)))

  -- The documents of a list differ in key or time, or are the same.
  abbrev pub IsVersioned : List (Doc G) → Type 0
  IsVersioned ds =
      (d e : Doc G) → Memᴰ d ds → Memᴰ e ds → key G d ≡ key G e → d.nano_ts ≡ e.nano_ts → d ≡ e

  -- What an empty index holds after updates under a key is the newest of their documents with that key.
  pub update_all-IsNewest :
      (k : String) (ds : List (Doc G))
      → IsNewest k (λ d. Memᴰ d ds) (Dict.lookup k (update_all ds (init G)))
  unfolding init Dict.lookup
  update_all-IsNewest k ds =
      IsNewest-iff k (λ e. ⊥ ⊎ Memᴰ e ds) (λ e. Memᴰ e ds) (Dict.lookup k (update_all ds (init G)))
        (λ d m. elim m [ inl p ↦ absurd p | inr n ↦ n ]) (λ d n. inr n)
        (IsNewest-update_all k (λ e. ⊥) ds (init G) (λ d p e. p))

  -- Two runs of updates with the same documents, in any orders and each document any number of times from
  -- one on, leave the same document under every key, if no two different documents have one key and time.
  pub update_all_converges :
      (ds es : List (Doc G))
      → IsVersioned ds
      → ((d : Doc G) → Memᴰ d ds → Memᴰ d es)
      → ((d : Doc G) → Memᴰ d es → Memᴰ d ds)
      → (k : String)
      → Dict.lookup k (update_all ds (init G)) ≡ Dict.lookup k (update_all es (init G))
  update_all_converges ds es versioned to back k =
      IsNewest-unique k (λ d. Memᴰ d ds) _ _ versioned (update_all-IsNewest k ds)
        (IsNewest-iff k (λ d. Memᴰ d es) (λ d. Memᴰ d ds) _ back to (update_all-IsNewest k es))
