-- ===== src/Tests/Texts.antt =====
-- A search for the last instance of a token, and a path that is parsed with it.
use gocrud.Prelude.{
  ℕ, suc, ◌≤◌, ◌≡◌, refl, ap, ◌∙◌, ◌⊎◌, inl, inr, true, false, ◌&&◌, leb, Option, Option-cases,
  none, some, [], ◌∷◌, ◌++◌, length, arith, if◌then◌else◌,
}
use gocrud.Outcome.{ok}
use gocrud.X.Url.{Bytes, parse_id_from_url, IsLastIndex, parse_id_from_url_lem}

-- What follows a prefix.
abbrev after_prefix : Bytes → Bytes → Option Bytes
after_prefix [] text = some text
after_prefix (t ∷ token) [] = none
after_prefix (t ∷ token) (b ∷ text) =
    let rest = after_prefix token text in if leb t b && leb b t then rest else none

after_prefix-some : (token text r : Bytes) → after_prefix token text ≡ some r → text ≡ token ++ r
after_prefix-some [] text r h = cc
after_prefix-some (t ∷ token) [] r h = cc
after_prefix-some (t ∷ token) (b ∷ text) r h = ground (arith, after_prefix-some token text r)

after_prefix-append : (token r : Bytes) → after_prefix token (token ++ r) ≡ some r
after_prefix-append [] r = refl
after_prefix-append (t ∷ token) r = ground (arith, after_prefix-append token r)

abbrev or_here : Option Bytes → Option ℕ → Option ℕ
or_here here (some i) = some (suc i)
or_here (some r) none = some 0
or_here none none = none

abbrev last_index : Bytes → Bytes → Option ℕ
last_index [] token = or_here (after_prefix token []) none
last_index (b ∷ url) token = or_here (after_prefix token (b ∷ url)) (last_index url token)

last_index-found :
    (url token : Bytes) (i : ℕ)
    → last_index url token ≡ some i
    → (before : Bytes) × (after : Bytes) × (url ≡ before ++ (token ++ after)) × (length before ≡ i)
last_index-found [] token i h = elim (Option-cases (after_prefix token [])) [
  | inl absent ↦ let e : none ≡ some i = rw (absent, last_index) at h in cc
  | inr (r, present) ↦
      let e : some 0 ≡ some i = rw (present, last_index) at h in
      ([], r, after_prefix-some token [] r present, cc)
]
last_index-found (b ∷ url) token i h = elim (Option-cases (last_index url token)) [
  | inr (j, later) ↦
      let (before, after, at, len) = last_index-found url token j later in
      let e : some (suc j) ≡ some i = rw later at h in
      (b ∷ before, after, ap (λ l. b ∷ l) at, ap suc len ∙ cc)
  | inl none_later ↦ elim (Option-cases (after_prefix token (b ∷ url))) [
    | inl absent ↦ let e : none ≡ some i = rw (none_later, absent) at h in cc
    | inr (r, present) ↦
        let e : some 0 ≡ some i = rw (none_later, present) at h in
        ([], r, after_prefix-some token (b ∷ url) r present, cc)
  ]
]

last_index-none :
    (url token before after : Bytes)
    → last_index url token ≡ none
    → url ≡ before ++ (token ++ after)
    → ⊥
last_index-none [] token [] after h at =
    let e : after_prefix token [] ≡ some after =
      ap (after_prefix token) at ∙ after_prefix-append token after in
    let f : ◌≡◌ {A = Option ℕ} (some 0) none = rw (e, last_index) at h in cc
last_index-none [] token (c ∷ before) after h at = cc
last_index-none (b ∷ url) token [] after h at = elim (Option-cases (last_index url token)) [
  | inr (j, later) ↦ let e : some (suc j) ≡ none = rw later at h in cc
  | inl none_later ↦
      let e : after_prefix token (b ∷ url) ≡ some after =
        ap (after_prefix token) at ∙ after_prefix-append token after in
      let f : ◌≡◌ {A = Option ℕ} (some 0) none = rw (none_later, e) at h in cc
]
last_index-none (b ∷ url) token (c ∷ before) after h at =
    elim (Option-cases (last_index url token)) [
      | inr (j, later) ↦ let e : some (suc j) ≡ none = rw later at h in cc
      | inl none_later ↦ last_index-none url token before after none_later (cc)
    ]

last_index-some :
    (url token : Bytes) (i : ℕ) (before after : Bytes)
    → last_index url token ≡ some i
    → url ≡ before ++ (token ++ after)
    → length before ≤ i
last_index-some url token i [] after h at = omega arith
last_index-some [] token i (c ∷ before) after h at = cc
last_index-some (b ∷ url) token i (c ∷ before) after h at =
    let rest : url ≡ before ++ (token ++ after) = cc in
    elim (Option-cases (last_index url token)) [
      | inr (j, later) ↦
          let e : some (suc j) ≡ some i = rw later at h in
          let f : suc j ≡ i = cc in
          omega (arith, f, last_index-some url token j before after later rest)
      | inl none_later ↦ absurd (last_index-none url token before after none_later rest)
    ]

last_index-IsLastIndex : IsLastIndex last_index
last_index-IsLastIndex = record {
  found = last_index-found;
  last = last_index-some;
  missing = last_index-none;
}

-- "/b/" is 1, the path is 1 2 1 3.
parse_id_from_url_lem_example :
    ((parse_id_from_url last_index (1 ∷ 2 ∷ 1 ∷ 3 ∷ []) (1 ∷ []) ≡ ok ([], false))
      × ((b a : Bytes) → 1 ∷ 2 ∷ 1 ∷ 3 ∷ [] ≡ b ++ ((1 ∷ []) ++ a) → ⊥))
    ⊎ ((before : Bytes) × (id : Bytes) × (1 ∷ 2 ∷ 1 ∷ 3 ∷ [] ≡ before ++ ((1 ∷ []) ++ id))
        × (parse_id_from_url last_index (1 ∷ 2 ∷ 1 ∷ 3 ∷ []) (1 ∷ []) ≡ ok (id, true))
        × ((b a : Bytes) → 1 ∷ 2 ∷ 1 ∷ 3 ∷ [] ≡ b ++ ((1 ∷ []) ++ a) → length b ≤ length before))
parse_id_from_url_lem_example =
    parse_id_from_url_lem last_index (1 ∷ 2 ∷ 1 ∷ 3 ∷ []) (1 ∷ []) last_index-IsLastIndex
