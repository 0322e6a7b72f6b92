-- ===== src/Store/Update/Execute/Subjects.antt =====
-- Whose rows `doExecute` builds: those of the node it starts from and of the children it has introduced.

use mathlib.Core.List.{map-append}
use gocrud.Prelude.{
  ℕ, zero, suc, String, ◌≡◌, refl, sym, ap, ◌∙◌, subst, ◌⊎◌, inl, inr, Bool, Bool-cases,
  Option-cases, ◌==◌, Option, none, some, List, [], ◌∷◌, ◌++◌, map, Memᴰ, get_elem?, if◌then◌else◌,
}
use mathlib.Core.List.Memᴰ.{append_left, append_right}
use gocrud.Prelude.Dict.{Dict}
use gocrud.Outcome.{Outcome, ok, err, halt, pending}
use gocrud.Exec.{Exec, resume, ◌>>=◌, ◌>>◌}
use gocrud.X.{Instruction}
use gocrud.X.UniqueString.{Rand, unique_string}
use gocrud.Store.Arena.{get_elem?-modify_same}
use gocrud.Store.Update.{Json, Update}
use gocrud.Store.Update.Execute.{
  Run, property_row, child_row, parent_row, emit, deref, marshal, emit_edges, draw, draw_id,
  fresh_id, add_one, add_all, add_some, add_children, do_execute,
}

-- The id is that of the first node, or a row of the list has it.
abbrev pub IsKnown : String → List Instruction → String → Type 0
IsKnown top l id = (id ≡ top) ⊎ Memᴰ id (map (λ (i : Instruction). i.subject_id) l)

-- Each row is one of a node that is known from the rows before it, or is the edge back of a new child to
-- such a node.
pub data Tied (top : String) : List Instruction → Type 0 where
  nil : Tied top []
  own :
      {l : List Instruction} (i : Instruction)
      → Tied top l
      → IsKnown top l i.subject_id
      → Tied top (l ++ i ∷ [])
  child :
      {l : List Instruction} (i : Instruction)
      → Tied top l
      → i.predicate ≡ "_parent_"
      → IsKnown top l i.object_id
      → Tied top (l ++ i ∷ [])

IsKnown-more :
    (top : String) (l : List Instruction) (i : Instruction) (id : String)
    → IsKnown top l id
    → IsKnown top (l ++ i ∷ []) id
IsKnown-more top l i id (inl e) = inl e
IsKnown-more top l i id (inr m) = inr (
    subst (Memᴰ id) (sym (map-append (λ (i : Instruction). i.subject_id) l (i ∷ [])))
      (append_left (i.subject_id ∷ []) m))

IsKnown-last :
    (top : String) (l : List Instruction) (i : Instruction) → IsKnown top (l ++ i ∷ []) i.subject_id
IsKnown-last top l i = inr (
    subst (Memᴰ i.subject_id) (sym (map-append (λ (i : Instruction). i.subject_id) l (i ∷ [])))
      (append_right (map (λ (i : Instruction). i.subject_id) l) (Memᴰ.head refl)))

module _ {S A B : Type 0} (Q : S → Type 0) where
  resume-keeps :
      (o : Outcome A) (f : A → Exec S B) (t : S)
      → Q t
      → ((a : A) → o ≡ ok a → Q (f a t).1)
      → Q (resume o f t).1
  resume-keeps (ok a) f t here rest = rest a refl
  resume-keeps (err e) f t here rest = here
  resume-keeps (halt e) f t here rest = here
  resume-keeps pending f t here rest = here

  bind-keeps :
      (m : Exec S A) (f : A → Exec S B) (s : S)
      → Q (m s).1
      → ((a : A) → (m s).0 ≡ ok a → Q (f a (m s).1).1)
      → Q ((m >>= f) s).1
  bind-keeps m f s here rest = resume-keeps (m s).0 f (m s).1 here rest

module _ (J : Json) (R : Rand) (range : Dict J.Value → Dict J.Value) (is_new : String → Bool)
    (alpha : ℕ) (top : String) where
  -- The rows are tied, and those ids are still known.
  pub record Keeps (l : List Instruction) (s : Run J R) : Type 0 where
    pub tied : Tied top s.its
    pub known : (id : String) → IsKnown top l id → IsKnown top s.its id

  same_rows : (r s : Run J R) → s.its ≡ r.its → Tied top r.its → Keeps r.its s
  same_rows r s e t = record {
    tied = subst (Tied top) (sym e) t;
    known = λ id k. subst (λ l. IsKnown top l id) (sym e) k;
  }

  Keeps-after : (l : List Instruction) (r s : Run J R) → Keeps l r → Keeps r.its s → Keeps l s
  Keeps-after l r s h k = record { tied = k.tied; known = λ id i. k.known id (h.known id i) }

  emit_edges-Keeps :
      (n : Update J) (es : Dict J.Value) (r : Run J R)
      → Tied top r.its
      → IsKnown top r.its n.id
      → Keeps r.its (emit_edges J R range is_new alpha n es r).1
  unfolding emit_edges marshal emit property_row
  emit_edges-Keeps n [] r t k = same_rows r r refl t
  emit_edges-Keeps n ((pred, val) ∷ es) r t k = elim (Bool-cases (n.source == "")) [
    | inl unset ↦ rw unset (same_rows r r refl t)
    | inr authored ↦ rw authored (
        bind-keeps (Keeps r.its) (marshal J R range is_new alpha val) _ r (same_rows r r refl t)
          λ b _.
            let row = property_row J n pred b in
            let r' = record r { its = r.its ++ row ∷ [] } in
            Keeps-after r.its r' _
              (record { tied = own row t k; known = λ id i. IsKnown-more top r.its row id i })
              (emit_edges-Keeps n es r' (own row t k) (IsKnown-more top r.its row n.id k)))
  ]

  draw_id-its : (c : ℕ) (r : Run J R) → (draw_id J R range is_new alpha c r).1.its ≡ r.its
  unfolding draw_id
  draw_id-its c r = go (unique_string R alpha r.seed)
    where
      go : (d : Option String × R.Seed) → (draw J R range is_new alpha c d r).1.its ≡ r.its
      go (none, seed) = refl
      go (some id, seed) = refl

  -- The node holds the id that was drawn for it.
  abbrev Holds : ℕ → String → Run J R → Type 0
  Holds c id r = (u : Update J) × (get_elem? r.arena c ≡ some u) × (u.id ≡ id)

  draw_id-Holds :
      (c : ℕ) (r : Run J R) (u : Update J) (id : String)
      → get_elem? r.arena c ≡ some u
      → (draw_id J R range is_new alpha c r).0 ≡ ok id
      → Holds c id (draw_id J R range is_new alpha c r).1
  unfolding draw_id
  draw_id-Holds c r u id at h = go (unique_string R alpha r.seed) h
    where
      go :
          (d : Option String × R.Seed)
          → (draw J R range is_new alpha c d r).0 ≡ ok id
          → Holds c id (draw J R range is_new alpha c d r).1
      go (none, seed) h = cc
      go (some x, seed) h =
          (record u { id = x }, get_elem?-modify_same (λ v. record v { id = x }) c r.arena at, cc)

  fresh_id-Keeps :
      (k c : ℕ) (r : Run J R) (u : Update J)
      → get_elem? r.arena c ≡ some u
      → ((fresh_id J R range is_new alpha k c r).1.its ≡ r.its)
        × ((id : String)
            → (fresh_id J R range is_new alpha k c r).0 ≡ ok id
            → Holds c id (fresh_id J R range is_new alpha k c r).1)
  unfolding fresh_id
  fresh_id-Keeps zero c r u at = (refl, λ id h. cc)
  fresh_id-Keeps (suc k) c r u at =
      drawn (λ t v there. fresh_id-Keeps k c t v there) (draw_id J R range is_new alpha c r).0
        (draw_id J R range is_new alpha c r).1 (draw_id-its c r) (λ id. draw_id-Holds c r u id at)
    where
      drawn :
          ((t : Run J R) (v : Update J)
            → get_elem? t.arena c ≡ some v
            → ((fresh_id J R range is_new alpha k c t).1.its ≡ t.its)
              × ((id : String)
                  → (fresh_id J R range is_new alpha k c t).0 ≡ ok id
                  → Holds c id (fresh_id J R range is_new alpha k c t).1))
          → (o : Outcome String) (t : Run J R) → t.its ≡ r.its
          → ((id : String) → o ≡ ok id → Holds c id t)
          → let q =
              resume o
                (λ id.
                  let again = fresh_id J R range is_new alpha k c in
                  if is_new id then (λ r. (ok id, r)) else again)
                t in
            (q.1.its ≡ r.its) × ((id : String) → q.0 ≡ ok id → Holds c id q.1)
      drawn rest (ok x) t same holds = elim (Bool-cases (is_new x)) [
        | inl new ↦ rw new (same, holds)
        | inr old ↦
            let (v, there, e) = holds x refl in
            let (keeps, gives) = rest t v there in rw old (keeps ∙ same, gives)
      ]
      drawn rest (err e) t same holds = (same, λ id h. cc)
      drawn rest (halt e) t same holds = (same, λ id h. cc)
      drawn rest pending t same holds = (same, λ id h. cc)

  deref_keeps :
      (Q : Run J R → Type 0) (f : Update J → Exec (Run J R) Unit) (n : ℕ) (r : Run J R)
      → Q r
      → ((u : Update J) → get_elem? r.arena n ≡ some u → Q (f u r).1)
      → Q ((deref J R range is_new alpha n >>= f) r).1
  unfolding deref
  deref_keeps Q f n r here there = elim (Option-cases (get_elem? r.arena n)) [
    | inl lost ↦
        let read : deref J R range is_new alpha n r ≡ (halt "nil pointer dereference", r) =
          rw (lost, deref) refl in
        subst (λ p. Q (resume p.0 f p.1).1) (sym read) here
    | inr (u, at) ↦
        let read : deref J R range is_new alpha n r ≡ (ok u, r) = rw (at, deref) refl in
        subst (λ p. Q (resume p.0 f p.1).1) (sym read) (there u at)
  ]

  module _ (rec : ℕ → Exec (Run J R) Unit)
      (rec-Keeps : (c : ℕ) (r : Run J R)
        → Tied top r.its
        → ((u : Update J) → get_elem? r.arena c ≡ some u → IsKnown top r.its u.id)
        → Keeps r.its (rec c r).1) where
    -- The two rows of a new child, and the call on it.
    then_child :
        (n : Update J) (c : ℕ) (id kind : String) (r : Run J R)
        → Tied top r.its
        → IsKnown top r.its n.id
        → Holds c id r
        → Keeps r.its
            ((do
              emit J R range is_new alpha (child_row J n id kind)
              emit J R range is_new alpha (parent_row J n id kind)
              rec c)
              r).1
    unfolding emit child_row parent_row
    then_child n c id kind r t k (u, at, holds) =
        let down = child_row J n id kind in
        let up = parent_row J n id kind in
        let l = r.its ++ down ∷ [] in
        let r₂ = record r { its = l ++ up ∷ [] } in
        let t₂ : Tied top r₂.its =
          child up (own down t k) refl (IsKnown-more top r.its down n.id k) in
        let more : (x : String) → IsKnown top r.its x → IsKnown top r₂.its x =
          λ x i. IsKnown-more top l up x (IsKnown-more top r.its down x i) in
        Keeps-after r.its r₂ _ (record { tied = t₂; known = more })
          (rec-Keeps c r₂ t₂ λ v there.
            let same : u ≡ v = cc (at, there) in
            subst (IsKnown top r₂.its) (sym holds ∙ ap (λ (w : Update J). w.id) same)
              (IsKnown-last top l up))

    add_one-Keeps :
        (n : Update J) (c : ℕ) (r : Run J R)
        → Tied top r.its
        → IsKnown top r.its n.id
        → Keeps r.its (add_one J R range is_new alpha rec n c r).1
    unfolding add_one
    add_one-Keeps n c r t k = deref_keeps (Keeps r.its) _ c r (same_rows r r refl t) λ u at.
        elim (Bool-cases (u.id == "")) [
          | inr taken ↦ rw taken (same_rows r r refl t)
          | inl unset ↦
              let (same, gives) = fresh_id-Keeps 31 c r u at in
              let s = (fresh_id J R range is_new alpha 31 c r).1 in
              let k₁ = same_rows r s same t in
              rw unset (
                bind-keeps (Keeps r.its) (fresh_id J R range is_new alpha 31 c) _ r k₁ λ id h.
                  Keeps-after r.its s _ k₁
                    (then_child n c id u.kind s k₁.tied (k₁.known n.id k) (gives id h)))
        ]

    add_all-Keeps :
        (n : Update J) (cs : List ℕ) (r : Run J R)
        → Tied top r.its
        → IsKnown top r.its n.id
        → Keeps r.its (add_all J R range is_new alpha rec n cs r).1
    unfolding add_all
    add_all-Keeps n [] r t k = same_rows r r refl t
    add_all-Keeps n (c ∷ cs) r t k =
        let first = add_one-Keeps n c r t k in
        bind-keeps (Keeps r.its) (add_one J R range is_new alpha rec n c) _ r first
          λ _ _. Keeps-after r.its _ _ first (add_all-Keeps n cs _ first.tied (first.known n.id k))

    add_some-Keeps :
        (n : Update J) (cs : List ℕ) (r : Run J R)
        → Tied top r.its
        → IsKnown top r.its n.id
        → Keeps r.its (add_some J R range is_new alpha rec n cs r).1
    unfolding add_some
    add_some-Keeps n [] r t k = same_rows r r refl t
    add_some-Keeps n (c ∷ cs) r t k = elim (Bool-cases (n.source == "")) [
      | inl unset ↦ rw unset (same_rows r r refl t)
      | inr authored ↦ rw authored (add_all-Keeps n (c ∷ cs) r t k)
    ]

  -- If the node's id is known, the rows that `doExecute` adds are tied to the nodes known before them,
  -- however the call ends.
  pub do_execute-Keeps :
      (f n : ℕ) (r : Run J R)
      → Tied top r.its
      → ((u : Update J) → get_elem? r.arena n ≡ some u → IsKnown top r.its u.id)
      → Keeps r.its (do_execute J R range is_new alpha f n r).1
  unfolding do_execute add_children
  do_execute-Keeps zero n r t k = same_rows r r refl t
  do_execute-Keeps (suc f) n r t k = deref_keeps (Keeps r.its) _ n r (same_rows r r refl t) λ u at.
      let edges = emit_edges-Keeps u (range u.edges) r t (k u at) in
      bind-keeps (Keeps r.its) (emit_edges J R range is_new alpha u (range u.edges)) _ r edges
        λ _ _. Keeps-after r.its _ _ edges (
          add_some-Keeps (do_execute J R range is_new alpha f) (do_execute-Keeps f) u u.children _
            edges.tied (edges.known u.id (k u at)))
