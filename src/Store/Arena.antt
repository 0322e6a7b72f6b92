-- ===== src/Store/Arena.antt =====
-- The pointers of store/update.go and store/query.go: a node is its index in a list of nodes.
pub mod Forest
use gocrud.Prelude.{
  ℕ, zero, suc, ◌<◌, ◌≡◌, ◌∙◌, refl, ap, subst, Option-cases, Option, none, some, List, [], ◌∷◌,
  ◌++◌, ◌⊎◌, inl, inr, map, arith, length, All, get_elem?,
}

module _ {A : Type 0} where
  -- `f` applied to the node behind a pointer.
  unfoldable pub modify : (A → A) → ℕ → List A → List A
  modify f n [] = []
  modify f zero (a ∷ ns) = f a ∷ ns
  modify f (suc n) (a ∷ ns) = a ∷ modify f n ns

  -- `for n.parent != nil { n = n.parent }`
  unfoldable pub root : (A → Option ℕ) → ℕ → List A → ℕ → Option ℕ
  root parent zero ns n = none
  root parent (suc f) ns n = elim (get_elem? ns n) [
    | none ↦ none
    | some a ↦ elim (parent a) [ none ↦ some n | some p ↦ root parent f ns p ]
  ]

  pub length-modify : (f : A → A) (n : ℕ) (ns : List A) → length (modify f n ns) ≡ length ns
  unfolding modify
  length-modify f n [] = refl
  length-modify f zero (a ∷ ns) = refl
  length-modify f (suc n) (a ∷ ns) = ap suc (length-modify f n ns)

  -- A write that leaves a field alone leaves the list of that field alone.
  pub map-modify {κ} :
      {B : Type κ} (g : A → B) (f : A → A) (n : ℕ) (ns : List A)
      → ((a : A) → g (f a) ≡ g a)
      → map g (modify f n ns) ≡ map g ns
  unfolding modify
  map-modify g f n [] keeps = refl
  map-modify g f zero (a ∷ ns) keeps = ap (λ b. b ∷ map g ns) (keeps a)
  map-modify g f (suc n) (a ∷ ns) keeps = ap (λ bs. g a ∷ bs) (map-modify g f n ns keeps)

module _ {ℓ} {A : Type ℓ} where
  pub get_elem?_found : (ns : List A) (n : ℕ) → n < length ns → (a : A) × (get_elem? ns n ≡ some a)
  get_elem?_found [] n h = elim h [ ]
  get_elem?_found (a ∷ ns) zero h = (a, refl)
  get_elem?_found (a ∷ ns) (suc n) h = get_elem?_found ns n (omega arith)

  pub get_elem?-map {κ} :
      {B : Type κ} (f : A → B) (ns : List A) (n : ℕ) {a : A}
      → get_elem? ns n ≡ some a
      → get_elem? (map f ns) n ≡ some (f a)
  get_elem?-map f [] n h = cc
  get_elem?-map f (b ∷ ns) zero h = cc
  get_elem?-map f (b ∷ ns) (suc n) h = get_elem?-map f ns n h

-- Every node stands above its parent in the arena.
abbrev pub ParentsBelow : List (Option ℕ) → Type 0
ParentsBelow ps = (n p : ℕ) → get_elem? ps n ≡ some (some p) → p < n

module _ {A : Type 0} (parent : A → Option ℕ) where
  -- A node with no parent, at which a climb from `n` ends.
  abbrev pub TopOf : ℕ → List A → ℕ → Type 0
  TopOf f ns n =
      (r : ℕ) × (a : A) × (root parent f ns n ≡ some r)
      × (get_elem? ns r ≡ some a)
      × (parent a ≡ none)

  -- A climb ends at a node of the arena.
  pub root-found :
      (f : ℕ) (ns : List A) (n : ℕ) {r : ℕ}
      → root parent f ns n ≡ some r
      → (a : A) × (get_elem? ns r ≡ some a)
  unfolding root
  root-found zero ns n h = cc
  root-found (suc f) ns n {r} h = elim (Option-cases (get_elem? ns n)) [
    | inl lost ↦ let e : none ≡ some r = rw (root, lost) at h in cc
    | inr (a, at) ↦ elim (Option-cases (parent a)) [
      | inl top ↦
          let e : some n ≡ some r = rw (root, top) at (rw (root, at) at h) in
          let same : n ≡ r = cc in (a, subst (λ k. get_elem? ns k ≡ some a) same at)
      | inr (p, up) ↦ root-found f ns p (rw (root, up) at (rw (root, at) at h))
    ]
  ]

  root_step :
      (f : ℕ) (ns : List A) (n : ℕ) (a : A) (q : Option ℕ)
      → get_elem? ns n ≡ some a
      → parent a ≡ q
      → ((p : ℕ) → q ≡ some p → TopOf f ns p)
      → TopOf (suc f) ns n
  unfolding root
  root_step f ns n a none e top up = (n, a, rw (e, root) (rw (top, root)), e, top)
  root_step f ns n a (some p) e top up =
      let (r, b, found, at_r, done) = up p refl in
      (r, b, rw (e, root) (rw (top, root) found), at_r, done)

  -- The climb ends, at a node that has no parent.
  pub root_total :
      (f : ℕ) (ns : List A) (n : ℕ)
      → n < f
      → n < length ns
      → ParentsBelow (map parent ns)
      → TopOf f ns n
  root_total zero ns n enough inside h = elim enough [ ]
  root_total (suc f) ns n enough inside h =
      let (a, e) = get_elem?_found ns n inside in
      root_step f ns n a (parent a) e refl λ p q.
        let lt : p < n = h n p (get_elem?-map parent ns n e ∙ ap some q) in
        root_total f ns p (omega arith) (omega arith) h

-- The children of every node stand above it, inside the arena.
abbrev pub ChildrenAbove : List (List ℕ) → Type 0
ChildrenAbove ls =
    (n : ℕ) (cs : List ℕ) → get_elem? ls n ≡ some cs → All (λ c. (n < c) × (c < length ls)) cs

module _ {ℓ} {A : Type ℓ} where
  pub lt_of_get_elem? : (ns : List A) (n : ℕ) {a : A} → get_elem? ns n ≡ some a → n < length ns
  lt_of_get_elem? [] n h = cc
  lt_of_get_elem? (b ∷ ns) zero h = omega arith
  lt_of_get_elem? (b ∷ ns) (suc n) h = omega (arith, lt_of_get_elem? ns n h)

  pub get_elem?-append_left :
      (ns ms : List A) (n : ℕ) {a : A} → get_elem? ns n ≡ some a → get_elem? (ns ++ ms) n ≡ some a
  get_elem?-append_left [] ms n h = cc
  get_elem?-append_left (b ∷ ns) ms zero h = h
  get_elem?-append_left (b ∷ ns) ms (suc n) h = get_elem?-append_left ns ms n h

  pub get_elem?-append_last : (ns : List A) (a : A) → get_elem? (ns ++ a ∷ []) (length ns) ≡ some a
  get_elem?-append_last [] a = refl
  get_elem?-append_last (b ∷ ns) a = get_elem?-append_last ns a

  -- A node of an arena with one more node is an old one or the last.
  pub get_elem?-append_cases :
      (ns : List A) (a : A) (n : ℕ) {b : A}
      → get_elem? (ns ++ a ∷ []) n ≡ some b
      → (get_elem? ns n ≡ some b) ⊎ ((n ≡ length ns) × (b ≡ a))
  get_elem?-append_cases [] a zero h = inr (refl, cc)
  get_elem?-append_cases [] a (suc n) h = cc
  get_elem?-append_cases (c ∷ ns) a zero h = inl h
  get_elem?-append_cases (c ∷ ns) a (suc n) h = elim (get_elem?-append_cases ns a n h) [
    | inl e ↦ inl e
    | inr (e, f) ↦ inr (ap suc e, f)
  ]

module _ {A : Type 0} where
  -- A node of an arena in which one was changed is an old one or the changed one.
  pub get_elem?-modify_cases :
      (f : A → A) (m : ℕ) (ns : List A) (n : ℕ) {b : A}
      → get_elem? (modify f m ns) n ≡ some b
      → (get_elem? ns n ≡ some b) ⊎ ((n ≡ m) × (a : A) × (get_elem? ns n ≡ some a) × (b ≡ f a))
  unfolding modify
  get_elem?-modify_cases f m [] n h = cc
  get_elem?-modify_cases f zero (c ∷ ns) zero h = inr (refl, c, refl, cc)
  get_elem?-modify_cases f zero (c ∷ ns) (suc n) h = inl h
  get_elem?-modify_cases f (suc m) (c ∷ ns) zero h = inl h
  get_elem?-modify_cases f (suc m) (c ∷ ns) (suc n) h = elim (get_elem?-modify_cases f m ns n h) [
    | inl e ↦ inl e
    | inr (e, a, found, changed) ↦ inr (ap suc e, a, found, changed)
  ]

  pub get_elem?-modify_same :
      (f : A → A) (n : ℕ) (ns : List A) {a : A}
      → get_elem? ns n ≡ some a
      → get_elem? (modify f n ns) n ≡ some (f a)
  unfolding modify
  get_elem?-modify_same f n [] h = cc
  get_elem?-modify_same f zero (c ∷ ns) h = cc
  get_elem?-modify_same f (suc n) (c ∷ ns) h = get_elem?-modify_same f n ns h

  pub map-modify_both :
      {B : Type 0} (g : A → B) (f : A → A) (f' : B → B) (n : ℕ) (ns : List A)
      → ((a : A) → g (f a) ≡ f' (g a))
      → map g (modify f n ns) ≡ modify f' n (map g ns)
  unfolding modify
  map-modify_both g f f' n [] e = refl
  map-modify_both g f f' zero (a ∷ ns) e = ap (λ b. b ∷ map g ns) (e a)
  map-modify_both g f f' (suc n) (a ∷ ns) e = ap (λ bs. g a ∷ bs) (map-modify_both g f f' n ns e)

  pub get_elem?-map_inv :
      {B : Type 0} (f : A → B) (ns : List A) (n : ℕ) {b : B}
      → get_elem? (map f ns) n ≡ some b
      → (a : A) × (get_elem? ns n ≡ some a) × (b ≡ f a)
  get_elem?-map_inv f [] n h = cc
  get_elem?-map_inv f (a ∷ ns) zero h = (a, refl, cc)
  get_elem?-map_inv f (a ∷ ns) (suc n) h = get_elem?-map_inv f ns n h

-- The parent and the children of a node.
abbrev pub Shape : Type 0
Shape = Option ℕ × List ℕ

-- The nodes form trees: a parent stands below its children, inside the arena, and a child's parent is
-- the node that lists it.
pub record IsForest (ss : List Shape) : Type 0 where
  pub below : (n p : ℕ) (s : Shape) → get_elem? ss n ≡ some s → s.0 ≡ some p → p < n
  pub above :
      (n : ℕ) (s : Shape)
      → get_elem? ss n ≡ some s
      → All (λ c. (n < c) × (c < length ss) × (get_elem? (map (λ t. t.0) ss) c ≡ some (some n))) s.1
