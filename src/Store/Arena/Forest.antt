-- ===== src/Store/Arena/Forest.antt =====
-- A forest stays one when a node, or a child of a node, is added at the end of the arena.
use gocrud.Prelude.{
  ℕ, ◌+◌, ◌<◌, ◌≡◌, refl, ◌∙◌, sym, ap, subst, Option, none, some, List, [], ◌∷◌, ◌++◌, map, All,
  All-append, length, length-append, length-map, arith, get_elem?, inl, inr,
}
use mathlib.Core.List.{map-append}
use gocrud.Store.Arena.{
  modify, Shape, IsForest, length-modify, map-modify, get_elem?-append_cases, get_elem?-append_left,
  get_elem?-append_last, get_elem?-modify_cases, get_elem?-map_inv, ParentsBelow, ChildrenAbove,
}

parents : List Shape → List (Option ℕ)
parents = map (λ t. t.0)

All-imp : {P Q : ℕ → Type 0} (cs : List ℕ) → ((c : ℕ) → P c → Q c) → All P cs → All Q cs
All-imp [] f h = tt
All-imp (c ∷ cs) f h = (f c h.0, All-imp cs f h.1)

-- The node that `new_update` makes.
pub IsForest-append_root : (ss : List Shape) → IsForest ss → IsForest (ss ++ (none, []) ∷ [])
IsForest-append_root ss h = record {
  below = λ n p s e up. elim (get_elem?-append_cases ss (none, []) n e) [
    | inl old ↦ h.below n p s old up
    | inr (_, new) ↦ cc (up, ap (λ (t : Shape). t.0) new)
  ];
  above = λ n s e. elim (get_elem?-append_cases ss (none, []) n e) [
    | inl old ↦
        All-imp s.1
          (λ c (lt, inside, back). (
            lt,
            omega (arith, length-append ss ((none, []) ∷ [])),
            rw map-append (get_elem?-append_left _ _ c back),
          ))
          (h.above n s old)
    | inr (_, new) ↦ rw new tt
  ];
}

module _ (ss : List Shape) (n : ℕ) (inside : n < length ss) (h : IsForest ss) where
  grow : Shape → Shape
  grow s = (s.0, s.1 ++ length ss ∷ [])

  parents-add_child : parents (modify grow n ss ++ (some n, []) ∷ []) ≡ parents ss ++ some n ∷ []
  unfolding grow parents
  parents-add_child =
      map-append (λ (t : Shape). t.0) (modify grow n ss) ((some n, []) ∷ [])
      ∙ ap (λ l. l ++ some n ∷ []) (map-modify (λ (t : Shape). t.0) grow n ss (λ t. refl))

  length-add_child : length (modify grow n ss ++ (some n, []) ∷ []) ≡ length ss + 1
  length-add_child =
      omega (arith, length-append (modify grow n ss) ((some n, []) ∷ []), length-modify grow n ss)

  abbrev NodeOf : ℕ → Shape → Type 0
  NodeOf m s =
      All
        (λ c.
          (m < c)
          × (c < length (modify grow n ss ++ (some n, []) ∷ []))
          × (get_elem? (parents (modify grow n ss ++ (some n, []) ∷ [])) c ≡ some (some m)))
        s.1

  old_child : (m : ℕ) (s : Shape) → get_elem? ss m ≡ some s → NodeOf m s
  unfolding parents
  old_child m s e =
      All-imp s.1
        (λ c k. (
          k.0,
          omega (arith, k.1, length-add_child),
          subst (λ l. get_elem? l c ≡ some (some m)) (sym parents-add_child)
              (get_elem?-append_left (parents ss) _ c k.2),
        ))
        (h.above m s e)

  new_child : (m : ℕ) (a : Shape) → m ≡ n → get_elem? ss m ≡ some a → NodeOf m (grow a)
  unfolding grow parents
  new_child m a at e = All-append _ a.1 (length ss ∷ []) (old_child m a e) (
    (
      omega arith,
      omega (arith, length-add_child),
      subst (λ l. get_elem? l (length ss) ≡ some (some m)) (sym parents-add_child)
          (subst (λ k. get_elem? (parents ss ++ some n ∷ []) k ≡ some (some m)) (length-map ss _)
            (get_elem?-append_last (parents ss) (some n) ∙ ap (λ k. some (some k)) (sym at))),
    ),
    tt,
  )

  below_add :
      (m p : ℕ) (s : Shape)
      → get_elem? (modify grow n ss ++ (some n, []) ∷ []) m ≡ some s
      → s.0 ≡ some p
      → p < m
  unfolding grow
  below_add m p s e up = elim (get_elem?-append_cases (modify grow n ss) (some n, []) m e) [
    | inl old ↦ elim (get_elem?-modify_cases grow n ss m old) [
      | inl same ↦ h.below m p s same up
      | inr (_, a, found, changed) ↦
          h.below m p a found (sym (ap (λ (t : Shape). t.0) changed) ∙ up)
    ]
    | inr (last, new) ↦
        let top : some n ≡ some p = sym (ap (λ (t : Shape). t.0) new) ∙ up in
        ground (arith, length-modify grow n ss)
  ]

  -- The node that `AddChild` makes below `n`, which is in the arena.
  pub IsForest-add_child :
      IsForest (modify (λ s. (s.0, s.1 ++ length ss ∷ [])) n ss ++ (some n, []) ∷ [])
  unfolding grow parents
  IsForest-add_child = record {
    below = below_add;
    above = λ m s e. elim (get_elem?-append_cases (modify grow n ss) (some n, []) m e) [
      | inl old ↦ elim (get_elem?-modify_cases grow n ss m old) [
        | inl same ↦ old_child m s same
        | inr (at, a, found, changed) ↦ rw changed (new_child m a at found)
      ]
      | inr (_, new) ↦ rw new tt
    ];
  }

-- What the proofs about `root` and about the loops over children use.
pub IsForest-ParentsBelow : (ss : List Shape) → IsForest ss → ParentsBelow (map (λ t. t.0) ss)
IsForest-ParentsBelow ss h n p e =
    let (s, found, up) = get_elem?-map_inv (λ (t : Shape). t.0) ss n e in
    h.below n p s found (sym up)

pub IsForest-ChildrenAbove : (ss : List Shape) → IsForest ss → ChildrenAbove (map (λ t. t.1) ss)
IsForest-ChildrenAbove ss h n cs e =
    let (s, found, down) = get_elem?-map_inv (λ (t : Shape). t.1) ss n e in
    rw down (
      All-imp s.1 (λ c k. (k.0, omega (arith, k.1, length-map ss (λ (t : Shape). t.1))))
        (h.above n s found))
