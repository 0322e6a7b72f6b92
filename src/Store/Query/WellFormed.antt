-- ===== src/Store/Query/WellFormed.antt =====
-- Building queries keeps the arena a forest, and `Collect` gives one child for each kind.
use mathlib.Core.List.{map-append, map-map}
use gocrud.Prelude.{
  ℕ, String, ◌≡◌, ◌∙◌, sym, ap, subst, some, [], ◌∷◌, ◌++◌, map, length, length-map, arith,
  get_elem?, Option-cases, inl, inr,
}
use gocrud.Store.Arena.{
  modify, Shape, IsForest, map-modify_both, ParentsBelow, ChildrenAbove, lt_of_get_elem?,
}
use gocrud.Store.Arena.Forest.{
  IsForest-append_root, IsForest-add_child, IsForest-ParentsBelow, IsForest-ChildrenAbove,
}
use gocrud.Store.Query.{Query, Queries, new_query, find_kind, collected, collect}

abbrev pub shape : Query → Shape
shape q = (q.parent, q.children)

abbrev pub IsTree : Queries → Type 0
IsTree qs = IsForest (map shape qs)

pub IsTree-new_query : (id : String) (qs : Queries) → IsTree qs → IsTree (new_query id qs).0
unfolding new_query
IsTree-new_query id qs h = rw map-append (IsForest-append_root (map shape qs) h)

collect-shapes :
    (kind : String) (n : ℕ) (q : Query) (qs : Queries)
    → map shape (
        modify (λ p. record p { children = p.children ++ length qs ∷ [] }) n qs
        ++ collected kind n q ∷ [])
      ≡ modify (λ (s : Shape). (s.0, s.1 ++ length (map shape qs) ∷ [])) n (map shape qs)
        ++ (some n, []) ∷ []
unfolding collected
collect-shapes kind n q qs =
    map-append shape _ _
    ∙ ap (λ l. l ++ (some n, []) ∷ [])
        (map-modify_both shape _ _ n qs
          (λ p. ap (λ k. (p.parent, p.children ++ k ∷ [])) (sym (length-map qs shape))))

-- `Collect` keeps the queries a forest, whether it finds the child or makes it.
pub IsTree-collect :
    (kind : String) (n : ℕ) (qs : Queries) → IsTree qs → IsTree (collect kind n qs).1
unfolding collect
IsTree-collect kind n qs h = elim (Option-cases (get_elem? qs n)) [
  | inl e ↦ rw (e, collect) h
  | inr (q, e) ↦
      rw (e, collect)
        (elim (Option-cases (find_kind kind qs q.children)) [
          | inr (c, old) ↦ rw old h
          | inl new ↦ rw new (
              subst IsForest (sym (collect-shapes kind n q qs)) (
                IsForest-add_child (map shape qs) n
                  (omega (arith, lt_of_get_elem? qs n e, length-map qs shape)) h))
        ])
]

pub parents-IsTree : (qs : Queries) → IsTree qs → ParentsBelow (map (λ (q : Query). q.parent) qs)
parents-IsTree qs h =
    subst ParentsBelow (map-map _ shape qs) (IsForest-ParentsBelow (map shape qs) h)

pub children-IsTree :
    (qs : Queries) → IsTree qs → ChildrenAbove (map (λ (q : Query). q.children) qs)
children-IsTree qs h =
    subst ChildrenAbove (map-map _ shape qs) (IsForest-ChildrenAbove (map shape qs) h)
