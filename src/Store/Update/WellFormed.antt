-- ===== src/Store/Update/WellFormed.antt =====
-- Every operation that builds updates keeps the arena a forest, so that the climb to a root and the
-- walks over children end.
use mathlib.Core.List.{map-append, map-map}
use gocrud.Prelude.{
  ℕ, zero, suc, ◌<◌, String, ◌≡◌, refl, ◌∙◌, sym, ap, subst, some, List, [], ◌∷◌, ◌++◌, map, length,
  length-map, ℤ, arith, get_elem?, Option-cases, inl, inr,
}
use gocrud.Outcome.{Outcome, ok}
use gocrud.Store.Arena.{
  modify, Shape, IsForest, map-modify, map-modify_both, ParentsBelow, ChildrenAbove, TopOf,
  root_total, lt_of_get_elem?, length-modify, get_elem?_found, get_elem?-modify_same,
  get_elem?-append_left, get_elem?-append_last,
}
use gocrud.Store.Arena.Forest.{
  IsForest-append_root, IsForest-add_child, IsForest-ParentsBelow, IsForest-ChildrenAbove,
}
use gocrud.Store.Update.{
  Json, Update, Updates, new_update, set_source, child_of, add_child, set, stamp_all, stamp,
  set_commit_ts,
}

module _ (J : Json) where
  abbrev pub shape : Update J → Shape
  shape u = (u.parent, u.children)

  abbrev pub IsTree : Updates J → Type 0
  IsTree us = IsForest (map shape us)

  pub IsTree-new_update :
      (kind id : String) (now : ℤ) (us : Updates J)
      → IsTree us
      → IsTree (new_update J kind id now us).0
  unfolding new_update
  IsTree-new_update kind id now us h = rw map-append (IsForest-append_root (map shape us) h)

  IsTree-modify :
      (f : Update J → Update J) (n : ℕ) (us : Updates J)
      → ((u : Update J) → shape (f u) ≡ shape u)
      → IsTree us
      → IsTree (modify f n us)
  IsTree-modify f n us keeps h = subst IsForest (sym (map-modify shape f n us keeps)) h

  pub IsTree-set :
      (property : String) (v : J.Value) (n : ℕ) (us : Updates J)
      → IsTree us
      → IsTree (set J property v n us)
  unfolding set
  IsTree-set property v n us = IsTree-modify _ n us λ u. refl

  pub IsTree-set_source :
      (source : String) (n : ℕ) (us : Updates J) → IsTree us → IsTree (set_source J source n us)
  unfolding set_source
  IsTree-set_source source n us = IsTree-modify _ n us λ u. refl

  stamp_all-IsTree :
      (step : ℕ → Updates J → Updates J)
      → ((c : ℕ) (us : Updates J) → IsTree us → IsTree (step c us))
      → (cs : List ℕ) (us : Updates J) → IsTree us
      → IsTree (stamp_all J step cs us)
  unfolding stamp_all
  stamp_all-IsTree step keeps [] us h = h
  stamp_all-IsTree step keeps (c ∷ cs) us h =
      stamp_all-IsTree step keeps cs (step c us) (keeps c us h)

  stamp-IsTree : (f : ℕ) (ts : ℤ) (n : ℕ) (us : Updates J) → IsTree us → IsTree (stamp J f ts n us)
  unfolding stamp
  stamp-IsTree zero ts n us h = h
  stamp-IsTree (suc f) ts n us h = elim (Option-cases (get_elem? us n)) [
    | inl e ↦ rw (e, stamp) h
    | inr (u, e) ↦
        rw (e, stamp)
          (stamp_all-IsTree (stamp J f ts) (stamp-IsTree f ts) u.children _
            (IsTree-modify _ n us (λ v. refl) h))
  ]

  pub IsTree-set_commit_ts :
      (ts : ℤ) (n : ℕ) (us : Updates J) → IsTree us → IsTree (set_commit_ts J ts n us)
  unfolding set_commit_ts
  IsTree-set_commit_ts ts n us h = elim (Option-cases (get_elem? us n)) [
    | inl e ↦ rw (e, set_commit_ts) h
    | inr (u, e) ↦ elim (Option-cases u.parent) [
      | inl top ↦
          rw (e, set_commit_ts) (rw (top, set_commit_ts) (stamp-IsTree (length us) ts n us h))
      | inr (p, under) ↦ rw (e, set_commit_ts) (rw (under, set_commit_ts) h)
    ]
  ]

  add_child-shapes :
      (kind : String) (n : ℕ) (u : Update J) (us : Updates J)
      → map shape (
          modify (λ v. record v { children = v.children ++ length us ∷ [] }) n us
          ++ child_of J kind n u ∷ [])
        ≡ modify (λ (s : Shape). (s.0, s.1 ++ length (map shape us) ∷ [])) n (map shape us)
          ++ (some n, []) ∷ []
  unfolding child_of
  add_child-shapes kind n u us =
      map-append shape _ _
      ∙ ap (λ l. l ++ (some n, []) ∷ [])
          (map-modify_both shape _ _ n us
            (λ v. ap (λ k. (v.parent, v.children ++ k ∷ [])) (sym (length-map us shape))))

  -- The node keeps all but its children, which the new one joins as the last; the new one hangs below it,
  -- at the end of the arena, where the call says it is, without an id and with the node's author and time.
  pub record IsLinked (kind : String) (n : ℕ) (us : Updates J) (o : Outcome ℕ) (vs : Updates J)
      : Type 0 where
    pub node : Update J
    pub child : Update J
    pub was : get_elem? us n ≡ some node
    pub answer : o ≡ ok (length us)
    pub above : get_elem? vs n ≡ some (record node { children = node.children ++ length us ∷ [] })
    pub below : get_elem? vs (length us) ≡ some child
    pub parent : child.parent ≡ some n
    pub kind_ : child.kind ≡ kind
    pub no_id : child.id ≡ ""
    pub source : child.source ≡ node.source
    pub time : child.nano_ts ≡ node.nano_ts
    pub no_children : child.children ≡ []

  add_child-shape :
      (kind : String) (n : ℕ) (us : Updates J) → IsTree us → IsTree (add_child J kind n us).1
  unfolding add_child
  add_child-shape kind n us h = elim (Option-cases (get_elem? us n)) [
    | inl e ↦ rw (e, add_child) h
    | inr (u, e) ↦
        rw (e, add_child)
          (subst IsForest (sym (add_child-shapes kind n u us)) (
            IsForest-add_child (map shape us) n
              (omega (arith, lt_of_get_elem? us n e, length-map us shape)) h))
  ]

  add_child-IsLinked :
      (kind : String) (n : ℕ) (us : Updates J)
      → n < length us
      → IsLinked kind n us (add_child J kind n us).0 (add_child J kind n us).1
  unfolding add_child child_of
  add_child-IsLinked kind n us inside =
      let (u, e) = get_elem?_found us n inside in
      let grown =
        modify (λ (v : Update J). record v { children = v.children ++ length us ∷ [] }) n us in
      let same_length : length grown ≡ length us = length-modify _ n us in
      let last : Update J = record {
        kind = kind;
        id = "";
        source = u.source;
        children = [];
        parent = some n;
        edges = [];
        nano_ts = u.nano_ts;
      } in
      rw (e, add_child)
        (record {
          node = u;
          child = last;
          was = e;
          answer = refl;
          above = get_elem?-append_left grown (last ∷ []) n (get_elem?-modify_same _ n us e);
          below =
              subst (λ k. get_elem? (grown ++ last ∷ []) k ≡ some last) same_length
                (get_elem?-append_last grown last);
          parent = refl;
          kind_ = refl;
          no_id = refl;
          source = refl;
          time = refl;
          no_children = refl;
        })

  -- `AddChild` keeps the updates a forest, and for a node of the arena it links both ways: the new update
  -- stands last among the children of the node, has the node as its parent, the kind asked for, no id,
  -- no children, and the author and time of the node.
  pub IsTree-add_child :
      (kind : String) (n : ℕ) (us : Updates J)
      → IsTree us
      → n < length us
      → IsTree (add_child J kind n us).1
        × IsLinked kind n us (add_child J kind n us).0 (add_child J kind n us).1
  IsTree-add_child kind n us h inside =
      (add_child-shape kind n us h, add_child-IsLinked kind n us inside)

  -- The climb from a node to its root ends, at a node with no parent.
  pub root-IsTree :
      (us : Updates J) (n : ℕ)
      → IsTree us
      → n < length us
      → TopOf (λ (u : Update J). u.parent) (length us) us n
  root-IsTree us n h inside =
      root_total _ (length us) us n inside inside
        (subst ParentsBelow (map-map _ shape us) (IsForest-ParentsBelow (map shape us) h))

  pub links-IsTree : (us : Updates J) → IsTree us → ChildrenAbove (map (λ u. u.children) us)
  links-IsTree us h =
      subst ChildrenAbove (map-map _ shape us) (IsForest-ChildrenAbove (map shape us) h)
