-- ===== src/Store/Update/Execute/Terminates.antt =====
-- `doExecute` returns on every tree: fuel for the nodes of the arena is enough.
use gocrud.Prelude.{
  ℕ, zero, suc, ◌+◌, ◌≤◌, ◌<◌, String, ◌≡◌, refl, ◌≢◌, ◌∙◌, Bool, true, false, Bool-cases,
  Option-cases, inl, inr, ◌==◌, Option, none, some, List, [], ◌∷◌, map, All, length, arith,
  get_elem?, subst, length-map,
}
use gocrud.Prelude.Dict.{Dict}
use gocrud.Outcome.{value, ok, pending, lift-ne-pending}
use gocrud.Exec.{Exec, bind-ne-pending}
use gocrud.X.{Instruction}
use gocrud.X.UniqueString.{Rand, unique_string}
use gocrud.Store.Arena.{map-modify, get_elem?-map, ChildrenAbove}
use gocrud.Store.Update.{Json, Update}
use gocrud.Store.Update.Execute.Moves.{
  emit_edges-moves, fresh_id-moves, add_one-moves, do_execute-moves,
}
use gocrud.Store.Update.Execute.{
  Run, property_row, child_row, parent_row, emit, deref, marshal, emit_edges, draw, draw_id,
  fresh_id, add_one, add_all, add_some, add_children, do_execute,
}

abbrev pub links : {J : Json} → List (Update J) → List (List ℕ)
links = map (λ u. u.children)

module _ (J : Json) (R : Rand) (range : Dict J.Value → Dict J.Value) (is_new : String → Bool)
    (alpha : ℕ) where
  -- The same nodes, with the same children.
  pub record SameLinks (r s : Run J R) : Type 0 where
    pub same : links s.arena ≡ links r.arena

  SameLinks-refl : (r : Run J R) → SameLinks r r
  SameLinks-refl r = record { same = refl }

  draw_id-SameLinks : (c : ℕ) (r : Run J R) → SameLinks r (draw_id J R range is_new alpha c r).1
  unfolding draw_id
  draw_id-SameLinks c r = go (unique_string R alpha r.seed)
    where
      go : (d : Option String × R.Seed) → SameLinks r (draw J R range is_new alpha c d r).1
      go (none, seed) = record { same = refl }
      go (some id, seed) = record { same = map-modify _ _ c r.arena (λ u. refl) }

  SameLinks-trans : (r s t : Run J R) → SameLinks r s → SameLinks s t → SameLinks r t
  SameLinks-trans r s t h k = record { same = k.same ∙ h.same }

  emit_property-SameLinks :
      (n : Update J) (pred : String) (v : J.Value) (b : List ℕ) (r : Run J R)
      → (n.source == "") ≡ false
      → J.marshal v ≡ value b
      → SameLinks r (emit J R range is_new alpha (property_row J n pred b) r).1
  unfolding emit
  emit_property-SameLinks n pred v b r _ _ = record { same = refl }

  emit_pair-SameLinks :
      (n : Update J) (id kind : String) (r : Run J R)
      → (n.source == "") ≡ false
      → is_new id ≡ true
      → SameLinks r
          (emit J R range is_new alpha
            (parent_row J n id kind)
            (emit J R range is_new alpha (child_row J n id kind) r).1).1
  unfolding emit
  emit_pair-SameLinks n id kind r _ _ = record { same = refl }

  -- No step of `doExecute` adds or removes an edge of the tree, or adds a node.
  pub do_execute-SameLinks :
      (f n : ℕ) (r : Run J R) → SameLinks r (do_execute J R range is_new alpha f n r).1
  do_execute-SameLinks =
      do_execute-moves J R range is_new alpha SameLinks SameLinks-refl SameLinks-trans
        emit_property-SameLinks emit_pair-SameLinks draw_id-SameLinks

  deref-ne-pending : (n : ℕ) (r : Run J R) → (deref J R range is_new alpha n r).0 ≢ pending
  unfolding deref
  deref-ne-pending n r = ground arith

  emit_edges-ne-pending :
      (n : Update J) (es : Dict J.Value) (r : Run J R)
      → (emit_edges J R range is_new alpha n es r).0 ≢ pending
  unfolding emit_edges marshal emit
  emit_edges-ne-pending n [] r = λ p. cc
  emit_edges-ne-pending n ((pred, val) ∷ es) r = elim (Bool-cases (n.source == "")) [
    | inl unset ↦ rw unset (λ p. cc)
    | inr authored ↦ rw authored (
        bind-ne-pending (marshal J R range is_new alpha val) _ r (lift-ne-pending (J.marshal val))
          λ b e. emit_edges-ne-pending n es _)
  ]

  draw_id-ne-pending : (c : ℕ) (r : Run J R) → (draw_id J R range is_new alpha c r).0 ≢ pending
  unfolding draw_id
  draw_id-ne-pending c r = go (unique_string R alpha r.seed)
    where
      go : (d : Option String × R.Seed) → (draw J R range is_new alpha c d r).0 ≢ pending
      go (none, seed) = λ p. cc
      go (some id, seed) = λ p. cc

  fresh_id-ne-pending :
      (k c : ℕ) (r : Run J R) → (fresh_id J R range is_new alpha k c r).0 ≢ pending
  unfolding fresh_id
  fresh_id-ne-pending zero c r = λ p. cc
  fresh_id-ne-pending (suc k) c r =
      bind-ne-pending (draw_id J R range is_new alpha c) _ r (draw_id-ne-pending c r) λ id e.
        elim (Bool-cases (is_new id)) [
          | inl new ↦ rw new (λ p. cc)
          | inr old ↦ rw old (fresh_id-ne-pending k c _)
        ]

  record Ready (ls : List (List ℕ)) (r : Run J R) : Type 0 where
    at : links r.arena ≡ ls

  Ready-moves : {ls : List (List ℕ)} {r s : Run J R} → SameLinks r s → Ready ls r → Ready ls s
  Ready-moves h k = record { at = h.same ∙ k.at }

  emit-Ready :
      {ls : List (List ℕ)} (i j : Instruction) (r : Run J R)
      → Ready ls r
      → Ready ls (emit J R range is_new alpha j (emit J R range is_new alpha i r).1).1
  unfolding emit
  emit-Ready i j r k = record { at = k.at }

  deref-Ready :
      {ls : List (List ℕ)} (n : ℕ) (r : Run J R)
      → Ready ls r
      → Ready ls (deref J R range is_new alpha n r).1
  unfolding deref
  deref-Ready n r k = elim (Option-cases (get_elem? r.arena n)) [
    | inl e ↦ rw (e, deref) k
    | inr (u, e) ↦ rw (e, deref) k
  ]

  emit_edges-Ready :
      {ls : List (List ℕ)} (n : Update J) (es : Dict J.Value) (r : Run J R)
      → Ready ls r
      → Ready ls (emit_edges J R range is_new alpha n es r).1
  emit_edges-Ready n es r = Ready-moves (
      emit_edges-moves J R range is_new alpha SameLinks SameLinks-refl SameLinks-trans
        emit_property-SameLinks emit_pair-SameLinks draw_id-SameLinks n es r)

  fresh_id-Ready :
      {ls : List (List ℕ)} (k c : ℕ) (r : Run J R)
      → Ready ls r
      → Ready ls (fresh_id J R range is_new alpha k c r).1
  fresh_id-Ready k c r = Ready-moves (
      fresh_id-moves J R range is_new alpha SameLinks SameLinks-refl SameLinks-trans
        emit_property-SameLinks emit_pair-SameLinks draw_id-SameLinks k c r)

  module _ (rec : ℕ → Exec (Run J R) Unit)
      (rec-SameLinks : (n : ℕ) (r : Run J R) → SameLinks r (rec n r).1) (ls : List (List ℕ)) where
    add_one-Ready :
        (n : Update J) (c : ℕ) (r : Run J R)
        → (n.source == "") ≡ false
        → Ready ls r
        → Ready ls (add_one J R range is_new alpha rec n c r).1
    add_one-Ready n c r authored = Ready-moves (
        add_one-moves J R range is_new alpha SameLinks SameLinks-refl SameLinks-trans
          emit_property-SameLinks emit_pair-SameLinks draw_id-SameLinks rec rec-SameLinks n c r
          authored)

    add_one-ne-pending :
        (n : Update J) (c : ℕ) (r : Run J R)
        → Ready ls r
        → ((s : Run J R) → Ready ls s → (rec c s).0 ≢ pending)
        → (add_one J R range is_new alpha rec n c r).0 ≢ pending
    unfolding add_one emit
    add_one-ne-pending n c r ready back =
        bind-ne-pending (deref J R range is_new alpha c) _ r (deref-ne-pending c r) λ child _.
          elim (Bool-cases (child.id == "")) [
            | inl unset ↦ rw unset (
                bind-ne-pending (fresh_id J R range is_new alpha 31 c) _ _
                  (fresh_id-ne-pending 31 c _)
                  λ id drawn. back _ (
                    emit-Ready (child_row J n id child.kind) (parent_row J n id child.kind) _
                      (fresh_id-Ready 31 c _ (deref-Ready c r ready))))
            | inr taken ↦ rw taken (λ p. cc)
          ]

    add_all-ne-pending :
        (P : ℕ → Type 0) (n : Update J) (cs : List ℕ) (r : Run J R)
        → (n.source == "") ≡ false
        → Ready ls r
        → All P cs
        → ((c : ℕ) (s : Run J R) → P c → Ready ls s → (rec c s).0 ≢ pending)
        → (add_all J R range is_new alpha rec n cs r).0 ≢ pending
    unfolding add_all
    add_all-ne-pending P n [] r authored ready all back = λ p. cc
    add_all-ne-pending P n (c ∷ cs) r authored ready all back =
        bind-ne-pending (add_one J R range is_new alpha rec n c) _ r
          (add_one-ne-pending n c r ready λ s. back c s all.0)
          λ _ _.
            add_all-ne-pending P n cs _ authored (add_one-Ready n c r authored ready) all.1 back

    add_children-ne-pending :
        (P : ℕ → Type 0) (n : Update J) (r : Run J R)
        → Ready ls r
        → All P n.children
        → ((c : ℕ) (s : Run J R) → P c → Ready ls s → (rec c s).0 ≢ pending)
        → (add_children J R range is_new alpha rec n r).0 ≢ pending
    unfolding add_children
    add_children-ne-pending P n r ready all back = go n.children all
      where
        go : (cs : List ℕ) → All P cs → (add_some J R range is_new alpha rec n cs r).0 ≢ pending
        go [] all = λ p. cc
        go (c ∷ cs) all = elim (Bool-cases (n.source == "")) [
          | inl unset ↦ rw unset (λ p. cc)
          | inr authored ↦ rw authored (add_all-ne-pending P n (c ∷ cs) r authored ready all back)
        ]

  deref-eq-ok :
      (n : ℕ) (r : Run J R) (u : Update J)
      → (deref J R range is_new alpha n r).0 ≡ ok u
      → get_elem? r.arena n ≡ some u
  unfolding deref
  deref-eq-ok n r u h = ground arith

  enough_fuel :
      (ls : List (List ℕ))
      → ChildrenAbove ls
      → (f n : ℕ) (r : Run J R) → Ready ls r
      → n < length ls
      → length ls ≤ f + n
      → (do_execute J R range is_new alpha f n r).0 ≢ pending
  unfolding do_execute
  enough_fuel ls above zero n r ready inside fuel = absurd (omega arith)
  enough_fuel ls above (suc f) n r ready inside fuel =
      bind-ne-pending (deref J R range is_new alpha n) _ r (deref-ne-pending n r) λ u found.
        bind-ne-pending (emit_edges J R range is_new alpha u (range u.edges)) _ _
          (emit_edges-ne-pending u _ _)
          λ _ _.
            add_children-ne-pending (do_execute J R range is_new alpha f) (do_execute-SameLinks f)
              ls (λ c. (n < c) × (c < length ls)) u _
              (emit_edges-Ready u (range u.edges) _ (deref-Ready n r ready))
              (above n u.children (
                subst (λ l. get_elem? l n ≡ some u.children) ready.at
                  (get_elem?-map _ r.arena n (deref-eq-ok n r u found))))
              λ c s at k. enough_fuel ls above f c s k at.1 (omega arith)

  -- On a tree whose children stand above their parents in the arena, `doExecute` comes back, with a
  -- value, an error or the end of the process, from every node: fuel for the number of nodes is enough.
  pub do_execute_returns :
      (n : ℕ) (r : Run J R)
      → ChildrenAbove (links r.arena)
      → n < length r.arena
      → (do_execute J R range is_new alpha (length r.arena) n r).0 ≢ pending
  do_execute_returns n r above inside =
      enough_fuel (links r.arena) above (length r.arena) n r (record { at = refl })
        (omega (arith, length-map r.arena (λ u. u.children)))
        (omega (arith, length-map r.arena (λ u. u.children)))
