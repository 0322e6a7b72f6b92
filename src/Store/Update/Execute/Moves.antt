-- ===== src/Store/Update/Execute/Moves.antt =====
-- How `doExecute` moves its state: a relation that holds across each of its three kinds of writes
-- holds across the whole call.
use gocrud.Prelude.{
  ℕ, zero, suc, String, ◌≡◌, Bool, true, false, Bool-cases, Option-cases, inl, inr, ◌==◌, List, [],
  ◌∷◌, arith, get_elem?,
}
use gocrud.Prelude.Dict.{Dict}
use gocrud.Outcome.{value, value_of_lift, ok}
use gocrud.Exec.{Exec, moves-bind, bind-eq-ok, ◌>>=◌, ◌>>◌}
use gocrud.X.UniqueString.{Rand}
use gocrud.Store.Update.{Json, Update}
use gocrud.Store.Update.Execute.{
  Run, property_row, child_row, parent_row, emit, deref, marshal, emit_edges, draw_id, fresh_id,
  add_one, add_all, add_some, add_children, do_execute,
}

module _ (J : Json) (R : Rand) (range : Dict J.Value → Dict J.Value) (is_new : String → Bool)
    (alpha : ℕ) where
  -- An id that the retry loop returns has passed the driver's test.
  pub fresh_id-is_new :
      (k c : ℕ) (r : Run J R) (id : String)
      → (fresh_id J R range is_new alpha k c r).0 ≡ ok id
      → is_new id ≡ true
  unfolding fresh_id
  fresh_id-is_new zero c r id h = cc
  fresh_id-is_new (suc k) c r id h =
      let (drawn, _, rest) = bind-eq-ok (draw_id J R range is_new alpha c) _ r h in
      elim (Bool-cases (is_new drawn)) [
        | inl new ↦ let e = rw new at rest in ground (arith, new)
        | inr old ↦ fresh_id-is_new k c _ id (rw old at rest)
      ]

module _ (J : Json) (R : Rand) (range : Dict J.Value → Dict J.Value) (is_new : String → Bool)
    (alpha : ℕ) (Moves : Run J R → Run J R → Type 0) (stay : (r : Run J R) → Moves r r)
    (step_trans : (r s t : Run J R) → Moves r s → Moves s t → Moves r t)
    (emit_property : (n : Update J) (pred : String) (v : J.Value) (b : List ℕ) (r : Run J R)
      → (n.source == "") ≡ false
      → J.marshal v ≡ value b
      → Moves r (emit J R range is_new alpha (property_row J n pred b) r).1)
    (emit_pair : (n : Update J) (id kind : String) (r : Run J R)
      → (n.source == "") ≡ false
      → is_new id ≡ true
      → Moves r
          (emit J R range is_new alpha
            (parent_row J n id kind)
            (emit J R range is_new alpha (child_row J n id kind) r).1).1)
    (draw : (c : ℕ) (r : Run J R) → Moves r (draw_id J R range is_new alpha c r).1) where
  pub deref-moves : (n : ℕ) (r : Run J R) → Moves r (deref J R range is_new alpha n r).1
  unfolding deref
  deref-moves n r = elim (Option-cases (get_elem? r.arena n)) [
    | inl e ↦ rw (e, deref) (stay r)
    | inr (u, e) ↦ rw (e, deref) (stay r)
  ]

  bind_moves :
      {A B : Type 0} (m : Exec (Run J R) A) (f : A → Exec (Run J R) B) (r : Run J R)
      → Moves r (m r).1
      → ((a : A) → (m r).0 ≡ ok a → Moves (m r).1 (f a (m r).1).1)
      → Moves r ((m >>= f) r).1
  bind_moves = moves-bind Moves stay step_trans

  pub emit_edges-moves :
      (n : Update J) (es : Dict J.Value) (r : Run J R)
      → Moves r (emit_edges J R range is_new alpha n es r).1
  unfolding emit_edges marshal
  emit_edges-moves n [] r = stay r
  emit_edges-moves n ((pred, val) ∷ es) r = elim (Bool-cases (n.source == "")) [
    | inl unset ↦ rw unset (stay r)
    | inr authored ↦ rw authored (
        bind_moves (marshal J R range is_new alpha val) _ r (stay r) λ b e.
          bind_moves (emit J R range is_new alpha (property_row J n pred b)) _ r
            (emit_property n pred val b r authored (value_of_lift (J.marshal val) e))
            λ _ _. emit_edges-moves n es _)
  ]

  pub fresh_id-moves : (k c : ℕ) (r : Run J R) → Moves r (fresh_id J R range is_new alpha k c r).1
  unfolding fresh_id
  fresh_id-moves zero c r = stay r
  fresh_id-moves (suc k) c r = bind_moves (draw_id J R range is_new alpha c) _ r (draw c r) λ id e.
      elim (Bool-cases (is_new id)) [
        | inl new ↦ rw new (stay _)
        | inr old ↦ rw old (fresh_id-moves k c _)
      ]

  then_pair :
      (n : Update J) (id kind : String) (rest : Exec (Run J R) Unit) (r : Run J R)
      → (n.source == "") ≡ false
      → is_new id ≡ true
      → ((s : Run J R) → Moves s (rest s).1)
      → Moves r
          ((do
            emit J R range is_new alpha (child_row J n id kind)
            emit J R range is_new alpha (parent_row J n id kind)
            rest)
            r).1
  unfolding emit
  then_pair n id kind rest r authored new more =
      step_trans _ _ _ (emit_pair n id kind r authored new) (more _)

  module _ (rec : ℕ → Exec (Run J R) Unit)
      (rec-moves : (n : ℕ) (r : Run J R) → Moves r (rec n r).1) where
    pub add_one-moves :
        (n : Update J) (c : ℕ) (r : Run J R)
        → (n.source == "") ≡ false
        → Moves r (add_one J R range is_new alpha rec n c r).1
    unfolding add_one
    add_one-moves n c r authored =
        bind_moves (deref J R range is_new alpha c) _ r (deref-moves c r) λ child _.
          elim (Bool-cases (child.id == "")) [
            | inl unset ↦ rw unset (
                bind_moves (fresh_id J R range is_new alpha 31 c) _ _ (fresh_id-moves 31 c _)
                  λ id drawn.
                    then_pair n id child.kind (rec c) _ authored
                      (fresh_id-is_new J R range is_new alpha 31 c _ id drawn) (rec-moves c))
            | inr taken ↦ rw taken (stay _)
          ]

    add_all-moves :
        (n : Update J) (cs : List ℕ) (r : Run J R)
        → (n.source == "") ≡ false
        → Moves r (add_all J R range is_new alpha rec n cs r).1
    unfolding add_all
    add_all-moves n [] r authored = stay r
    add_all-moves n (c ∷ cs) r authored =
        bind_moves (add_one J R range is_new alpha rec n c) _ r (add_one-moves n c r authored)
          λ _ _. add_all-moves n cs _ authored

    add_children-moves :
        (n : Update J) (r : Run J R) → Moves r (add_children J R range is_new alpha rec n r).1
    unfolding add_children
    add_children-moves n r = go n.children
      where
        go : (cs : List ℕ) → Moves r (add_some J R range is_new alpha rec n cs r).1
        go [] = stay r
        go (c ∷ cs) = elim (Bool-cases (n.source == "")) [
          | inl unset ↦ rw unset (stay r)
          | inr authored ↦ rw authored (add_all-moves n (c ∷ cs) r authored)
        ]

  pub do_execute-moves :
      (f n : ℕ) (r : Run J R) → Moves r (do_execute J R range is_new alpha f n r).1
  unfolding do_execute
  do_execute-moves zero n r = stay r
  do_execute-moves (suc f) n r =
      bind_moves (deref J R range is_new alpha n) _ r (deref-moves n r) λ u _.
        bind_moves (emit_edges J R range is_new alpha u (range u.edges)) _ _
          (emit_edges-moves u _ _)
          λ _ _. add_children-moves (do_execute J R range is_new alpha f) (do_execute-moves f) u _
