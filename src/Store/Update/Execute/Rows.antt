-- ===== src/Store/Update/Execute/Rows.antt =====
-- What rows `doExecute` adds to the list, whatever the tree and however the call ends.
use gocrud.Prelude.{
  ℕ, String, ◌≡◌, refl, ◌≢◌, sym, ◌∙◌, ap, Bool, true, false, false≢true, ◌==◌, Option, none, some,
  List, [], ◌∷◌, ◌++◌, append-nil, append_assoc, eq_iff,
}
use gocrud.Prelude.Dict.{Dict}
use gocrud.Outcome.{value}
use gocrud.X.{Instruction}
use gocrud.X.UniqueString.{Rand, unique_string}
use gocrud.Store.Update.{Json, Update}
use gocrud.Store.Update.Execute.Moves.{do_execute-moves}
use gocrud.Store.Update.Execute.{
  Run, property_row, child_row, parent_row, emit, draw, draw_id, do_execute,
}

module _ (J : Json) (is_new : String → Bool) where
  -- A row that holds a property's value.
  pub record IsPropertyRow (i : Instruction) : Type 0 where
    pub plain : i.object_id ≡ ""
    pub authored : i.source ≢ ""
    pub holds : (v : J.Value) × (J.marshal v ≡ value i.object)

  -- A row from a parent to a child that is new to the store, and the row back.
  pub record IsEdgePair (down up : Instruction) : Type 0 where
    pub fresh : is_new down.object_id ≡ true
    pub back : up.predicate ≡ "_parent_"
    pub child : up.subject_id ≡ down.object_id
    pub parent : up.object_id ≡ down.subject_id
    pub kind : up.subject_type ≡ down.predicate
    pub authored : down.source ≢ ""
    pub same_source : up.source ≡ down.source
    pub same_time : up.nano_ts ≡ down.nano_ts

  pub data Rows : List Instruction → Type 0 where
    nil : Rows []
    property : {i : Instruction} {l : List Instruction} → IsPropertyRow i → Rows l → Rows (i ∷ l)
    edge :
        {down up : Instruction} {l : List Instruction}
        → IsEdgePair down up
        → Rows l
        → Rows (down ∷ up ∷ l)

  Rows-append : {l m : List Instruction} → Rows l → Rows m → Rows (l ++ m)
  Rows-append nil k = k
  Rows-append (property p h) k = property p (Rows-append h k)
  Rows-append (edge p h) k = edge p (Rows-append h k)

module _ (J : Json) (R : Rand) (range : Dict J.Value → Dict J.Value) (is_new : String → Bool)
    (alpha : ℕ) where
  pub record Adds (r s : Run J R) : Type 0 where
    pub new : List Instruction
    pub behind : s.its ≡ r.its ++ new
    pub rows : Rows J is_new new

  Adds-same : {r s : Run J R} → s.its ≡ r.its → Adds r s
  Adds-same e = record { new = []; behind = e ∙ sym (append-nil _); rows = Rows.nil }

  Adds-refl : (r : Run J R) → Adds r r
  Adds-refl r = Adds-same refl

  Adds-trans : (r s t : Run J R) → Adds r s → Adds s t → Adds r t
  Adds-trans r s t h k = record {
    new = h.new ++ k.new;
    behind = k.behind ∙ ap (λ l. l ++ k.new) h.behind ∙ append_assoc r.its h.new k.new;
    rows = Rows-append J is_new h.rows k.rows;
  }

  Adds-emit_property :
      (n : Update J) (pred : String) (v : J.Value) (b : List ℕ) (r : Run J R)
      → (n.source == "") ≡ false
      → J.marshal v ≡ value b
      → Adds r (emit J R range is_new alpha (property_row J n pred b) r).1
  unfolding emit property_row
  Adds-emit_property n pred v b r h e = record {
    new = property_row J n pred b ∷ [];
    behind = refl;
    rows =
        Rows.property
          (record {
            plain = refl;
            authored = λ p. false≢true (sym h ∙ (eq_iff _ _).1 p);
            holds = (v, e);
          })
          Rows.nil;
  }

  draw_id-Adds : (c : ℕ) (r : Run J R) → Adds r (draw_id J R range is_new alpha c r).1
  unfolding draw_id
  draw_id-Adds c r = go (unique_string R alpha r.seed)
    where
      go : (d : Option String × R.Seed) → Adds r (draw J R range is_new alpha c d r).1
      go (none, seed) = Adds-same refl
      go (some id, seed) = Adds-same refl

  Adds-emit_pair :
      (n : Update J) (id kind : String) (r : Run J R)
      → (n.source == "") ≡ false
      → is_new id ≡ true
      → Adds r
          (emit J R range is_new alpha
            (parent_row J n id kind)
            (emit J R range is_new alpha (child_row J n id kind) r).1).1
  unfolding emit child_row parent_row
  Adds-emit_pair n id kind r authored new = record {
    new = child_row J n id kind ∷ parent_row J n id kind ∷ [];
    behind = append_assoc r.its (child_row J n id kind ∷ []) (parent_row J n id kind ∷ []);
    rows =
        Rows.edge
          (record {
            fresh = new;
            back = refl;
            child = refl;
            parent = refl;
            kind = refl;
            authored = λ p. false≢true (sym authored ∙ (eq_iff _ _).1 p);
            same_source = refl;
            same_time = refl;
          })
          Rows.nil;
  }

  -- Whatever the tree and however the call ends, the rows that `doExecute` adds are, one after the
  -- other, rows of properties and pairs of an edge to a child and its edge back. Each names an author,
  -- and each child's id was new to the store.
  pub do_execute-Rows : (f n : ℕ) (r : Run J R) → Adds r (do_execute J R range is_new alpha f n r).1
  do_execute-Rows =
      do_execute-moves J R range is_new alpha Adds Adds-refl Adds-trans Adds-emit_property
        Adds-emit_pair draw_id-Adds
