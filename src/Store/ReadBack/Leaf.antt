-- ===== src/Store/ReadBack/Leaf.antt =====
-- `Execute` of a node that is the whole of its tree.

use gocrud.Prelude.{
  ℕ, zero, suc, ◌<◌, String, ◌≡◌, refl, sym, ap, ◌∙◌, ◌⊎◌, inl, inr, Bool, Bool-cases, true, false,
  ◌==◌, some, List, [], ◌∷◌, ◌++◌, append-nil, append_assoc, length, get_elem?, pos, pos_part,
  leb_ℤ, arith,
}
use gocrud.Prelude.Dict.{Dict}
use gocrud.Outcome.{value, ok, lift}
use gocrud.Exec.{pure, resume, bind-eq}
use gocrud.Req.{Context}
use gocrud.X.{Instruction}
use gocrud.X.UniqueString.{Rand}
use gocrud.Store.{Store}
use gocrud.Store.Arena.{root, lt_of_get_elem?}
use gocrud.Store.Update.{Json, Update}
use gocrud.Store.Update.Execute.{
  Run, Session, run_of, property_row, emit, deref, marshal, emit_edges, add_children, do_execute,
  generate, find_root, commit, distinct_from, notify, save, execute,
}
use gocrud.Store.Update.Execute.Sends.{HasRoom, send_all-HasRoom, send_all-db, distinct_from-few}
use gocrud.Store.ReadBack.{Encoded, no_edge, edge}

module _ (J : Json) (R : Rand) (S : Store) (range : Dict J.Value → Dict J.Value) where
  emit_edges-Encoded :
      (is_new : String → Bool) (alpha : ℕ) (u : Update J) (r : Run J R) {es : Dict J.Value}
      {rows : List Instruction}
      → (u.source == "") ≡ false
      → Encoded J u es rows
      → emit_edges J R range is_new alpha u es r ≡ (ok tt, record r { its = r.its ++ rows })
  unfolding emit_edges marshal emit
  emit_edges-Encoded is_new alpha u r authored no_edge = rw (append-nil r.its) refl
  emit_edges-Encoded is_new alpha u r authored (edge {pred = p} {b = b} {rows = rows} n es) =
      rw (authored, n)
        (emit_edges-Encoded is_new alpha u (record r { its = r.its ++ property_row J u p b ∷ [] })
            authored es
          ∙ ap (λ l. (ok tt, record r { its = l }))
              (append_assoc r.its (property_row J u p b ∷ []) rows))

  do_execute-leaf :
      (is_new : String → Bool) (alpha f n : ℕ) (u : Update J) (r : Run J R)
      {rows : List Instruction}
      → 0 < f
      → get_elem? r.arena n ≡ some u
      → u.children ≡ []
      → (u.source == "") ≡ false
      → Encoded J u (range u.edges) rows
      → do_execute J R range is_new alpha f n r ≡ (ok tt, record r { its = r.its ++ rows })
  unfolding do_execute deref add_children
  do_execute-leaf is_new alpha zero n u r some_fuel at leaf authored enc = elim some_fuel [ ]
  do_execute-leaf is_new alpha (suc f) n u r {rows} some_fuel at leaf authored enc =
      let rec = do_execute J R range is_new alpha f in
      let t = record r { its = r.its ++ rows } in
      let read : deref J R range is_new alpha n r ≡ (ok u, r) = rw (at, deref) refl in
      let none_left : add_children J R range is_new alpha rec u t ≡ (ok tt, t) =
        rw (leaf, add_children) refl in
      bind-eq (deref J R range is_new alpha n) _ r read
      ∙ bind-eq (emit_edges J R range is_new alpha u (range u.edges)) _ r
          (emit_edges-Encoded is_new alpha u r authored enc)
      ∙ none_left

  -- There is nobody to tell, or an open channel with room for an entity of each row.
  abbrev pub CanTell : Context → ℕ → Session J R S → Type 0
  CanTell c k s = (c.has_indexer ≡ false) ⊎ HasRoom J R S range c.updates k s

  notify-db :
      (c : Context) (its : List Instruction) (s : Session J R S)
      → (notify J R S range c its s).1.db ≡ s.db
  unfolding notify
  notify-db c its s = elim (Bool-cases c.has_indexer) [
    | inl on ↦ rw (on, notify) (send_all-db J R S range c.updates (distinct_from [] its) s)
    | inr off ↦ rw (off, notify) refl
  ]

  notify-CanTell :
      (c : Context) (its : List Instruction) (s : Session J R S)
      → CanTell c (length its) s
      → (notify J R S range c its s).0 ≡ ok tt
  unfolding notify
  notify-CanTell c its s can = elim (Bool-cases c.has_indexer) [
    | inr off ↦ rw (off, notify) refl
    | inl on ↦ elim can [
      | inl off ↦ let e : true ≡ false = sym on ∙ off in cc
      | inr room ↦
          rw (on, notify)
            (send_all-HasRoom J R S range c.updates (distinct_from [] its) (length its) s
              (distinct_from-few [] its) room)
    ]
  ]

  -- A call of `Execute` on a node that is the whole of its tree, authored, with edges whose values can be
  -- encoded, and whose rows the driver takes, with room in the channel if there is an indexer.
  pub record LeafUpdate (c : Context) (n : ℕ) (s : Session J R S) : Type 0 where
    pub top : ℕ
    pub node : Update J
    pub first : Instruction
    pub others : List Instruction
    pub db : S.State
    pub chars : leb_ℤ c.num_chars_unique (pos 0) ≡ false
    pub found : root (λ (u : Update J). u.parent) (length s.arena) s.arena n ≡ some top
    pub at : get_elem? s.arena top ≡ some node
    pub leaf : node.children ≡ []
    pub authored : (node.source == "") ≡ false
    pub encoded : Encoded J node (range node.edges) (first ∷ others)
    pub taken : S.commit (first ∷ others) s.db ≡ (value tt, db)
    pub can_tell : CanTell c (length (first ∷ others)) s

  pub execute-leaf :
      (c : Context) (n : ℕ) (s : Session J R S) (l : LeafUpdate c n s)
      → ((execute J R S range c n s).0 ≡ ok tt) × ((execute J R S range c n s).1.db ≡ l.db)
  unfolding execute find_root generate save commit
  execute-leaf c n s l =
      let its = l.first ∷ l.others in
      let s₁ = record s { arena = s.arena; seed = s.seed } in
      let s₂ = record s₁ { db = l.db } in
      let at_root : find_root J R S range n s ≡ (ok l.top, s) = rw (l.found, find_root) refl in
      let made : generate J R S range c l.top s ≡ (ok its, s₁) =
        ap (λ p. resume p.0 (λ _. pure p.1.its) (record s { arena = p.1.arena; seed = p.1.seed }))
          (do_execute-leaf (S.is_new s.db) (pos_part c.num_chars_unique) (length s.arena) l.top
            l.node (run_of J R S range s) (omega (arith, lt_of_get_elem? s.arena l.top l.at)) l.at
            l.leaf l.authored l.encoded) in
      let kept : commit J R S range its s₁ ≡ (ok tt, s₂) =
        ap (λ p. (lift p.0, record s₁ { db = p.1 })) l.taken in
      let all : execute J R S range c n s ≡ notify J R S range c its s₂ = rw l.chars (
        bind-eq (find_root J R S range n) _ s at_root
        ∙ bind-eq (generate J R S range c l.top) _ s made
        ∙ bind-eq (commit J R S range its) _ s₁ kept) in
      (
        ap (λ p. p.0) all ∙ notify-CanTell c its s₂ l.can_tell,
        ap (λ p. p.1.db) all ∙ notify-db c its s₂,
      )
