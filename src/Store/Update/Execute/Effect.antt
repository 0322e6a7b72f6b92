-- ===== src/Store/Update/Execute/Effect.antt =====
-- What `Execute` does to the store and to the channel of updates.
use gocrud.Prelude.{
  ℕ, some, get_elem?, ◌≡◌, refl, ◌≢◌, sym, ◌∙◌, ap, subst, true, false, Bool-cases, Option-cases,
  inl, inr, ◌⊎◌, List, [], ◌∷◌, length, pos, pos_part, leb_ℤ,
}
use gocrud.Prelude.Dict.{Dict}
use gocrud.Outcome.{Outcome, Fallible, value, error, ok, err, halt, pending, lift}
use gocrud.Exec.{Exec, resume, pure, ◌>>=◌}
use gocrud.Req.{Context}
use gocrud.X.{Entity, Instruction}
use gocrud.X.UniqueString.{Rand}
use gocrud.Store.{Store}
use gocrud.Store.Arena.{root, root-found}
use gocrud.Store.Update.{Json, Update}
use gocrud.Store.Update.Execute.{
  Run, do_execute, Session, distinct_from, run_of, send_all, notify, save, generate, find_root,
  execute,
}
use gocrud.Store.Update.Execute.Rows.{Rows, do_execute-Rows}
use gocrud.Store.Update.Execute.Subjects.{Tied, do_execute-Keeps}
use gocrud.Store.Update.Execute.Sends.{Sent, send_all-Sent, send_all-db}

module _ (J : Json) (R : Rand) (S : Store) (range : Dict J.Value → Dict J.Value) where
  -- The store gets no instruction, and nobody is told.
  pub record IsUntouched (s : Session J R S) (o : Outcome (Unit {0})) (t : Session J R S)
      : Type 0 where
    pub failed : o ≢ ok tt
    pub db : t.db ≡ s.db
    pub sent : t.sent ≡ s.sent

  -- How a call ends after the driver's answer: with its error, or, where it has accepted, with success if
  -- there is no indexer, and else as the sends of the batch's entities end.
  abbrev pub Told :
      Context
      → List Entity
      → List Instruction
      → Fallible (Unit {0})
      → Outcome (Unit {0})
      → Session J R S
      → Type 0
  Told c before its (error e) o t = (o ≡ err e) × (t.sent ≡ before)
  Told c before its (value u) o t =
      (c.has_indexer ≡ false) × (o ≡ ok tt) × (t.sent ≡ before)
      ⊎ (c.has_indexer ≡ true) × Sent J R S range c.updates (distinct_from [] its) before o t

  -- The rows of a batch: rows of properties and pairs of edges, all of them about the root of the tree that
  -- the call is made on, or about children that rows before them hang below it.
  pub record IsBuilt (n : ℕ) (s : Session J R S) (its : List Instruction) : Type 0 where
    pub top : ℕ
    pub node : Update J
    pub climbed : root (λ (u : Update J). u.parent) (length s.arena) s.arena n ≡ some top
    pub at : get_elem? s.arena top ≡ some node
    pub rows : Rows J (S.is_new s.db) its
    pub tied : Tied node.id its

  -- One batch of rows goes to the driver, whose error is the error of the call. The entities of the batch
  -- are sent if it is accepted.
  pub record IsCommitted (c : Context) (n : ℕ) (s : Session J R S) (o : Outcome (Unit {0}))
      (t : Session J R S) : Type 0 where
    pub its : List Instruction
    pub some_rows : its ≢ []
    pub built : IsBuilt n s its
    pub result : Fallible (Unit {0})
    pub committed : S.commit its s.db ≡ (result, t.db)
    pub told : Told c s.sent its result o t

  abbrev pub Effect : Context → ℕ → Session J R S → Outcome (Unit {0}) → Session J R S → Type 0
  Effect c n s o t = IsUntouched s o t ⊎ IsCommitted c n s o t

  finish :
      Context
      → List Instruction
      → Session J R S
      → Fallible (Unit {0})
      → S.State
      → Outcome (Unit {0}) × Session J R S
  finish c its t f db = resume (lift f) (λ _. notify J R S range c its) (record t { db = db })

  finish-IsCommitted :
      (c : Context) (n : ℕ) (s t : Session J R S) (its : List Instruction) (f : Fallible (Unit {0}))
      (db : S.State)
      → its ≢ []
      → IsBuilt n s its
      → S.commit its s.db ≡ (f, db)
      → t.sent ≡ s.sent
      → let r = finish c its t f db in IsCommitted c n s r.0 r.1
  unfolding finish notify
  finish-IsCommitted c n s t its (value u) db some_rows rows e sent =
      elim (Bool-cases c.has_indexer) [
        | inl on ↦
            let t' = record t { db = db } in
            let after = send_all-Sent J R S range c.updates (distinct_from [] its) t' in
            let same = send_all-db J R S range c.updates (distinct_from [] its) t' in
            record {
              its = its;
              some_rows = some_rows;
              built = rows;
              result = value u;
              committed = rw on (e ∙ ap (λ d. (value u, d)) (sym same));
              told = rw on (
                  inr (
                    refl,
                    subst
                        (λ l.
                          Sent J R S range c.updates (distinct_from [] its) l
                            (send_all J R S range c.updates (distinct_from [] its) t').0
                            (send_all J R S range c.updates (distinct_from [] its) t').1)
                        sent after,
                  ));
            }
        | inr off ↦ record {
          its = its;
          some_rows = some_rows;
          built = rows;
          result = value u;
          committed = rw off e;
          told = rw off (inl (refl, refl, sent));
        }
      ]
  finish-IsCommitted c n s t its (error x) db some_rows rows e sent = record {
    its = its;
    some_rows = some_rows;
    built = rows;
    result = error x;
    committed = e;
    told = (refl, sent);
  }

  save-Effect :
      (c : Context) (n : ℕ) (s t : Session J R S) (its : List Instruction)
      → IsBuilt n s its
      → t.db ≡ s.db
      → t.sent ≡ s.sent
      → Effect c n s (save J R S range c its t).0 (save J R S range c its t).1
  unfolding save finish
  save-Effect c n s t [] rows db sent = inl (record { failed = λ p. cc; db = db; sent = sent })
  save-Effect c n s t (i ∷ l) rows db sent = inr (
      finish-IsCommitted c n s t (i ∷ l) (S.commit (i ∷ l) t.db).0 (S.commit (i ∷ l) t.db).1
        (λ p. cc) rows (ap (S.commit (i ∷ l)) (sym db)) sent)

  generate-Rows :
      (c : Context) (n : ℕ) (s : Session J R S)
      → Rows J
          (S.is_new s.db)
          (do_execute J R range
            (S.is_new s.db)
            (pos_part c.num_chars_unique)
            (length s.arena)
            n
            (run_of J R S range s)).1.its
  generate-Rows c n s =
      let h =
        do_execute-Rows J R range (S.is_new s.db) (pos_part c.num_chars_unique) (length s.arena) n
          (run_of J R S range s) in
      rw h.behind h.rows

  generate-IsBuilt :
      (c : Context) (n top : ℕ) (s : Session J R S)
      → root (λ (u : Update J). u.parent) (length s.arena) s.arena n ≡ some top
      → IsBuilt n s
          (do_execute J R range
            (S.is_new s.db)
            (pos_part c.num_chars_unique)
            (length s.arena)
            top
            (run_of J R S range s)).1.its
  generate-IsBuilt c n top s climbed =
      let (u, at) = root-found (λ (u : Update J). u.parent) (length s.arena) s.arena n climbed in
      record {
        top = top;
        node = u;
        climbed = climbed;
        at = at;
        rows = generate-Rows c top s;
        tied =
            (do_execute-Keeps J R range (S.is_new s.db) (pos_part c.num_chars_unique) u.id
              (length s.arena) top (run_of J R S range s) Tied.nil
              (λ v there.
                let same : u ≡ v = cc in inl (ap (λ (w : Update J). w.id) (sym same)))).tied;
      }

  -- `generate` after the walk over the tree.
  abbrev pub generated : Outcome (Unit {0}) → Run J R → Exec (Session J R S) (List Instruction)
  generated o r s = resume o (λ _. pure r.its) (record s { arena = r.arena; seed = r.seed })

  generated-Effect :
      (c : Context) (n : ℕ) (s : Session J R S) (o : Outcome (Unit {0})) (r : Run J R)
      → IsBuilt n s r.its
      → let q = (generated o r >>= save J R S range c) s in Effect c n s q.0 q.1
  generated-Effect c n s (ok u) r rows =
      save-Effect c n s (record s { arena = r.arena; seed = r.seed }) r.its rows refl refl
  generated-Effect c n s (err e) r rows = inl (record { failed = λ p. cc; db = refl; sent = refl })
  generated-Effect c n s (halt e) r rows = inl (record { failed = λ p. cc; db = refl; sent = refl })
  generated-Effect c n s pending r rows = inl (record { failed = λ p. cc; db = refl; sent = refl })

  generate-save-Effect :
      (c : Context) (n top : ℕ) (s : Session J R S)
      → root (λ (u : Update J). u.parent) (length s.arena) s.arena n ≡ some top
      → let r = (generate J R S range c top >>= save J R S range c) s in Effect c n s r.0 r.1
  unfolding generate
  generate-save-Effect c n top s climbed =
      generated-Effect c n s _ _ (generate-IsBuilt c n top s climbed)

  -- However `Execute` ends, it has either failed and left the store and the channel alone, or handed
  -- the driver exactly one batch: a nonempty list of authored rows, in which each edge to a child stands
  -- with its edge back and each child's id is new to the store, and in which every row is about the
  -- root of the tree, about a node that a row before it is about, or is the edge back of a child to such
  -- a node. An error of the driver is the call's, and nothing is sent. If the batch is accepted and
  -- there is no indexer, the call succeeds. If there is one, the first of the batch's entities are sent
  -- in their order, and the call succeeds exactly if all are.
  pub execute-Effect :
      (c : Context) (n : ℕ) (s : Session J R S)
      → Effect c n s (execute J R S range c n s).0 (execute J R S range c n s).1
  unfolding execute
  execute-Effect c n s = elim (Bool-cases (leb_ℤ c.num_chars_unique (pos 0))) [
    | inl bad ↦ rw bad (inl (record { failed = λ p. cc; db = refl; sent = refl }))
    | inr good ↦
        rw good
          (elim (Option-cases (root (λ (u : Update J). u.parent) (length s.arena) s.arena n)) [
            | inl lost ↦
                rw (lost, find_root) (inl (record { failed = λ p. cc; db = refl; sent = refl }))
            | inr (top, found) ↦ rw (found, find_root) (generate-save-Effect c n top s found)
          ])
  ]
