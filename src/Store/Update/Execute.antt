-- ===== src/Store/Update/Execute.antt =====
-- store/update.go: `doExecute` and `Execute`.
mod Moves
mod Rows
mod Subjects
mod Terminates
pub mod Sends
pub mod Effect
pub mod Returns
pub mod Notify
use gocrud.Prelude.{
  ℕ, zero, suc, ◌+◌, ltb, String, ◌<>◌, Bool, false, ◌||◌, ◌==◌, Option, none, some, List, [], ◌∷◌,
  ◌++◌, length, get_elem?, pos, pos_part, leb_ℤ, if◌then◌else◌,
}
use gocrud.Prelude.Dict.{Dict}
use gocrud.Outcome.{lift, ok, halt, pending}
use gocrud.Exec.{Exec, resume, pure, fail, stop, ◌>>=◌, ◌>>◌}
use gocrud.Req.{Context}
use gocrud.X.{Entity, Instruction, same_entity}
use gocrud.X.UniqueString.{Rand, unique_string}
use gocrud.Store.{Store}
use gocrud.Store.Arena.{modify, root}
use gocrud.Store.Update.{Json, Update, Updates}

-- The rows that `doExecute` builds from a node.
module _ (J : Json) where
  unfoldable pub property_row : Update J → String → List ℕ → Instruction
  property_row n pred b = record {
    subject_id = n.id;
    subject_type = n.kind;
    predicate = pred;
    object = b;
    object_id = "";
    nano_ts = n.nano_ts;
    source = n.source;
  }

  -- From the parent to the child, whose id and kind are given.
  unfoldable pub child_row : Update J → String → String → Instruction
  child_row n id kind = record {
    subject_id = n.id;
    subject_type = n.kind;
    predicate = kind;
    object = [];
    object_id = id;
    nano_ts = n.nano_ts;
    source = n.source;
  }

  unfoldable pub parent_row : Update J → String → String → Instruction
  parent_row n id kind = record {
    subject_id = id;
    subject_type = kind;
    predicate = "_parent_";
    object = [];
    object_id = n.id;
    nano_ts = n.nano_ts;
    source = n.source;
  }

  abbrev no_source : Update J → String
  no_source n = "No source specified for id: " <> n.id <> " kind: " <> n.kind

-- What `doExecute` reads and changes: the nodes, the list `its`, and the generator.
pub record Run (J : Json) (R : Rand) : Type 0 where
  pub arena : Updates J
  pub its : List Instruction
  pub seed : R.Seed

-- `range` is the order in which Go walks the map of edges, `is_new` the driver's test, and `alpha` the
-- length of an id.
module _ (J : Json) (R : Rand) (range : Dict J.Value → Dict J.Value) (is_new : String → Bool)
    (alpha : ℕ) where
  abbrev Act : Type 0 → Type 0
  Act A = Exec (Run J R) A

  unfoldable pub emit : Instruction → Act Unit
  emit i r = (ok tt, record r { its = r.its ++ i ∷ [] })

  unfoldable pub deref : ℕ → Act (Update J)
  deref n r = elim (get_elem? r.arena n) [
    | none ↦ (halt "nil pointer dereference", r)
    | some u ↦ (ok u, r)
  ]

  unfoldable pub marshal : J.Value → Act (List ℕ)
  marshal v r = (lift (J.marshal v), r)

  unfoldable pub emit_edges : Update J → Dict J.Value → Act Unit
  emit_edges n [] = pure tt
  emit_edges n ((pred, val) ∷ es) =
      let rest = emit_edges n es in
      if n.source == ""
      then fail (no_source J n)
      else do b ← marshal val; emit (property_row J n pred b); rest

  draw : ℕ → Option String × R.Seed → Act String
  draw c (none, seed) r = (halt "index out of range", record r { seed = seed })
  draw c (some id, seed) r =
      (ok id, record r { arena = modify (λ u. record u { id = id }) c r.arena; seed = seed })

  -- `child.id = x.UniqueString(c.NumCharsUnique)`
  unfoldable pub draw_id : ℕ → Act String
  unfolding draw
  draw_id c r = draw c (unique_string R alpha r.seed) r

  -- The retry loop, with the tries that are left.
  unfoldable pub fresh_id : ℕ → ℕ → Act String
  fresh_id zero c = fail "Unable to find new id"
  fresh_id (suc tries) c = do
    id ← draw_id c
    let again = fresh_id tries c
    if is_new id then pure id else again

  -- One round of the loop over the children. `rec` is the recursive call.
  unfoldable pub add_one : (ℕ → Act Unit) → Update J → ℕ → Act Unit
  add_one rec n c = do
    child ← deref c
    if child.id == ""
        then (do
          id ← fresh_id 31 c
          emit (child_row J n id child.kind)
          emit (parent_row J n id child.kind)
          rec c)
        else stop "Child id should be empty for all current use cases"

  unfoldable pub add_all : (ℕ → Act Unit) → Update J → List ℕ → Act Unit
  add_all rec n [] = pure tt
  add_all rec n (c ∷ cs) = do add_one rec n c; add_all rec n cs

  add_some : (ℕ → Act Unit) → Update J → List ℕ → Act Unit
  add_some rec n [] = pure tt
  add_some rec n (c ∷ cs) = if n.source == "" then fail (no_source J n) else add_all rec n (c ∷ cs)

  unfoldable pub add_children : (ℕ → Act Unit) → Update J → Act Unit
  unfolding add_some
  add_children rec n = add_some rec n n.children

  -- `n` stays as it was read: in a tree, no descendant of a node is the node.
  unfoldable pub do_execute : ℕ → ℕ → Act Unit
  do_execute zero n = λ r. (pending, r)
  do_execute (suc f) n = do u ← deref n; emit_edges u (range u.edges); add_children (do_execute f) u

-- What `Execute` reads and changes. `sent` is what has gone into the channel of updates, and `taken` how
-- many of these and of later entities its receivers take, from its start until the call is over.
pub record Session (J : Json) (R : Rand) (S : Store) : Type 0 where
  pub arena : Updates J
  pub seed : R.Seed
  pub db : S.State
  pub sent : List Entity
  pub taken : ℕ
  pub is_closed : Bool

abbrev pub subject : Instruction → Entity
subject it = record { kind = it.subject_type; id = it.subject_id }

unfoldable pub contains : Entity → List Entity → Bool
contains e [] = false
contains e (f ∷ fs) = same_entity e f || contains e fs

-- The loop that finds the entities to send, with the set of those that were sent.
unfoldable pub distinct_from : List Entity → List Instruction → List Entity
unfolding contains
distinct_from seen [] = []
distinct_from seen (it ∷ its) =
    let skip = distinct_from seen its in
    let send = subject it ∷ distinct_from (subject it ∷ seen) its in
    if contains (subject it) seen then skip else send

module _ (J : Json) (R : Rand) (S : Store) (range : Dict J.Value → Dict J.Value) where
  abbrev pub run_of : Session J R S → Run J R
  run_of s = record { arena = s.arena; its = []; seed = s.seed }

  -- `c.Updates <- e`, on a channel of the capacity. It panics on a closed one, and blocks for ever where
  -- no receiver makes room.
  unfoldable pub send_to : Option (ℕ × List Entity) → Entity → Exec (Session J R S) Unit
  send_to none e s = (pending, s)
  send_to (some (capacity, before)) e s =
      if s.is_closed
      then (halt "send on closed channel", s)
      else if ltb (length s.sent) (capacity + s.taken)
      then (ok tt, record s { sent = s.sent ++ e ∷ [] })
      else (pending, s)

  unfoldable pub send_all : Option (ℕ × List Entity) → List Entity → Exec (Session J R S) Unit
  unfolding send_to
  send_all channel [] = pure tt
  send_all channel (e ∷ es) = do send_to channel e; send_all channel es

  unfoldable pub notify : Context → List Instruction → Exec (Session J R S) Unit
  unfolding distinct_from send_all
  notify c its s = if c.has_indexer then send_all c.updates (distinct_from [] its) s else (ok tt, s)

  unfoldable pub commit : List Instruction → Exec (Session J R S) Unit
  commit its s = let (o, db) = S.commit its s.db in (lift o, record s { db = db })

  unfoldable pub save : Context → List Instruction → Exec (Session J R S) Unit
  unfolding commit notify
  save c [] = fail "No instructions generated"
  save c (it ∷ its) = do commit (it ∷ its); notify c (it ∷ its)

  -- The rows of the whole tree. What was written to the nodes stays, also after an error.
  unfoldable pub generate : Context → ℕ → Exec (Session J R S) (List Instruction)
  generate c n s =
      let (o, r) =
        do_execute J R range (S.is_new s.db) (pos_part c.num_chars_unique) (length s.arena) n
          (run_of s) in
      resume o (λ _. pure r.its) (record s { arena = r.arena; seed = r.seed })

  unfoldable pub find_root : ℕ → Exec (Session J R S) ℕ
  find_root n s = elim (root (λ (u : Update J). u.parent) (length s.arena) s.arena n) [
    | none ↦ (pending, s)
    | some top ↦ (ok top, s)
  ]

  unfoldable pub execute : Context → ℕ → Exec (Session J R S) Unit
  unfolding find_root generate save
  execute c n =
      if leb_ℤ c.num_chars_unique (pos 0)
      then stop "Invalid number of chars for generating unique ids. Set req.Context.NumCharsUnique"
      else do top ← find_root n; its ← generate c top; save c its
