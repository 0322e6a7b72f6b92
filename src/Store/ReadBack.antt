-- ===== src/Store/ReadBack.antt =====
-- store/update.go with store/query.go: what `Execute` has committed is what `Run` reads.
pub mod Leaf
pub mod Shown
use mathlib.Core.Logic.{∥∥₁_map}
use mathlib.Core.List.Perm
use gocrud.Prelude.{
  ℕ, zero, suc, ◌+◌, ◌<◌, String, ◌≡◌, refl, sym, ap, ◌∙◌, subst, ◌⊎◌, inl, inr, Bool, true, false,
  not, ◌==◌, ◌&&◌, Bool-cases, Option, none, some, List, [], ◌∷◌, ◌++◌, append-nil, append_assoc,
  Perm, Mem, Memᴰ, length, get_elem?, ℤ, pos, pos_part, leb_ℤ, eq_iff, eq_refl, arith,
  if◌then◌else◌,
}
use mathlib.Core.List.Memᴰ.{append_left, append_right, not-nil}
use gocrud.Prelude.Dict.{Dict}
use gocrud.Outcome.{Outcome, Fallible, value, error, ok, err, lift}
use gocrud.Exec.{Exec, ◌>>=◌, ◌>>◌, pure, fail, resume, bind-eq}
use gocrud.Req.{Context}
use gocrud.X.{Entity, Instruction}
use gocrud.X.UniqueString.{Rand}
use gocrud.Store.{Store}
use gocrud.Store.Arena.{root, lt_of_get_elem?}
use gocrud.Store.Update.{Json, Update}
use gocrud.Store.Update.Execute.{
  Run, Session, run_of, property_row, emit, deref, marshal, emit_edges, add_children, do_execute,
  generate, find_root, commit, notify, save, execute,
}
use gocrud.Store.Query.{Query, Queries, Object, Result, empty_result}
use gocrud.Store.Query.Run.{do_run}
use gocrud.Store.Query.Run.History.{version, decoded, history, shown, do_run-history}

-- The rows of an entity, in their order.
abbrev pub rows_of : String → List Instruction → List Instruction
rows_of id [] = []
rows_of id (it ∷ its) = let rest = rows_of id its in if it.subject_id == id then it ∷ rest else rest

-- The documentation of the interface: `Commit` writes the rows, and `GetEntity` retrieves all those of an id.
abbrev pub IsKept : Store → Type 0
IsKept S =
    (its : List Instruction) (db db' : S.State) (id : String) (old : List Instruction)
    → S.commit its db ≡ (value tt, db')
    → S.get_entity db id ≡ value old
    → S.get_entity db' id ≡ value (old ++ rows_of id its)

pub Memᴰ-rows_of :
    (i : Instruction) (its : List Instruction) → Memᴰ i its → Memᴰ i (rows_of i.subject_id its)
Memᴰ-rows_of i [] m = elim m [ ]
Memᴰ-rows_of i (it ∷ its) (Memᴰ.head e) =
    rw ((eq_iff it.subject_id i.subject_id).1 (ap (λ j. j.subject_id) (sym e))) (Memᴰ.head e)
Memᴰ-rows_of i (it ∷ its) (Memᴰ.tail m) = elim (Bool-cases (it.subject_id == i.subject_id)) [
  | inl same ↦ rw same (Memᴰ.tail (Memᴰ-rows_of i its m))
  | inr other ↦ rw other (Memᴰ-rows_of i its m)
]

module _ (J : Json) where
  pub Memᴰ-history :
      (k : String) (i : Instruction) (its : List Instruction) (o : Object J)
      → version J k i ≡ o ∷ []
      → Memᴰ i its
      → Memᴰ o (history J k its)
  Memᴰ-history k i [] o v m = elim m [ ]
  Memᴰ-history k i (it ∷ its) o v (Memᴰ.head e) =
      append_left (history J k its) (subst (Memᴰ o) (sym v ∙ ap (version J k) e) (Memᴰ.head refl))
  Memᴰ-history k i (it ∷ its) o v (Memᴰ.tail m) =
      append_right (version J k it) (Memᴰ-history k i its o v m)

  pub version-property_row :
      (u : Update J) (k : String) (b : List ℕ) (v : J.Value)
      → (k == "_parent_") ≡ false
      → J.unmarshal b ≡ value v
      → version J k (property_row J u k b)
        ≡ record { value = v; source = u.source; nano_ts = u.nano_ts } ∷ []
  unfolding property_row
  version-property_row u k b v plain read = rw (eq_refl k, plain, read) refl

  -- The rows of the edges of a node, with their encoded values.
  pub data Encoded (u : Update J) : Dict J.Value → List Instruction → Type 0 where
    no_edge : Encoded u [] []
    edge :
        {pred : String} {val : J.Value} {b : List ℕ} {es : Dict J.Value} {rows : List Instruction}
        → J.marshal val ≡ value b
        → Encoded u es rows
        → Encoded u ((pred, val) ∷ es) (property_row J u pred b ∷ rows)

  pub Memᴰ-Encoded :
      (u : Update J) (k : String) (v : J.Value) (b : List ℕ) {es : Dict J.Value}
      {rows : List Instruction}
      → J.marshal v ≡ value b
      → Encoded u es rows
      → Memᴰ (k, v) es
      → Memᴰ (property_row J u k b) rows
  Memᴰ-Encoded u k v b m no_edge t = absurd (not-nil t)
  Memᴰ-Encoded u k v b m (edge {pred = p} {val = w} {b = c} n es) (Memᴰ.head e) =
      let same_value : v ≡ w = ap (λ x. x.1) e in
      let same_bytes : b ≡ c = cc in Memᴰ.head (rw (ap (λ x. x.0) e, same_bytes) refl)
  Memᴰ-Encoded u k v b m (edge n es) (Memᴰ.tail t) = Memᴰ.tail (Memᴰ-Encoded u k v b m es t)
