-- ===== src/Cassandra/Pages.antt =====
-- What one call of `Iterate` sends.
use gocrud.Prelude.{
  ℕ, suc, ◌≤◌, ◌<◌, String, ◌≡◌, refl, inl, inr, true, false, Bool-cases, Option-cases, List, [],
  ◌∷◌, ◌++◌, length, eq_iff, length-append, leb, arith, if◌then◌else◌,
}
use gocrud.X.{Entity, same_entity}
use gocrud.Cassandra.{Session, Paged, is_handled, scan, iterate}

module _ (C : Session) where
  -- No entity stands twice.
  abbrev pub NoneTwice : List Entity → Type 0
  NoneTwice [] = Unit
  NoneTwice (e ∷ es) = (is_handled C e es ≡ false) × NoneTwice es

  same_entity-sym : (e f : Entity) → same_entity e f ≡ same_entity f e
  same_entity-sym e f =
      ground (arith, eq_iff e.kind f.kind, eq_iff f.kind e.kind, eq_iff e.id f.id, eq_iff f.id e.id)

  is_handled-append :
      (e : Entity) (es : List Entity) (f : Entity)
      → is_handled C e (es ++ f ∷ []) ≡ (if is_handled C e es then true else same_entity e f)
  unfolding is_handled
  is_handled-append e [] f = ground arith
  is_handled-append e (g ∷ es) f = ground (arith, is_handled-append e es f)

  NoneTwice-append :
      (es : List Entity) (e : Entity)
      → NoneTwice es
      → is_handled C e es ≡ false
      → NoneTwice (es ++ e ∷ [])
  unfolding is_handled
  NoneTwice-append [] e h k = (refl, tt)
  NoneTwice-append (f ∷ es) e (first, rest) k = (
    ground (arith, is_handled-append f es e, same_entity-sym e f),
    NoneTwice-append es e rest (ground arith),
  )

  scan-NoneTwice :
      (num : ℕ) (es : List Entity) (p : Paged C)
      → NoneTwice p.entities
      → length p.entities < num
      → NoneTwice (scan C num es p).entities × (length (scan C num es p).entities ≤ num)
  unfolding scan
  scan-NoneTwice num [] p h k = (h, omega arith)
  scan-NoneTwice num (e ∷ es) p h k = elim (Bool-cases (is_handled C e p.entities)) [
    | inl seen ↦ rw (seen, scan) (scan-NoneTwice num es (record p { last = e }) h k)
    | inr new ↦
        rw (new, scan)
          (elim (Bool-cases (leb num (suc (length p.entities)))) [
            | inl full ↦ rw full (
              NoneTwice-append p.entities e h new,
              omega (arith, k, length-append p.entities (e ∷ [])),
            )
            | inr room ↦ rw room (
                scan-NoneTwice num es (record { entities = p.entities ++ e ∷ []; last = e })
                  (NoneTwice-append p.entities e h new)
                  (ground (arith, room, length-append p.entities (e ∷ []))))
          ])
  ]

  -- A call of `Iterate` for at least one entity sends at most as many as it is asked for, and none twice.
  pub iterate_bounds :
      (db : C.Db) (from : String) (num : ℕ)
      → 0 < num
      → NoneTwice (iterate C db from num).0 × (length (iterate C db from num).0 ≤ num)
  unfolding iterate
  iterate_bounds db from num some_room =
      let start : Paged C = record { entities = []; last = record { kind = ""; id = "" } } in
      let sent = scan-NoneTwice num (C.page db from num).rows start tt some_room in
      elim (Option-cases (C.page db from num).failure) [
        | inl fine ↦ rw (fine, iterate) sent
        | inr (e, failed) ↦ rw (failed, iterate) sent
      ]
