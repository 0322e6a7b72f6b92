-- ===== src/Store/Update/Execute/Notify.antt =====
-- Which entities `Execute` sends for a batch.
use gocrud.Prelude.{
  ◌≡◌, ap, refl, true, false, not, ◌&&◌, Bool-cases, inl, inr, List, [], ◌∷◌, map, arith, eq_iff,
}
use gocrud.X.{Entity, Instruction, same_entity}
use gocrud.Store.Update.Execute.{subject, contains, distinct_from}

same_entity-eq : (e f : Entity) → same_entity e f ≡ true → e ≡ f
same_entity-eq e f h =
    let k : e.kind ≡ f.kind = (eq_iff e.kind f.kind).0 (ground arith) in
    let i : e.id ≡ f.id = (eq_iff e.id f.id).0 (ground arith) in
    λ j. record { kind = k j; id = i j }

same_entity_refl : (e : Entity) → same_entity e e ≡ true
same_entity_refl e = ground (arith, (eq_iff e.kind e.kind).1 refl, (eq_iff e.id e.id).1 refl)

-- No entity stands twice.
abbrev pub IsDistinct : List Entity → Type 0
IsDistinct [] = Unit
IsDistinct (e ∷ es) = (contains e es ≡ false) × IsDistinct es

contains-distinct_from :
    (e : Entity) (seen : List Entity) (its : List Instruction)
    → contains e (distinct_from seen its) ≡ (not (contains e seen) && contains e (map subject its))
unfolding distinct_from
contains-distinct_from e seen [] = ground arith
contains-distinct_from e seen (it ∷ its) = ground (
  arith,
  ap (λ f. contains f seen),
  same_entity-eq e (subject it),
  contains-distinct_from e seen its,
  contains-distinct_from e (subject it ∷ seen) its,
)

distinct_from-IsDistinct :
    (seen : List Entity) (its : List Instruction) → IsDistinct (distinct_from seen its)
unfolding distinct_from
distinct_from-IsDistinct seen [] = tt
distinct_from-IsDistinct seen (it ∷ its) = elim (Bool-cases (contains (subject it) seen)) [
  | inl sent ↦ rw sent (distinct_from-IsDistinct seen its)
  | inr new ↦ rw new (
    ground (
      arith,
      contains-distinct_from (subject it) (subject it ∷ seen) its,
      same_entity_refl (subject it),
    ),
    distinct_from-IsDistinct (subject it ∷ seen) its,
  )
]

-- The entities that `Execute` sends for a batch are the subjects of its rows, each once.
pub notify_exact :
    (its : List Instruction)
    → IsDistinct (distinct_from [] its)
      × ((e : Entity) → contains e (distinct_from [] its) ≡ contains e (map subject its))
unfolding contains
notify_exact its = (distinct_from-IsDistinct [] its, λ e. contains-distinct_from e [] its)
