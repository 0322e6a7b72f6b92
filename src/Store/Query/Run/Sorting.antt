-- ===== src/Store/Query/Run/Sorting.antt =====
-- sort.Sort on the interface of the rows.
use mathlib.Core.List.Perm
use gocrud.Prelude.{
  ℕ, zero, suc, ◌≡◌, ◌≢◌, refl, ap, ◌∙◌, subst, inl, inr, Bool-cases, true, false, Option-cases,
  some, List, [], ◌∷◌, Perm, get_elem?, set, ltb_ℤ, le_of_not_ltb_ℤ, IsSortedBy, IsSortedBy-cons,
}
use gocrud.Outcome.{ok, halt, >>=-eq-ok}
use gocrud.X.{Instruction}
use gocrud.X.Its.{at, swap, less}
use gocrud.Store.Query.Run.{IsSort}

-- A run of calls of Swap, none of which panics.
pub data Swaps : List Instruction → List Instruction → Type 0 where
  done : {xs : List Instruction} → Swaps xs xs
  swapped :
      {xs ys zs : List Instruction} (i j : ℕ) → swap i j xs ≡ ok ys → Swaps ys zs → Swaps xs zs

-- The documentation of sort.Sort: it reorders the rows by calls of Swap, until no row is less than the one
-- before it, by Less.
pub record IsSwapSort (sort : List Instruction → List Instruction) : Type 0 where
  pub swaps : (its : List Instruction) → Swaps its (sort its)
  pub ordered : (its : List Instruction) (i : ℕ) → less (suc i) i (sort its) ≢ ok true

module _ {A : Type 0} where
  -- What stands at a place goes out and another value comes in.
  Perm-set :
      (xs : List A) (i : ℕ) (a b : A) → get_elem? xs i ≡ some a → Perm (b ∷ xs) (a ∷ set xs i b)
  Perm-set [] i a b h = cc
  Perm-set (x ∷ xs) zero a b h = let e : x ≡ a = cc in rw e (Perm.swap a b xs)
  Perm-set (x ∷ xs) (suc i) a b h =
      Perm.trans (Perm.swap x b xs)
        (Perm.trans (Perm.cons x (Perm-set xs i a b h)) (Perm.swap a x (set xs i b)))

  set-keeps :
      (xs : List A) (i j : ℕ) (b : A) → get_elem? xs j ≡ some b → get_elem? (set xs i b) j ≡ some b
  set-keeps [] i j b h = h
  set-keeps (x ∷ xs) zero zero b h = refl
  set-keeps (x ∷ xs) zero (suc j) b h = h
  set-keeps (x ∷ xs) (suc i) zero b h = h
  set-keeps (x ∷ xs) (suc i) (suc j) b h = set-keeps xs i j b h

  Perm-swap :
      (xs : List A) (i j : ℕ) (a b : A)
      → get_elem? xs i ≡ some a
      → get_elem? xs j ≡ some b
      → Perm xs (set (set xs i b) j a)
  Perm-swap xs i j a b at_i at_j =
      Perm.cons_inv {a = b} (
        Perm.trans (Perm-set xs i a b at_i) (Perm-set (set xs i b) j b a (set-keeps xs i j b at_j)))

at-inv :
    (its : List Instruction) (i : ℕ) (a : Instruction) → at its i ≡ ok a → get_elem? its i ≡ some a
unfolding at
at-inv its i a h = elim (Option-cases (get_elem? its i)) [
  | inl out ↦ let e : halt "index out of range" ≡ ok a = rw (out, at) at h in cc
  | inr (b, found) ↦ let e : ok b ≡ ok a = rw (found, at) at h in found ∙ cc
]

Perm-Swaps : {xs ys : List Instruction} → Swaps xs ys → Perm xs ys
unfolding swap
Perm-Swaps (done {xs}) = Perm.refl xs
Perm-Swaps (swapped {xs} {ys} {zs} i j h rest) =
    let (a, at_i, h₁) = >>=-eq-ok (at xs i) _ h in
    let (b, at_j, h₂) = >>=-eq-ok (at xs j) _ h₁ in
    let e : set (set xs i b) j a ≡ ys = cc in
    Perm.trans (subst (Perm xs) e (Perm-swap xs i j a b (at-inv xs i a at_i) (at-inv xs j b at_j)))
      (Perm-Swaps rest)

ordered-IsSortedBy :
    (its : List Instruction)
    → ((i : ℕ) → less (suc i) i its ≢ ok true)
    → IsSortedBy (λ i. i.nano_ts) its
unfolding less at
ordered-IsSortedBy [] h = tt
ordered-IsSortedBy (x ∷ []) h = (tt, tt)
ordered-IsSortedBy (x ∷ y ∷ its) h =
    IsSortedBy-cons (λ i. i.nano_ts) x y its (le_of_not_ltb_ℤ y.nano_ts x.nano_ts (not_less (h 0)))
      (ordered-IsSortedBy (y ∷ its) (λ i. h (suc i)))
  where
    not_less : (ok (ltb_ℤ y.nano_ts x.nano_ts) ≢ ok true) → ltb_ℤ y.nano_ts x.nano_ts ≡ false
    not_less n = elim (Bool-cases (ltb_ℤ y.nano_ts x.nano_ts)) [
      | inl e ↦ absurd (n (ap ok e))
      | inr e ↦ e
    ]

-- What sort.Sort documents of its calls of Swap and Less on the rows makes it a sort of the rows by their time:
-- each sorted row is no later than those after it, and the rows are the same.
pub IsSwapSort-IsSort : (sort : List Instruction → List Instruction) → IsSwapSort sort → IsSort sort
IsSwapSort-IsSort sort s = record {
  sorted = λ its. ordered-IsSortedBy (sort its) (s.ordered its);
  same_rows = λ its. Perm-Swaps (s.swaps its);
}
