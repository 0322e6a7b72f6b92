-- ===== src/Tests/Sort.antt =====
-- An insertion sort of rows by their time, as a sort that a query can be given.
use mathlib.Core.List.Perm
use gocrud.Prelude.{
  All-after, ℕ, zero, suc, ◌≡◌, ◌≢◌, refl, ap, ◌∙◌, true, set, ltb_ℤ-false_iff, inl, inr,
  Bool-cases, List, [], ◌∷◌, Perm, All, ℤ, ◌≤ℤ◌, leb_ℤ, le_of_leb_ℤ, le_of_not_leb_ℤ, if◌then◌else◌,
  IsSortedBy,
}
use gocrud.Outcome.{ok, >>=-eq-ok, ◌>>=◌}
use gocrud.X.{Instruction}
use gocrud.X.Its.{at, swap, less}
use gocrud.Store.Query.Run.Sorting.{Swaps, done, swapped, IsSwapSort, IsSwapSort-IsSort}
use gocrud.Store.Query.Run.{IsSort}

abbrev time : Instruction → ℤ
time i = i.nano_ts

abbrev insert : Instruction → List Instruction → List Instruction
insert x [] = x ∷ []
insert x (y ∷ ys) =
    let rest = y ∷ insert x ys in if leb_ℤ (time x) (time y) then x ∷ y ∷ ys else rest

abbrev pub insertion_sort : List Instruction → List Instruction
insertion_sort [] = []
insertion_sort (x ∷ xs) = insert x (insertion_sort xs)

insert-All :
    (P : Instruction → Type 0) (x : Instruction) (ys : List Instruction)
    → P x
    → All P ys
    → All P (insert x ys)
insert-All P x [] h k = (h, tt)
insert-All P x (y ∷ ys) h k = elim (Bool-cases (leb_ℤ (time x) (time y))) [
  | inl le ↦ rw le (h, k)
  | inr gt ↦ rw gt (k.0, insert-All P x ys h k.1)
]

insert-IsSortedBy :
    (x : Instruction) (ys : List Instruction) → IsSortedBy time ys → IsSortedBy time (insert x ys)
insert-IsSortedBy x [] h = (tt, tt)
insert-IsSortedBy x (y ∷ ys) h = elim (Bool-cases (leb_ℤ (time x) (time y))) [
  | inl le ↦
      let first = le_of_leb_ℤ (time x) (time y) le in
      rw le ((first, All-after time x y ys first h.0), h)
  | inr gt ↦ rw gt (
    insert-All (λ z. time y ≤ℤ time z) x ys (le_of_not_leb_ℤ (time x) (time y) gt) h.0,
    insert-IsSortedBy x ys h.1,
  )
]

insert-Perm : (x : Instruction) (ys : List Instruction) → Perm (x ∷ ys) (insert x ys)
insert-Perm x [] = Perm.refl (x ∷ [])
insert-Perm x (y ∷ ys) = elim (Bool-cases (leb_ℤ (time x) (time y))) [
  | inl le ↦ rw le (Perm.refl (x ∷ y ∷ ys))
  | inr gt ↦ rw gt (Perm.trans (Perm.swap y x ys) (Perm.cons y (insert-Perm x ys)))
]

insertion_sort-IsSortedBy : (xs : List Instruction) → IsSortedBy time (insertion_sort xs)
insertion_sort-IsSortedBy [] = tt
insertion_sort-IsSortedBy (x ∷ xs) =
    insert-IsSortedBy x (insertion_sort xs) (insertion_sort-IsSortedBy xs)

insertion_sort-Perm : (xs : List Instruction) → Perm xs (insertion_sort xs)
insertion_sort-Perm [] = Perm.nil
insertion_sort-Perm (x ∷ xs) =
    Perm.trans (Perm.cons x (insertion_sort-Perm xs)) (insert-Perm x (insertion_sort xs))

pub insertion_sort-IsSort : IsSort insertion_sort
insertion_sort-IsSort = record {
  sorted = insertion_sort-IsSortedBy;
  same_rows = insertion_sort-Perm;
}

Swaps-trans : {xs ys zs : List Instruction} → Swaps xs ys → Swaps ys zs → Swaps xs zs
Swaps-trans done t = t
Swaps-trans (swapped i j h rest) t = swapped i j h (Swaps-trans rest t)

Swaps-cons : (x : Instruction) {xs ys : List Instruction} → Swaps xs ys → Swaps (x ∷ xs) (x ∷ ys)
unfolding swap at
Swaps-cons x done = done
Swaps-cons x (swapped {xs} {ys} i j h rest) =
    let (a, p, h₁) = >>=-eq-ok (at xs i) _ h in
    let (b, q, h₂) = >>=-eq-ok (at xs j) _ h₁ in
    let e : set (set xs i b) j a ≡ ys = cc in
    swapped (suc i) (suc j)
      (ap (λ o. o >>= λ a. at xs j >>= λ b. ok (x ∷ set (set xs i b) j a)) p
        ∙ ap (λ o. o >>= λ b. ok (x ∷ set (set xs i b) j a)) q
        ∙ ap (λ l. ok (x ∷ l)) e)
      (Swaps-cons x rest)

insert-Swaps : (x : Instruction) (ys : List Instruction) → Swaps (x ∷ ys) (insert x ys)
unfolding swap at
insert-Swaps x [] = done
insert-Swaps x (y ∷ ys) = elim (Bool-cases (leb_ℤ (time x) (time y))) [
  | inl le ↦ rw le (done {xs = x ∷ y ∷ ys})
  | inr gt ↦ rw gt (swapped 0 1 refl (Swaps-cons y (insert-Swaps x ys)))
]

insertion_sort-Swaps : (xs : List Instruction) → Swaps xs (insertion_sort xs)
insertion_sort-Swaps [] = done
insertion_sort-Swaps (x ∷ xs) =
    Swaps-trans (Swaps-cons x (insertion_sort-Swaps xs)) (insert-Swaps x (insertion_sort xs))

not_less : (xs : List Instruction) (i : ℕ) → IsSortedBy time xs → less (suc i) i xs ≢ ok true
unfolding less at
not_less [] i h e = cc
not_less (x ∷ []) zero h e = cc
not_less (x ∷ []) (suc i) h e = cc
not_less (x ∷ y ∷ xs) zero h e = let f = ltb_ℤ-false_iff (time y) (time x) h.0.0 in cc
not_less (x ∷ y ∷ xs) (suc i) h e = not_less (y ∷ xs) i h.1 e

insertion_sort-IsSwapSort : IsSwapSort insertion_sort
insertion_sort-IsSwapSort = record {
  swaps = insertion_sort-Swaps;
  ordered = λ its i. not_less (insertion_sort its) i (insertion_sort-IsSortedBy its);
}

IsSwapSort-IsSort_example : IsSort insertion_sort
IsSwapSort-IsSort_example = IsSwapSort-IsSort insertion_sort insertion_sort-IsSwapSort
