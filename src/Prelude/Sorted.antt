-- ===== src/Prelude/Sorted.antt =====
-- Lists in the order of a key.
use mathlib.Core.List.{List, [], ◌∷◌}
use gocrud.Prelude.Int.{ℤ, ◌≤ℤ◌, ≤ℤ_trans}
use gocrud.Prelude.Every.{All}

module _ {ℓ} {A : Type ℓ} (key : A → ℤ) where
  abbrev pub IsSortedBy : List A → Type 0
  IsSortedBy [] = Unit
  IsSortedBy (x ∷ xs) = All (λ y. key x ≤ℤ key y) xs × IsSortedBy xs

  pub All-after :
      (x y : A) (ys : List A)
      → key x ≤ℤ key y
      → All (λ z. key y ≤ℤ key z) ys
      → All (λ z. key x ≤ℤ key z) ys
  All-after x y [] h k = tt
  All-after x y (z ∷ ys) h k = (≤ℤ_trans (key x) (key y) (key z) h k.0, All-after x y ys h k.1)

  pub IsSortedBy-cons :
      (x y : A) (ys : List A) → key x ≤ℤ key y → IsSortedBy (y ∷ ys) → IsSortedBy (x ∷ y ∷ ys)
  IsSortedBy-cons x y ys h k = ((h, All-after x y ys h k.0), k)
