-- ===== src/Prelude/Members.antt =====
-- Lists with the same members, in any order and any number of times.
use mathlib.Core.List.{List, ◌++◌, Memᴰ, append_assoc}
use mathlib.Core.List.Memᴰ.{append_left, append_right, append_cases}
use mathlib.Core.Logic.{inl, inr}

-- Two lists have the same members.
abbrev pub Same : {A : Type 0} → List A → List A → Type 0
Same {A} xs ys = ((a : A) → Memᴰ a xs → Memᴰ a ys) × ((a : A) → Memᴰ a ys → Memᴰ a xs)

module _ {A : Type 0} where
  pub Same-refl : (xs : List A) → Same xs xs
  Same-refl xs = (λ a m. m, λ a m. m)

  pub Same-trans : (xs ys zs : List A) → Same xs ys → Same ys zs → Same xs zs
  Same-trans xs ys zs h k = (λ a m. k.0 a (h.0 a m), λ a m. h.1 a (k.1 a m))

  pub Same-swap : (xs ys : List A) → Same (xs ++ ys) (ys ++ xs)
  Same-swap xs ys = (swap xs ys, swap ys xs)
    where
      swap : (l m : List A) (a : A) → Memᴰ a (l ++ m) → Memᴰ a (m ++ l)
      swap l m a h = elim (append_cases l h) [ inl p ↦ append_right m p | inr p ↦ append_left l p ]

  pub Same-append : (l xs ys : List A) → Same xs ys → Same (l ++ xs) (l ++ ys)
  Same-append l xs ys h = (more xs ys h.0, more ys xs h.1)
    where
      more :
          (m n : List A)
          → ((a : A) → Memᴰ a m → Memᴰ a n)
          → (a : A) → Memᴰ a (l ++ m)
          → Memᴰ a (l ++ n)
      more m n k a p = elim (append_cases l p) [
        | inl q ↦ append_left n q
        | inr q ↦ append_right l (k a q)
      ]

  -- New members behind the second of three parts.
  pub Same-insert :
      (all first second third new : List A)
      → Same all (first ++ (second ++ third))
      → Same (all ++ new) (first ++ ((second ++ new) ++ third))
  Same-insert all first second third new h =
      let rest = first ++ (second ++ third) in
      let behind : Same (all ++ new) (rest ++ new) =
        Same-trans _ _ _ (Same-swap all new)
          (Same-trans _ _ _ (Same-append new all rest h) (Same-swap new rest)) in
      let inside : Same ((second ++ third) ++ new) ((second ++ new) ++ third) =
        rw (append_assoc second third new, append_assoc second new third)
          (Same-append second _ _ (Same-swap third new)) in
      Same-trans _ _ _ behind
        (rw (append_assoc first (second ++ third) new) (Same-append first _ _ inside))
