-- ===== src/Store/Query/Goroutines/Held.antt =====
-- The results of the children that have not been received.
use mathlib.Core.List.Perm
use gocrud.Prelude.{
  ℕ, zero, suc, ◌≡◌, refl, ap, some, List, [], ◌∷◌, ◌++◌, map, Perm, length, get_elem?, set,
}
use gocrud.Outcome.{Outcome}
use gocrud.Store.Update.{Json}
use gocrud.Store.Query.{Result}
use gocrud.Store.Query.Goroutines.{Child, running, blocked, received}

module _ (J : Json) where
  abbrev pub held : List (Child J) → List (Outcome (Result J))
  held [] = []
  held (running o ∷ cs) = o ∷ held cs
  held (blocked o ∷ cs) = o ∷ held cs
  held (received ∷ cs) = held cs

  pub held-append_running :
      (cs : List (Child J)) {B : Type 0} (f : B → Outcome (Result J)) (new : List B)
      → held (cs ++ map (λ j. running (f j)) new) ≡ held cs ++ map f new
  held-append_running [] f [] = refl
  held-append_running [] f (j ∷ new) = ap (λ l. f j ∷ l) (held-append_running [] f new)
  held-append_running (running o ∷ cs) f new = ap (λ l. o ∷ l) (held-append_running cs f new)
  held-append_running (blocked o ∷ cs) f new = ap (λ l. o ∷ l) (held-append_running cs f new)
  held-append_running (received ∷ cs) f new = held-append_running cs f new

  pub held-offer :
      (cs : List (Child J)) (i : ℕ) (o : Outcome (Result J))
      → get_elem? cs i ≡ some (running o)
      → held (set cs i (blocked o)) ≡ held cs
  held-offer [] i o h = cc
  held-offer (running p ∷ cs) zero o h = cc
  held-offer (blocked p ∷ cs) zero o h = cc
  held-offer (received ∷ cs) zero o h = cc
  held-offer (running p ∷ cs) (suc i) o h = ap (λ l. p ∷ l) (held-offer cs i o h)
  held-offer (blocked p ∷ cs) (suc i) o h = ap (λ l. p ∷ l) (held-offer cs i o h)
  held-offer (received ∷ cs) (suc i) o h = held-offer cs i o h

  pub held-receive :
      (cs : List (Child J)) (i : ℕ) (o : Outcome (Result J))
      → get_elem? cs i ≡ some (blocked o)
      → Perm (held cs) (o ∷ held (set cs i received))
  held-receive [] i o h = cc
  held-receive (running p ∷ cs) zero o h = cc
  held-receive (blocked p ∷ cs) zero o h = let e : p ≡ o = cc in rw e (Perm.refl (o ∷ held cs))
  held-receive (received ∷ cs) zero o h = cc
  held-receive (running p ∷ cs) (suc i) o h =
      Perm.trans (Perm.cons p (held-receive cs i o h)) (Perm.swap o p (held (set cs i received)))
  held-receive (blocked p ∷ cs) (suc i) o h =
      Perm.trans (Perm.cons p (held-receive cs i o h)) (Perm.swap o p (held (set cs i received)))
  held-receive (received ∷ cs) (suc i) o h = held-receive cs i o h

  pub length-held_receive :
      (cs : List (Child J)) (i : ℕ) (o : Outcome (Result J))
      → get_elem? cs i ≡ some (blocked o)
      → length (held cs) ≡ suc (length (held (set cs i received)))
  length-held_receive [] i o h = cc
  length-held_receive (running p ∷ cs) zero o h = cc
  length-held_receive (blocked p ∷ cs) zero o h = refl
  length-held_receive (received ∷ cs) zero o h = cc
  length-held_receive (running p ∷ cs) (suc i) o h = ap suc (length-held_receive cs i o h)
  length-held_receive (blocked p ∷ cs) (suc i) o h = ap suc (length-held_receive cs i o h)
  length-held_receive (received ∷ cs) (suc i) o h = length-held_receive cs i o h
