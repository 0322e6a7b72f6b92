-- ===== src/Exec.antt =====
-- Methods that change objects and may fail: the state comes back beside the outcome, since what was
-- written before an error stays written.
use gocrud.Prelude.{String, ◌≡◌, ◌≢◌, refl, ap}
use gocrud.Outcome.{Outcome, ok, err, halt, pending}

abbrev pub Exec {ℓ} : Type ℓ → Type ℓ → Type ℓ
Exec S A = S → Outcome A × S

module _ {ℓ} {S A B : Type ℓ} where
  -- The rest of a method, reached only after success.
  abbrev pub resume : Outcome A → (A → Exec S B) → Exec S B
  resume (ok a) f s = f a s
  resume (err e) f s = (err e, s)
  resume (halt e) f s = (halt e, s)
  resume pending f s = (pending, s)

  infixl 5 ◌>>=◌ ◌>>◌
  abbrev pub ◌>>=◌ : Exec S A → (A → Exec S B) → Exec S B
  ◌>>=◌ m f s = let (o, s') = m s in resume o f s'

  abbrev pub ◌>>◌ : Exec S A → Exec S B → Exec S B
  m >> n = m >>= λ _. n

module _ {ℓ} {S A : Type ℓ} where
  abbrev pub pure : A → Exec S A
  pure a s = (ok a, s)

  abbrev pub fail : String → Exec S A
  fail e s = (err e, s)

  abbrev pub stop : String → Exec S A
  stop e s = (halt e, s)

-- How every run of an action moves the state, for a reflexive and transitive relation.
module _ {S : Type 0} (R : S → S → Type 0) (stay : (s : S) → R s s)
    (step_trans : (s t u : S) → R s t → R t u → R s u) where
  moves-resume :
      {A B : Type 0} (o : Outcome A) (f : A → Exec S B) (t : S)
      → ((a : A) → o ≡ ok a → R t (f a t).1)
      → R t (resume o f t).1
  moves-resume (ok a) f t rest = rest a refl
  moves-resume (err e) f t rest = stay t
  moves-resume (halt e) f t rest = stay t
  moves-resume pending f t rest = stay t

  -- The rest of a block may use that its first action has succeeded.
  pub moves-bind :
      {A B : Type 0} (m : Exec S A) (f : A → Exec S B) (s : S)
      → R s (m s).1
      → ((a : A) → (m s).0 ≡ ok a → R (m s).1 (f a (m s).1).1)
      → R s ((m >>= f) s).1
  moves-bind m f s first rest =
      step_trans s (m s).1 ((m >>= f) s).1 first (moves-resume (m s).0 f (m s).1 rest)

module _ {S A B : Type 0} where
  -- A block whose first action succeeds is the rest of it.
  pub bind-eq :
      (m : Exec S A) (f : A → Exec S B) (s : S) {a : A} {t : S}
      → m s ≡ (ok a, t)
      → (m >>= f) s ≡ f a t
  bind-eq m f s h = ap (λ p. resume p.0 f p.1) h

  resume-eq-ok :
      (o : Outcome A) (f : A → Exec S B) (t : S) {b : B}
      → (resume o f t).0 ≡ ok b
      → (a : A) × (o ≡ ok a) × ((f a t).0 ≡ ok b)
  resume-eq-ok (ok a) f t h = (a, refl, h)
  resume-eq-ok (err e) f t h = cc
  resume-eq-ok (halt e) f t h = cc
  resume-eq-ok pending f t h = cc

  -- A block that succeeds has succeeded in each of its actions.
  pub bind-eq-ok :
      (m : Exec S A) (f : A → Exec S B) (s : S) {b : B}
      → ((m >>= f) s).0 ≡ ok b
      → (a : A) × ((m s).0 ≡ ok a) × ((f a (m s).1).0 ≡ ok b)
  bind-eq-ok m f s h = resume-eq-ok (m s).0 f (m s).1 h

  resume-ne-pending :
      (o : Outcome A) (f : A → Exec S B) (t : S)
      → o ≢ pending
      → ((a : A) → o ≡ ok a → (f a t).0 ≢ pending)
      → (resume o f t).0 ≢ pending
  resume-ne-pending (ok a) f t h k = k a refl
  resume-ne-pending (err e) f t h k = λ p. cc
  resume-ne-pending (halt e) f t h k = λ p. cc
  resume-ne-pending pending f t h k = λ p. h refl

  -- A block returns if each of its actions does.
  pub bind-ne-pending :
      (m : Exec S A) (f : A → Exec S B) (s : S)
      → (m s).0 ≢ pending
      → ((a : A) → (m s).0 ≡ ok a → (f a (m s).1).0 ≢ pending)
      → ((m >>= f) s).0 ≢ pending
  bind-ne-pending m f s = resume-ne-pending (m s).0 f (m s).1

  resume-pending :
      (o : Outcome A) (f : A → Exec S B) (t : S) (P : S → Type 0)
      → o ≢ pending
      → ((a : A) (u : S) → (f a u).0 ≡ pending → P (f a u).1)
      → (resume o f t).0 ≡ pending
      → P (resume o f t).1
  resume-pending (ok a) f t P h k e = k a t e
  resume-pending (err x) f t P h k e = cc
  resume-pending (halt x) f t P h k e = cc
  resume-pending pending f t P h k e = absurd (h refl)

  -- A block whose first action comes back is held up in its rest.
  pub bind-pending :
      (m : Exec S A) (f : A → Exec S B) (s : S) (P : S → Type 0)
      → (m s).0 ≢ pending
      → ((a : A) (u : S) → (f a u).0 ≡ pending → P (f a u).1)
      → ((m >>= f) s).0 ≡ pending
      → P ((m >>= f) s).1
  bind-pending m f s P h k e = resume-pending (m s).0 f (m s).1 P h k e
