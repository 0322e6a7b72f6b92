-- ===== src/Outcome.antt =====
-- What a Go call of this program ends in: a value, a returned error, or the end of the process
-- (a panic, or `log.Fatal`, which exits). A recursion that is cut off by its fuel,
-- and a send that blocks for ever, is `pending`.
use gocrud.Prelude.{Bool, true, false, ◌⊎◌, inl, inr, String, ◌≡◌, ◌≢◌, refl}

pub data Outcome {ℓ} (A : Type ℓ) : Type ℓ where
  ok : A → Outcome A
  err : String → Outcome A
  halt : String → Outcome A
  pending : Outcome A

infixl 5 ◌>>=◌
abbrev pub ◌>>=◌ {ℓ κ} : {A : Type ℓ} {B : Type κ} → Outcome A → (A → Outcome B) → Outcome B
ok a >>= f = f a
err e >>= f = err e
halt e >>= f = halt e
pending >>= f = pending

-- What a call returns that always comes back: Go's pair of a value and an error.
pub data Fallible {ℓ} (A : Type ℓ) : Type ℓ where
  value : A → Fallible A
  error : String → Fallible A

pub Fallible-cases {ℓ} :
    {A : Type ℓ} (f : Fallible A) → ((a : A) × (f ≡ value a)) ⊎ ((e : String) × (f ≡ error e))
Fallible-cases (value a) = inl (a, refl)
Fallible-cases (error e) = inr (e, refl)

abbrev pub lift {ℓ} : {A : Type ℓ} → Fallible A → Outcome A
lift (value a) = ok a
lift (error e) = err e

pub value_of_lift {ℓ} : {A : Type ℓ} (f : Fallible A) {a : A} → lift f ≡ ok a → f ≡ value a
value_of_lift (value a) h = cc
value_of_lift (error e) h = cc

pub lift-ne-pending {ℓ} : {A : Type ℓ} (f : Fallible A) → lift f ≢ pending
lift-ne-pending (value a) h = cc
lift-ne-pending (error e) h = cc

pub >>=-ne-pending {ℓ κ} :
    {A : Type ℓ} {B : Type κ} (m : Outcome A) (f : A → Outcome B)
    → m ≢ pending
    → ((a : A) → m ≡ ok a → f a ≢ pending)
    → (m >>= f) ≢ pending
>>=-ne-pending (ok a) f h k = k a refl
>>=-ne-pending (err e) f h k = λ p. cc
>>=-ne-pending (halt e) f h k = λ p. cc
>>=-ne-pending pending f h k = λ p. h refl

-- A chain that succeeds has succeeded in its first call.
pub >>=-eq-ok {ℓ κ} :
    {A : Type ℓ} {B : Type κ} (first : Outcome A) (next : A → Outcome B) {y : B}
    → (first >>= next) ≡ ok y
    → (x : A) × (first ≡ ok x) × (next x ≡ ok y)
>>=-eq-ok (ok x) next h = (x, refl, h)
>>=-eq-ok (err e) next h = cc
>>=-eq-ok (halt e) next h = cc
>>=-eq-ok pending next h = cc

abbrev pub is_ok {ℓ} : {A : Type ℓ} → Outcome A → Bool
is_ok (ok a) = true
is_ok _ = false

pub is_ok-inv {ℓ} : {A : Type ℓ} (o : Outcome A) → is_ok o ≡ true → (a : A) × (o ≡ ok a)
is_ok-inv (ok a) h = (a, refl)
is_ok-inv (err e) h = cc
is_ok-inv (halt e) h = cc
is_ok-inv pending h = cc

-- A chain whose first call succeeds, and whose rest does after it, succeeds.
pub >>=-is_ok {ℓ κ} :
    {A : Type ℓ} {B : Type κ} (first : Outcome A) (next : A → Outcome B)
    → is_ok first ≡ true
    → ((a : A) → first ≡ ok a → is_ok (next a) ≡ true)
    → is_ok (first >>= next) ≡ true
>>=-is_ok (ok a) next h k = k a refl
>>=-is_ok (err e) next h k = cc
>>=-is_ok (halt e) next h k = cc
>>=-is_ok pending next h k = cc
