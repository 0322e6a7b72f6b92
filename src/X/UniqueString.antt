-- ===== src/X/UniqueString.antt =====
-- `UniqueString`, over the generator `r` of math/rand, whose method `Intn` is a parameter.
use Prim.Native.Char.{Char}
use gocrud.Prelude.{ℕ, zero, suc, ◌<◌, String, Option, none, some, List, [], ◌∷◌}

-- The state of a generator, and `Intn`.
pub record Rand : Type 1 where
  pub Seed : Type 0
  pub intn : Seed → ℕ → ℕ × Seed

-- The documentation of `Intn(n)`: a number in [0, n).
pub record IsLawfulRand (R : Rand) : Type 0 where
  pub intn-lt : (s : R.Seed) (n : ℕ) → 0 < n → (R.intn s n).0 < n

abbrev pub chars : String → List Char
chars String.[] = []
chars (String.◌∷◌ c s) = c ∷ chars s

abbrev pub alphachars : String
alphachars = "0123456789abcdefghijklmnopqrstuvwxyzABCDEFGHIJKLMNOPQRSTUVWXYZ"

-- `s[i]` of a text of one-byte characters; `none` is the panic of an index out of range.
unfoldable pub byte_at : String → ℕ → Option Char
byte_at String.[] i = none
byte_at (String.◌∷◌ c s) zero = some c
byte_at (String.◌∷◌ c s) (suc i) = byte_at s i

module _ (R : Rand) where
  unfoldable pub write_byte : Option Char → Option String × R.Seed → Option String × R.Seed
  write_byte none (rest, s) = (none, s)
  write_byte (some c) (none, s) = (none, s)
  write_byte (some c) (some t, s) = (some (String.◌∷◌ c t), s)

  unfoldable pub unique_string : ℕ → R.Seed → Option String × R.Seed
  unfolding write_byte byte_at
  unique_string zero s = (some "", s)
  unique_string (suc alpha) s =
      let (idx, s') = R.intn s 62 in
      elim (byte_at alphachars idx) [
        | none ↦ (none, s')
        | some c ↦ write_byte (some c) (unique_string alpha s')
      ]
