-- ===== src/X/Ids.antt =====
-- Fresh ids have the length asked for, and no character but letters and digits.
use Prim.Native.Char.{Char}
use gocrud.Prelude.{
  ℕ, zero, suc, ◌<◌, ◌≡◌, refl, String, Option, none, some, All, length, arith, ap,
}
use gocrud.X.UniqueString.{
  Rand, IsLawfulRand, chars, alphachars, byte_at, write_byte, unique_string,
}

-- A place of the text has the character.
abbrev pub IsIn : Char → String → Type 0
IsIn c s = (i : ℕ) × (i < length (chars s)) × (byte_at s i ≡ some c)

not_below : (i : ℕ) → i < 0 → ⊥
not_below i h = omega arith

byte_at-total : (s : String) (i : ℕ) → i < length (chars s) → (c : Char) × (byte_at s i ≡ some c)
unfolding byte_at
byte_at-total String.[] i h = absurd (not_below i h)
byte_at-total (String.◌∷◌ c s) zero h = (c, refl)
byte_at-total (String.◌∷◌ c s) (suc i) h = byte_at-total s i (omega arith)

length-alphachars : length (chars alphachars) ≡ 62
length-alphachars = refl

module _ (R : Rand) where
  write_byte-some :
      (c : Char) (p : Option String × R.Seed) {u : String}
      → p.0 ≡ some u
      → (write_byte R (some c) p).0 ≡ some (String.◌∷◌ c u)
  unfolding write_byte
  write_byte-some c (none, s) h = cc
  write_byte-some c (some t, s) h = cc

  -- If the generator draws below its bound, `UniqueString` does not panic, and returns a text of the
  -- length asked for, of letters and digits.
  pub unique_string_lem :
      (alpha : ℕ) (s : R.Seed)
      → IsLawfulRand R
      → (u : String) × ((unique_string R alpha s).0 ≡ some u)
        × (length (chars u) ≡ alpha)
        × All (λ c. IsIn c alphachars) (chars u)
  unfolding unique_string
  unique_string_lem zero s lawful = ("", refl, refl, tt)
  unique_string_lem (suc alpha) s lawful =
      let below = lawful.intn-lt s 62 (omega arith) in
      let (c, read) =
        byte_at-total alphachars (R.intn s 62).0 (omega (arith, below, length-alphachars)) in
      let (u, drawn, long, within) = unique_string_lem alpha (R.intn s 62).1 lawful in
      (
        String.◌∷◌ c u,
        rw (read, unique_string) (write_byte-some c (unique_string R alpha (R.intn s 62).1) drawn),
        ap suc long,
        (((R.intn s 62).0, below, read), within),
      )
