-- ===== src/X/Codec.antt =====
-- x/x.go: `GobEncode` and `GobDecode` of an instruction, over encoding/gob as a parameter.
use gocrud.Prelude.{ℕ, String, ◌≡◌, refl, ap, ◌∙◌, List, [], ◌++◌, append_assoc, ℤ}
use gocrud.Outcome.{Outcome, Fallible, value, error, ok, lift, ◌>>=◌, >>=-eq-ok, value_of_lift}
use gocrud.X.{Instruction}

-- What `Encode` writes for a value, and what `Decode` reads from a buffer, with the rest of it.
pub record Gob : Type 0 where
  pub encode_string : String → Fallible (List ℕ)
  pub encode_bytes : List ℕ → Fallible (List ℕ)
  pub encode_int64 : ℤ → Fallible (List ℕ)
  pub decode_string : List ℕ → Fallible (String × List ℕ)
  pub decode_bytes : List ℕ → Fallible (List ℕ × List ℕ)
  pub decode_int64 : List ℕ → Fallible (ℤ × List ℕ)

-- The documentation of gob: a decoder reads back each value of a stream that an encoder wrote.
abbrev pub IsLawfulGob : Gob → Type 0
IsLawfulGob G =
    ((s : String) (w rest : List ℕ)
      → G.encode_string s ≡ value w
      → G.decode_string (w ++ rest) ≡ value (s, rest))
    × ((b : List ℕ) (w rest : List ℕ)
        → G.encode_bytes b ≡ value w
        → G.decode_bytes (w ++ rest) ≡ value (b, rest))
    × ((n : ℤ) (w rest : List ℕ)
        → G.encode_int64 n ≡ value w
        → G.decode_int64 (w ++ rest) ≡ value (n, rest))

-- `enc.Encode(v)`, which appends to the buffer.
abbrev pub append : Fallible (List ℕ) → List ℕ → Outcome (List ℕ)
append m w = lift m >>= λ b. ok (w ++ b)

writes_assoc :
    (a b c d e f g rest : List ℕ)
    → ((((((a ++ b) ++ c) ++ d) ++ e) ++ f) ++ g) ++ rest
      ≡ a ++ (b ++ (c ++ (d ++ (e ++ (f ++ (g ++ rest))))))
writes_assoc a b c d e f g rest = simp (append_assoc)

module _ (G : Gob) where
  unfoldable pub gob_encode : Instruction → Outcome (List ℕ)
  gob_encode i =
      append (G.encode_string i.subject_id) []
      >>= append (G.encode_string i.subject_type)
      >>= append (G.encode_string i.predicate)
      >>= append (G.encode_bytes i.object)
      >>= append (G.encode_string i.object_id)
      >>= append (G.encode_int64 i.nano_ts)
      >>= append (G.encode_string i.source)

  -- With the rest of the buffer.
  unfoldable pub gob_decode : List ℕ → Outcome (Instruction × List ℕ)
  gob_decode r₀ = do
    (subject_id, r₁) ← lift (G.decode_string r₀)
    (subject_type, r₂) ← lift (G.decode_string r₁)
    (predicate, r₃) ← lift (G.decode_string r₂)
    (object, r₄) ← lift (G.decode_bytes r₃)
    (object_id, r₅) ← lift (G.decode_string r₄)
    (nano_ts, r₆) ← lift (G.decode_int64 r₅)
    (source, r₇) ← lift (G.decode_string r₆)
    ok (
      record {
        subject_id = subject_id;
        subject_type = subject_type;
        predicate = predicate;
        object = object;
        object_id = object_id;
        nano_ts = nano_ts;
        source = source;
      },
      r₇,
    )

  append-inv :
      (o : Outcome (List ℕ)) (m : Fallible (List ℕ)) {w : List ℕ}
      → (o >>= append m) ≡ ok w
      → (a : List ℕ) × (b : List ℕ) × (o ≡ ok a) × (m ≡ value b) × (w ≡ a ++ b)
  append-inv o m h =
      let (a, before, h₁) = >>=-eq-ok o _ h in
      let (b, written, h₂) = >>=-eq-ok (lift m) _ h₁ in (a, b, before, value_of_lift m written, cc)

  append-first : (m : Fallible (List ℕ)) {w : List ℕ} → append m [] ≡ ok w → m ≡ value w
  append-first (value b) h = cc
  append-first (error e) h = cc

  decode-writes :
      (i : Instruction) (rest a b c d e f g : List ℕ)
      → IsLawfulGob G
      → G.encode_string i.subject_id ≡ value a
      → G.encode_string i.subject_type ≡ value b
      → G.encode_string i.predicate ≡ value c
      → G.encode_bytes i.object ≡ value d
      → G.encode_string i.object_id ≡ value e
      → G.encode_int64 i.nano_ts ≡ value f
      → G.encode_string i.source ≡ value g
      → gob_decode (a ++ (b ++ (c ++ (d ++ (e ++ (f ++ (g ++ rest))))))) ≡ ok (i, rest)
  unfolding gob_decode
  decode-writes i rest a b c d e f g (text, bytes, int) ha hb hc hd he hf hg =
      rw
        (
          text i.subject_id a (b ++ (c ++ (d ++ (e ++ (f ++ (g ++ rest)))))) ha,
          text i.subject_type b (c ++ (d ++ (e ++ (f ++ (g ++ rest))))) hb,
          text i.predicate c (d ++ (e ++ (f ++ (g ++ rest)))) hc,
          bytes i.object d (e ++ (f ++ (g ++ rest))) hd,
          text i.object_id e (f ++ (g ++ rest)) he,
          int i.nano_ts f (g ++ rest) hf,
          text i.source g rest hg,
        )
        refl

  -- If gob reads back the values that it has written, an instruction that is encoded without an error is
  -- decoded as it was, whatever follows in the buffer.
  pub gob_decode-gob_encode :
      (i : Instruction) (w rest : List ℕ)
      → IsLawfulGob G
      → gob_encode i ≡ ok w
      → gob_decode (w ++ rest) ≡ ok (i, rest)
  unfolding gob_encode
  gob_decode-gob_encode i w rest lawful h =
      let (w₆, g, h₆, hg, q₆) = append-inv _ (G.encode_string i.source) h in
      let (w₅, f, h₅, hf, q₅) = append-inv _ (G.encode_int64 i.nano_ts) h₆ in
      let (w₄, e, h₄, he, q₄) = append-inv _ (G.encode_string i.object_id) h₅ in
      let (w₃, d, h₃, hd, q₃) = append-inv _ (G.encode_bytes i.object) h₄ in
      let (w₂, c, h₂, hc, q₂) = append-inv _ (G.encode_string i.predicate) h₃ in
      let (w₁, b, h₁, hb, q₁) = append-inv _ (G.encode_string i.subject_type) h₂ in
      let ha = append-first (G.encode_string i.subject_id) h₁ in
      let to_e = q₄ ∙ ap (λ l. l ++ e) (q₃ ∙ ap (λ l. l ++ d) (q₂ ∙ ap (λ l. l ++ c) q₁)) in
      ap (λ l. gob_decode (l ++ rest)) (q₆ ∙ ap (λ l. l ++ g) (q₅ ∙ ap (λ l. l ++ f) to_e))
      ∙ ap gob_decode (writes_assoc w₁ b c d e f g rest)
      ∙ decode-writes i rest w₁ b c d e f g lawful ha hb hc hd he hf hg
