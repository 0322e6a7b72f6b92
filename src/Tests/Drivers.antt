-- ===== src/Tests/Drivers.antt =====
-- A toy gob, a LevelDB without rows, and an index of names.
use gocrud.Prelude.{
  ℕ, ◌%◌, String, ◌≡◌, refl, true, false, none, some, List, [], ◌∷◌, ◌++◌, length, ℤ, pos, negsuc,
  All, arith,
}
use gocrud.Prelude.Dict
use gocrud.Outcome.{Fallible, value, error, ok, err}
use gocrud.X.{Entity, Instruction}
use gocrud.X.Codec.{Gob, IsLawfulGob, gob_encode, gob_decode, gob_decode-gob_encode}
use gocrud.X.UniqueString.{Rand, IsLawfulRand, chars, alphachars, unique_string}
use gocrud.X.Ids.{IsIn, unique_string_lem}
use gocrud.Leveldb.{LevelDb, is_new, decode_all, batch}
use gocrud.Leveldb.Rows.{decode_all-batch}
use gocrud.Indexer.{Engine, Indexer, Indexers, regenerate_and_index}

-- Only empty texts, values of one byte, and times from 0 on can be written.
abbrev text : String → Fallible (List ℕ)
text String.[] = value []
text _ = error "a text"

abbrev one_byte : List ℕ → Fallible (List ℕ)
one_byte (n ∷ []) = value (n ∷ [])
one_byte _ = error "bytes"

abbrev read_byte : List ℕ → Fallible (List ℕ × List ℕ)
read_byte [] = error "EOF"
read_byte (n ∷ rest) = value (n ∷ [], rest)

abbrev time : ℤ → Fallible (List ℕ)
time (pos n) = value (n ∷ [])
time (negsuc n) = error "a time"

abbrev read_time : List ℕ → Fallible (ℤ × List ℕ)
read_time [] = error "EOF"
read_time (n ∷ rest) = value (pos n, rest)

abbrev pub gob : Gob
gob = record {
  encode_string = text;
  encode_bytes = one_byte;
  encode_int64 = time;
  decode_string = λ b. value ("", b);
  decode_bytes = read_byte;
  decode_int64 = read_time;
}

text_back :
    (s : String) (w rest : List ℕ)
    → text s ≡ value w
    → gob.decode_string (w ++ rest) ≡ value (s, rest)
text_back String.[] w rest h = cc
text_back (String.◌∷◌ c s) w rest h = cc

bytes_back : (b w rest : List ℕ) → one_byte b ≡ value w → read_byte (w ++ rest) ≡ value (b, rest)
bytes_back [] w rest h = cc
bytes_back (n ∷ []) w rest h = let e : n ∷ [] ≡ w = cc in rw (← e) refl
bytes_back (n ∷ m ∷ b) w rest h = cc

time_back : (n : ℤ) (w rest : List ℕ) → time n ≡ value w → read_time (w ++ rest) ≡ value (n, rest)
time_back (pos n) w rest h = let e : n ∷ [] ≡ w = cc in rw (← e) refl
time_back (negsuc n) w rest h = cc

gob-IsLawfulGob : IsLawfulGob gob
gob-IsLawfulGob = (text_back, bytes_back, time_back)

abbrev pub row : ℕ → ℕ → Instruction
row v ts = record {
  subject_id = "";
  subject_type = "";
  predicate = "";
  object = v ∷ [];
  object_id = "";
  nano_ts = pos ts;
  source = "";
}

row_bytes : gob_encode gob (row 5 9) ≡ ok (5 ∷ 9 ∷ [])
unfolding gob_encode
row_bytes = refl

gob_decode-gob_encode_example : gob_decode gob ((5 ∷ 9 ∷ []) ++ (1 ∷ [])) ≡ ok (row 5 9, 1 ∷ [])
gob_decode-gob_encode_example =
    gob_decode-gob_encode gob (row 5 9) (5 ∷ 9 ∷ []) (1 ∷ []) gob-IsLawfulGob row_bytes

abbrev empty_db : LevelDb
empty_db = record {
  Db = Unit;
  has = λ db key. value false;
  write = λ rows db. (value tt, db);
  by_prefix = λ db id. record { values = []; failure = none };
  from = λ db id. record { values = []; failure = none };
}

rows_put :
    batch gob empty_db (row 5 9 ∷ row 6 10 ∷ []) ("a" ∷ "b" ∷ [])
    ≡ ok (("a", 5 ∷ 9 ∷ []) ∷ ("b", 6 ∷ 10 ∷ []) ∷ [])
unfolding batch gob_encode
rows_put = refl

decode_all-batch_example :
    ((spare : List String) × ("a" ∷ "b" ∷ [] ≡ "a" ∷ "b" ∷ spare))
    × (decode_all gob empty_db (some (5 ∷ 9 ∷ []) ∷ some (6 ∷ 10 ∷ []) ∷ [])
        ≡ ok (row 5 9 ∷ row 6 10 ∷ []))
decode_all-batch_example =
    decode_all-batch gob empty_db (row 5 9 ∷ row 6 10 ∷ []) ("a" ∷ "b" ∷ [])
      (("a", 5 ∷ 9 ∷ []) ∷ ("b", 6 ∷ 10 ∷ []) ∷ []) gob-IsLawfulGob rows_put

new_id : is_new gob empty_db tt "id" ≡ true
unfolding is_new
new_id = refl

-- A generator that always draws 7.
abbrev seven : Rand
seven = record { Seed = Unit; intn = λ s n. (7 % n, s) }

seven-IsLawfulRand : IsLawfulRand seven
seven-IsLawfulRand = record { intn-lt = λ s n h. omega arith }

unique_string_lem_example :
    (u : String) × ((unique_string seven 3 tt).0 ≡ some u)
    × (length (chars u) ≡ 3)
    × All (λ c. IsIn c alphachars) (chars u)
unique_string_lem_example = unique_string_lem seven 3 tt seven-IsLawfulRand

-- The engine keeps the names that it is given, and refuses an empty one.
abbrev pub names : Engine (List String) String
names = record {
  update = λ d ix. elim d [
    | String.[] ↦ (err "no name", ix)
    | String.◌∷◌ c t ↦ (ok tt, ix ++ (String.◌∷◌ c t) ∷ [])
  ];
}

abbrev named : Entity → List Entity
named e = e ∷ record { kind = "Post"; id = "" } ∷ []

abbrev name_of : Entity → String
name_of e = e.id

abbrev pub by_id : Indexer (List String) String
by_id = record { on_update = λ e w. (ok (named e), w); regenerate = λ e w. (ok (name_of e), w) }

abbrev pub idxs : Indexers (List String) String
idxs = ("Post", by_id) ∷ []

abbrev two : List Entity
two =
    record { kind = "Post"; id = "" }
    ∷ record { kind = "User"; id = "u" }
    ∷ record { kind = "Post"; id = "p" }
    ∷ []

indexed : regenerate_and_index (List String) String idxs names two [] ≡ (ok tt, "p" ∷ [])
unfolding regenerate_and_index Dict.lookup
indexed = refl
