-- ===== src/Tests/Data.antt =====
-- Small stand-ins for what the program does not implement.
use gocrud.Prelude.{
  ℕ, zero, suc, ◌+◌, ◌%◌, String, Bool, true, false, ◌==◌, List, [], ◌∷◌, ◌++◌, if◌then◌else◌,
}
use gocrud.Outcome.{value, error, ok}
use gocrud.X.{Instruction}
use gocrud.X.UniqueString.{Rand}
use gocrud.Store.{Store}
use gocrud.Store.Update.{Json}

-- Values are numbers, written as one byte; 13 cannot be written.
abbrev pub numbers : Json
numbers = record {
  Value = ℕ;
  nil_value = 0;
  true_value = 1;
  marshal = λ v. elim v [ zero ↦ error "no zero" | suc n ↦ value (n ∷ []) ];
  unmarshal = λ b. elim b [ [] ↦ error "no byte" | n ∷ _ ↦ value (n + 1) ];
}

-- A generator that counts.
abbrev pub counter : Rand
counter = record { Seed = ℕ; intn = λ s n. (s % n, s + 1) }

abbrev pub is_free : List Instruction → String → Bool
is_free [] id = true
is_free (it ∷ its) id = if it.subject_id == id then false else is_free its id

abbrev pub rows_of : List Instruction → String → List Instruction
rows_of [] id = []
rows_of (it ∷ its) id = let rest = rows_of its id in if it.subject_id == id then it ∷ rest else rest

-- A store that keeps its rows in a list.
abbrev pub list_store : Store
list_store = record {
  State = List Instruction;
  commit = λ its db. (value tt, db ++ its);
  is_new = is_free;
  get_entity = λ db id. value (rows_of db id);
  iterate = λ db from num. ([], ok (0, record { kind = ""; id = "" }));
}
