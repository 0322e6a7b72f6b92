-- ===== src/Tests/Walks.antt =====
-- A LevelDB of one row, and a Cassandra table of three.

use mathlib.Core.List.Memᴰ.{not-nil, cases_cons}
use gocrud.Prelude.{
  starts_with, ◌↔◌, has_none, ◌≤◌, String, ◌≡◌, refl, inl, inr, Memᴰ, true, none, some, List, [],
  ◌∷◌, length, take, arith,
}
use gocrud.Outcome.{value, error, ok, pending}
use gocrud.X.{Entity, Instruction}
use gocrud.X.Codec.{gob_decode}
use gocrud.Leveldb.{Bytes, LevelDb, iterate, get_entity, is_new}
use gocrud.Leveldb.Prefixes.{IsPrefixed, IsUnder, get_entity-begins}
use gocrud.Leveldb.Endless.{IsOrdered, IsRow, above, values, loop_once-endless}
use gocrud.Indexer.{loop_once}
use gocrud.Cassandra
use gocrud.Cassandra.{Session}
use gocrud.Cassandra.Pages.{NoneTwice, iterate_bounds}
use gocrud.Tests.Drivers.{gob, row}

abbrev entry : String × Bytes
entry = ("_1", 5 ∷ 9 ∷ [])

abbrev one_row : LevelDb
one_row = record {
  Db = Unit;
  has = λ db key. value true;
  write = λ rows db. (error "read only", db);
  by_prefix = λ db id. record { values = some (5 ∷ 9 ∷ []) ∷ []; failure = none };
  from = λ db id. record { values = some (5 ∷ 9 ∷ []) ∷ []; failure = none };
}

-- The iterator over a prefix walks over the row if its key begins with it.
abbrev by_key : LevelDb
by_key = record {
  Db = Unit;
  has = λ db key. value true;
  write = λ rows db. (error "read only", db);
  by_prefix = λ db id. record {
    values = values (above (λ e. starts_with e.0 id) (entry ∷ []));
    failure = none;
  };
  from = λ db id. record { values = some (5 ∷ 9 ∷ []) ∷ []; failure = none };
}

one_row-IsOrdered : IsOrdered one_row
one_row-IsOrdered = record {
  entries = λ db. entry ∷ [];
  not_below = λ s t. true;
  walks = λ db start. refl;
  prefix = λ s t. refl;
  least = λ s. refl;
}

entry-IsRow : IsRow gob entry
unfolding gob_decode
entry-IsRow = record { row = row 5 9; rest = []; read = refl; suffix = "_1"; key = refl }

all_rows : (x : String × Bytes) → Memᴰ x (entry ∷ []) → IsRow gob x
all_rows x m = elim (cases_cons m) [ inl e ↦ rw e entry-IsRow | inr t ↦ absurd (not-nil t) ]

loop_once-endless_example : (loop_once (iterate gob one_row tt) 100).0 ≡ pending
unfolding one_row-IsOrdered
loop_once-endless_example =
    loop_once-endless gob one_row one_row-IsOrdered tt all_rows entry (Memᴰ.head refl) 100

abbrev table : List Entity
table =
    record { kind = "Post"; id = "p" }
    ∷ record { kind = "Post"; id = "p" }
    ∷ record { kind = "User"; id = "u" }
    ∷ []

abbrev session : Session
session = record {
  Db = Unit;
  ids = λ db id. record { rows = id ∷ []; failure = none };
  select = λ db id. record { rows = []; failure = none };
  page = λ db id num. record { rows = take num table; failure = none };
  execute_batch = λ its db. (value tt, db);
}

iterate_bounds_example :
    NoneTwice session (Cassandra.iterate session tt "" 3).0
    × (length (Cassandra.iterate session tt "" 3).0 ≤ 3)
iterate_bounds_example = iterate_bounds session tt "" 3 (omega arith)

by_key-IsPrefixed : IsPrefixed by_key
by_key-IsPrefixed = record { entries = λ db. entry ∷ []; walks = λ db id. refl }

get_entity-begins_example :
    (its : List Instruction) × (get_entity gob by_key tt "" ≡ ok its)
    × ((i : Instruction)
        → Memᴰ i its ↔ ((e : String × Bytes) × Memᴰ e (entry ∷ []) × IsUnder gob by_key "" i e))
    × (is_new gob by_key tt "" ≡ has_none its)
unfolding by_key-IsPrefixed
get_entity-begins_example = get_entity-begins gob by_key by_key-IsPrefixed tt "" all_rows
