-- ===== src/Tests/Update.antt =====
-- Updates: a user with a post.
use gocrud.Prelude.{◌<◌, ◌≡◌, refl, false, none, List, [], ◌∷◌, map, length, pos, arith}
use gocrud.Prelude.Dict
use gocrud.Req.{Context, new_context_with_updates}
use gocrud.X.{Entity, Instruction}
use gocrud.X.UniqueString.{unique_string}
use gocrud.Store.Arena.{modify, root}
use gocrud.Store.Update.{Updates, new_update, set_source, add_child, set}
use gocrud.Store.Update.Execute.{
  Session, emit, do_execute, execute, distinct_from, contains, property_row, child_row, parent_row,
  emit_edges, draw_id, fresh_id, deref, marshal, add_one, add_all, add_children, notify,
}
use gocrud.Store.Update.Execute.{subject}
use gocrud.Store.Update.Execute.Effect.{Effect, execute-Effect}
use gocrud.Store.Update.Execute.Notify.{IsDistinct, notify_exact}
use gocrud.Store.Update.WellFormed.{
  IsLinked, IsTree, IsTree-set, IsTree-add_child, IsTree-set_source, IsTree-new_update,
}
use gocrud.Tests.Data.{numbers, counter, list_store}

build : Updates numbers
unfolding new_update set_source add_child set modify Dict.insert
build =
    let us = set_source numbers "uid" 0 (new_update numbers "User" "uid" (pos 7) []).0 in
    set numbers "body" 5 1 (add_child numbers "Post" 0 us).1

abbrev start : Session numbers counter list_store
start = record { arena = build; seed = 0; db = []; sent = []; taken = 0; is_closed = false }

saved : Context → Session numbers counter list_store
unfolding execute do_execute build emit_edges draw_id fresh_id deref marshal add_one add_all
    add_children unique_string
saved c = (execute numbers counter list_store (λ d. d) c 0 start).1

posts : (saved (new_context_with_updates (pos 2) 10)).db ≡ (
    record {
      subject_id = "uid";
      subject_type = "User";
      predicate = "Post";
      object = [];
      object_id = "01";
      nano_ts = pos 7;
      source = "uid";
    }
    ∷ record {
      subject_id = "01";
      subject_type = "Post";
      predicate = "_parent_";
      object = [];
      object_id = "uid";
      nano_ts = pos 7;
      source = "uid";
    }
    ∷ record {
      subject_id = "01";
      subject_type = "Post";
      predicate = "body";
      object = 4 ∷ [];
      object_id = "";
      nano_ts = pos 7;
      source = "uid";
    }
    ∷ [])
unfolding saved new_context_with_updates emit property_row child_row parent_row notify root
posts = refl

told :
    (saved (new_context_with_updates (pos 2) 10)).sent
    ≡ (record { kind = "User"; id = "uid" } ∷ record { kind = "Post"; id = "01" } ∷ [])
unfolding saved new_context_with_updates emit property_row child_row parent_row notify root
told = refl

abbrev context : Context
context = record { num_chars_unique = pos 2; updates = none; has_indexer = false }

build-IsTree : IsTree numbers build
unfolding build
build-IsTree =
    let us = (new_update numbers "User" "uid" (pos 7) []).0 in
    let vs = set_source numbers "uid" 0 us in
    let ws = (add_child numbers "Post" 0 vs).1 in
    IsTree-set numbers "body" 5 1 ws (
      (λ (t : IsTree numbers vs). (IsTree-add_child numbers "Post" 0 vs t (omega arith)).0)
        (IsTree-set_source numbers "uid" 0 us (
          IsTree-new_update numbers "User" "uid" (pos 7) []
            (record { below = λ n p s e up. cc; above = λ n s e. cc }))))

length-build : 1 < length build
unfolding build
length-build = omega arith

execute-Effect_example :
    Effect numbers counter list_store
      (λ d. d)
      context
      1
      start
      (execute numbers counter list_store (λ d. d) context 1 start).0
      (execute numbers counter list_store (λ d. d) context 1 start).1
execute-Effect_example = execute-Effect numbers counter list_store (λ d. d) context 1 start

-- A channel with room for one entity, from which nobody takes.
abbrev narrow : Context
narrow = new_context_with_updates (pos 2) 1

stands : (saved narrow).sent ≡ record { kind = "User"; id = "uid" } ∷ []
unfolding saved new_context_with_updates emit property_row child_row parent_row notify root
stands = refl

IsTree-add_child_example :
    IsTree numbers (add_child numbers "Like" 1 build).1
    × IsLinked numbers "Like" 1 build
        (add_child numbers "Like" 1 build).0
        (add_child numbers "Like" 1 build).1
IsTree-add_child_example = IsTree-add_child numbers "Like" 1 build build-IsTree length-build

abbrev batch : List Instruction
batch =
    record {
      subject_id = "a";
      subject_type = "U";
      predicate = "p";
      object = [];
      object_id = "";
      nano_ts = pos 1;
      source = "s";
    }
    ∷ record {
      subject_id = "a";
      subject_type = "U";
      predicate = "q";
      object = [];
      object_id = "";
      nano_ts = pos 1;
      source = "s";
    }
    ∷ []

notify_exact_example :
    IsDistinct (distinct_from [] batch)
    × ((e : Entity) → contains e (distinct_from [] batch) ≡ contains e (map subject batch))
notify_exact_example = notify_exact batch
