-- ===== src/X.antt =====
-- x/x.go: the rows that are stored, the documents that are indexed, and fresh ids.
pub mod UniqueString
pub mod Codec
pub mod Ids
pub mod Url
pub mod Http
pub mod Its
use gocrud.Prelude.{ℕ, String, List, ℤ, Bool, ◌&&◌, ◌==◌}

pub record Entity : Type 0 where
  pub kind : String
  pub id : String

-- `e == f` on the struct.
abbrev pub same_entity : Entity → Entity → Bool
same_entity e f = e.kind == f.kind && e.id == f.id

-- `Object` is a slice of bytes.
pub record Instruction : Type 0 where
  pub subject_id : String
  pub subject_type : String
  pub predicate : String
  pub object : List ℕ
  pub object_id : String
  pub nano_ts : ℤ
  pub source : String
