-- ===== src/Store.antt =====
-- store/store.go: what a driver of a data store offers.
pub mod Arena
pub mod Registry
pub mod ReadBack
pub mod Update
pub mod Query
use gocrud.Prelude.{ℕ, String, List, Bool}
use gocrud.Outcome.{Outcome, Fallible}
use gocrud.X.{Entity, Instruction}

-- A driver over the state of its database. `iterate` returns the entities that it sends to the
-- channel, with its three results.
pub record Store : Type 1 where
  pub State : Type 0
  pub commit : List Instruction → State → Fallible (Unit {0}) × State
  pub is_new : State → String → Bool
  pub get_entity : State → String → Fallible (List Instruction)
  pub iterate : State → String → ℕ → List Entity × Outcome (ℕ × Entity)
