-- ===== src/Req.antt =====
-- req/req.go: the context that a caller passes to `Execute`.
use gocrud.Prelude.{ℕ, ℤ, Bool, true, false, Option, none, some, List, []}
use gocrud.X.{Entity}

-- `updates` is the channel, with its capacity and what has been sent to it.
pub record Context : Type 0 where
  pub num_chars_unique : ℤ
  pub updates : Option (ℕ × List Entity)
  pub has_indexer : Bool

unfoldable pub new_context : ℤ → Context
new_context num_chars = record { num_chars_unique = num_chars; updates = none; has_indexer = false }

unfoldable pub new_context_with_updates : ℤ → ℕ → Context
new_context_with_updates num_chars buffer = record {
  num_chars_unique = num_chars;
  updates = some (buffer, []);
  has_indexer = true;
}
