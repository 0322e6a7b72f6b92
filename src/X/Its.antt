-- ===== src/X/Its.antt =====
-- x/x.go: `Its`, the interface of rows to sort.Sort.
use gocrud.Prelude.{ℕ, Bool, none, some, List, get_elem?, set, ltb_ℤ}
use gocrud.Outcome.{Outcome, ok, halt, ◌>>=◌}
use gocrud.X.{Instruction}

-- `its[i]`
unfoldable pub at : List Instruction → ℕ → Outcome Instruction
at its i = elim (get_elem? its i) [ none ↦ halt "index out of range" | some it ↦ ok it ]

unfoldable pub swap : ℕ → ℕ → List Instruction → Outcome (List Instruction)
unfolding at
swap i j its = do a ← at its i; b ← at its j; ok (set (set its i b) j a)

unfoldable pub less : ℕ → ℕ → List Instruction → Outcome Bool
unfolding at
less i j its = do a ← at its i; b ← at its j; ok (ltb_ℤ a.nano_ts b.nano_ts)
