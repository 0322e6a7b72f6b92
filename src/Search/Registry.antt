-- ===== src/Search/Registry.antt =====
-- search/search.go: `Register` and `Get` of the one search engine of the process, over engines of any type.
use gocrud.Prelude.{Option, none, some}
use gocrud.Outcome.{Outcome, ok, halt}

module _ {E : Type 0} where
  -- The variable `dengine`; a nil engine is `none`.
  unfoldable pub register : Option E → Option E → Outcome (Unit {0}) × Option E
  register none dengine = (halt "nil engine", dengine)
  register (some driver) none = (ok tt, some driver)
  register (some driver) (some dengine) = (halt "Register called twice", some dengine)

  unfoldable pub get_engine : Option E → Outcome E
  get_engine none = halt "No engine registered"
  get_engine (some dengine) = ok dengine
