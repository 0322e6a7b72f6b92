-- ===== src/Store/Registry.antt =====
-- store/store.go: `Register` and `Get` of the one driver of the process, over drivers of any type.
use gocrud.Prelude.{◌≡◌, Option, none, some, List, [], ◌∷◌}
use gocrud.Outcome.{Outcome, ok, err, halt, pending}

module _ {D : Type 0} where
  -- The variable `driver`; a nil driver is `none`.
  unfoldable pub register : Option D → Option D → Outcome (Unit {0}) × Option D
  register none driver = (halt "Nil store", driver)
  register (some store) none = (ok tt, some store)
  register (some store) (some driver) = (halt "Register called twice", some driver)

  unfoldable pub get_driver : Option D → Outcome D
  get_driver none = halt "No driver registered"
  get_driver (some driver) = ok driver

  -- `Register` of each driver of a list, as the `init` functions of the drivers call it, until the process
  -- ends.
  abbrev pub register_next :
      (Option D → Outcome (Unit {0}) × Option D)
      → Outcome (Unit {0}) × Option D
      → Outcome (Unit {0}) × Option D
  register_next next (ok u, driver) = next driver
  register_next next (err e, driver) = (err e, driver)
  register_next next (halt e, driver) = (halt e, driver)
  register_next next (pending, driver) = (pending, driver)

  abbrev pub register_all : List (Option D) → Option D → Outcome (Unit {0}) × Option D
  register_all [] driver = (ok tt, driver)
  register_all (d ∷ ds) driver = register_next (register_all ds) (register d driver)

  -- A process in which every call of `Register` has come back, and `Get` too, has registered exactly one
  -- driver, and `Get` returns it.
  pub get_driver-register_all :
      (ds : List (Option D)) (d : D)
      → (register_all ds none).0 ≡ ok tt
      → get_driver (register_all ds none).1 ≡ ok d
      → ds ≡ some d ∷ []
  unfolding register get_driver
  get_driver-register_all [] d h g = cc
  get_driver-register_all (none ∷ ds) d h g = cc
  get_driver-register_all (some e ∷ []) d h g = cc
  get_driver-register_all (some e ∷ none ∷ ds) d h g = cc
  get_driver-register_all (some e ∷ some f ∷ ds) d h g = cc
