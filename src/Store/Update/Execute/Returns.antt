-- ===== src/Store/Update/Execute/Returns.antt =====
-- When `Execute` comes back.
use gocrud.Prelude.{◌≡◌, true}
use gocrud.Prelude.Dict.{Dict}
use gocrud.Outcome.{Outcome}
use gocrud.Req.{Context}
use gocrud.X.UniqueString.{Rand}
use gocrud.Store.{Store}
use gocrud.Store.Update.{Json}
use gocrud.Store.Update.Execute.{Session}
use gocrud.Store.Update.Execute.Sends.{Waits}

module _ (J : Json) (R : Rand) (S : Store) (range : Dict J.Value → Dict J.Value) where
  -- The call waits at its channel, which is nil or takes no more entities than have gone in.
  abbrev pub IsBlocked : Context → Session J R S → Type 0
  IsBlocked c t = (c.has_indexer ≡ true) × Waits J R S range c.updates t
