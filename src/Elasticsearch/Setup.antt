-- ===== src/Elasticsearch/Setup.antt =====
-- drivers/elasticsearch/elastic.go: `Init` and `DropIndex`, over the client as a parameter.
use gocrud.Prelude.{String, ◌≡◌, refl, ap, subst, ◌⊎◌, inl, inr, Bool, true, false, List, [], ◌∷◌}
use gocrud.Outcome.{Outcome, Fallible, Fallible-cases, value, error, ok, halt, lift}

-- The calls of the client that set up an index, over the state of the server. `create` tells whether
-- the creation is acknowledged.
pub record Admin : Type 1 where
  pub Server : Type 0
  pub Client : Type 0
  pub new_client : String → Fallible Client
  pub version : Client → String → Server → Fallible String
  pub exists : Client → String → Server → Fallible Bool
  pub create : Client → String → Server → Fallible Bool × Server
  pub delete : Client → String → Server → Fallible (Unit {0}) × Server

module _ (A : Admin) where
  -- An index that is not acknowledged is logged; the client is kept all the same.
  unfoldable pub create_index : A.Client → A.Server → Outcome A.Client × A.Server
  create_index client s =
      let (created, s') = A.create client "gocrud" s in
      elim created [
        | error e ↦ (halt "Unable to create index.", s')
        | value acknowledged ↦ (ok client, s')
      ]

  unfoldable pub ensure_index : A.Client → Fallible Bool → A.Server → Outcome A.Client × A.Server
  unfolding create_index
  ensure_index client (error e) s = (halt "Unable to query index existence.", s)
  ensure_index client (value true) s = (ok client, s)
  ensure_index client (value false) s = create_index client s

  unfoldable pub connect : String → Fallible A.Client → A.Server → Outcome A.Client × A.Server
  unfolding ensure_index
  connect url (error e) s = (halt "While creating connection with ElaticSearch.", s)
  connect url (value client) s = elim (A.version client url s) [
    | error e ↦ (halt "Unable to query version", s)
    | value version ↦ ensure_index client (A.exists client "gocrud" s) s
  ]

  unfoldable pub init : List String → A.Server → Outcome A.Client × A.Server
  unfolding connect
  init (url ∷ []) s = connect url (A.new_client url) s
  init _ s = (halt "Invalid arguments", s)

  unfoldable pub drop_index : A.Client → A.Server → Outcome (Unit {0}) × A.Server
  drop_index client s = let (dropped, s') = A.delete client "gocrud" s in (lift dropped, s')

  -- How `ensure_index` comes back: it has found the index and changed nothing, or has not found it and
  -- has created it.
  abbrev pub Ensured : A.Client → A.Server → A.Server → Type 0
  Ensured client s s' =
      (A.exists client "gocrud" s ≡ value true) × (s' ≡ s)
      ⊎ (A.exists client "gocrud" s ≡ value false)
        × ((acknowledged : Bool) × (A.create client "gocrud" s ≡ (value acknowledged, s')))

  create_index-inv :
      (client c : A.Client) (o : Fallible Bool × A.Server) (s s' : A.Server)
      → A.create client "gocrud" s ≡ o
      → create_index client s ≡ (ok c, s')
      → (client ≡ c) × ((acknowledged : Bool) × (o ≡ (value acknowledged, s')))
  unfolding create_index
  create_index-inv client c (error e, t) s s' made h = let g = rw (create_index, made) at h in cc
  create_index-inv client c (value b, t) s s' made h =
      let g = rw (create_index, made) at h in (cc, (b, cc))

  ensure_index-inv :
      (client c : A.Client) (found : Fallible Bool) (s s' : A.Server)
      → A.exists client "gocrud" s ≡ found
      → ensure_index client found s ≡ (ok c, s')
      → (client ≡ c) × Ensured client s s'
  unfolding ensure_index
  ensure_index-inv client c (error e) s s' found h = cc
  ensure_index-inv client c (value true) s s' found h = (cc, inl (found, cc))
  ensure_index-inv client c (value false) s s' found h =
      let (same, made) = create_index-inv client c (A.create client "gocrud" s) s s' refl h in
      (same, inr (found, made))

  connect-inv :
      (url : String) (f : Fallible A.Client) (s s' : A.Server) (c : A.Client)
      → connect url f s ≡ (ok c, s')
      → (f ≡ value c) × Ensured c s s'
  unfolding connect
  connect-inv url (error e) s s' c h = cc
  connect-inv url (value client) s s' c h = elim (Fallible-cases (A.version client url s)) [
    | inl (version, e) ↦
        let (same, done) =
          ensure_index-inv client c (A.exists client "gocrud" s) s s' refl (rw (connect, e) at h) in
        (ap value same, subst (λ d. Ensured d s s') same done)
    | inr (m, e) ↦ let g = rw (connect, e) at h in cc
  ]

  -- Init of the search engine comes back only with one argument, the address of the server, on the
  -- client for it, and either has found the index and left the server as it was, or has not found
  -- it and has created it; acknowledged or not, the creation came back without an error.
  pub init_ensures :
      (args : List String) (s s' : A.Server) (client : A.Client)
      → init args s ≡ (ok client, s')
      → (url : String) × (args ≡ url ∷ []) × (A.new_client url ≡ value client) × Ensured client s s'
  unfolding init
  init_ensures [] s s' client h = cc
  init_ensures (a ∷ b ∷ args) s s' client h = cc
  init_ensures (url ∷ []) s s' client h =
      let (made, done) = connect-inv url (A.new_client url) s s' client h in (url, refl, made, done)
