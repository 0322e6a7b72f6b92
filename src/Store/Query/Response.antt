-- ===== src/Store/Query/Response.antt =====
-- store/query.go: `ToJson` and `WriteJsonResponse`.
use gocrud.Prelude.{String, ℤ, ◌≡◌, refl}
use gocrud.Outcome.{Fallible, value, error, ok}
use gocrud.Exec.{Exec}
use gocrud.X.Http.{Status, ResponseWriter, set_status, write_encoded, print_to}
use gocrud.Store.Update.{Json}
use gocrud.Store.Query.{Result}
use gocrud.Store.Query.ToMap.{Data, to_map}

-- `marshal` is json.Marshal on the map of a result.
module _ (J : Json) (marshal : Data J → Fallible String) (now : ℤ) where
  unfoldable pub to_json : Result J → Fallible String
  to_json r = marshal (to_map J now r)

  module _ (H : ResponseWriter) (marshal_status : Status → Fallible String) where
    unfoldable pub after_write : Fallible (Unit {0}) → Exec H.Writer (Unit {0})
    unfolding set_status
    after_write (value u) w = (ok tt, w)
    after_write (error e) w = set_status H marshal_status "E_ERROR" e w

    unfoldable pub write_data : Fallible String → Exec H.Writer (Unit {0})
    unfolding set_status after_write
    write_data (error e) w = set_status H marshal_status "E_ERROR" e w
    write_data (value js) w = let (o, w') = H.write js w in after_write o w'

    unfoldable pub write_json_response : Result J → Exec H.Writer (Unit {0})
    unfolding write_data to_json
    write_json_response r = write_data (to_json r)

    -- What stands in a writer that was `w`: the JSON of the result, or the status of the error that
    -- came in its way, behind what a failed write has left.
    pub data Replied (r : Result J) (w : H.Writer) : H.Writer → Type 0 where
      sent :
          {js : String} {w' : H.Writer}
          → to_json r ≡ value js
          → H.write js w ≡ (value tt, w')
          → Replied r w w'
      cut :
          {js e status : String} {w₁ : H.Writer}
          → to_json r ≡ value js
          → H.write js w ≡ (error e, w₁)
          → marshal_status (record { code = "E_ERROR"; message = e }) ≡ value status
          → Replied r w (H.write status w₁).1
      refused :
          {e status : String}
          → to_json r ≡ error e
          → marshal_status (record { code = "E_ERROR"; message = e }) ≡ value status
          → Replied r w (H.write status w).1

    set_status-encoded :
        (code e status : String) (w : H.Writer)
        → marshal_status (record { code = code; message = e }) ≡ value status
        → set_status H marshal_status code e w ≡ (ok tt, (H.write status w).1)
    unfolding set_status write_encoded print_to
    set_status-encoded code e status w h = rw h refl

    module _ (encodes : (s : Status) → (js : String) × (marshal_status s ≡ value js)) (r : Result J)
        (w : H.Writer) where
      after_write-cases :
          (js : String) (o : Fallible (Unit {0})) (w₁ : H.Writer)
          → to_json r ≡ value js
          → H.write js w ≡ (o, w₁)
          → (w' : H.Writer) × (after_write o w₁ ≡ (ok tt, w')) × Replied r w w'
      unfolding after_write
      after_write-cases js (value tt) w₁ encoded written = (w₁, refl, sent encoded written)
      after_write-cases js (error e) w₁ encoded written =
          let (status, h) = encodes (record { code = "E_ERROR"; message = e }) in
          (_, set_status-encoded "E_ERROR" e status w₁ h, cut encoded written h)

      write_data-cases :
          (f : Fallible String)
          → to_json r ≡ f
          → (w' : H.Writer) × (write_data f w ≡ (ok tt, w')) × Replied r w w'
      unfolding write_data
      write_data-cases (error e) h =
          let (status, g) = encodes (record { code = "E_ERROR"; message = e }) in
          (_, set_status-encoded "E_ERROR" e status w g, refused h g)
      write_data-cases (value js) h = after_write-cases js (H.write js w).0 (H.write js w).1 h refl

    -- If every status can be encoded, WriteJsonResponse comes back without a panic, and has sent the JSON
    -- of the result, or, where the encoding or the write has failed, a status with the code E_ERROR and
    -- the message of that error.
    pub write_json_response_cases :
        (r : Result J) (w : H.Writer)
        → ((s : Status) → (js : String) × (marshal_status s ≡ value js))
        → (w' : H.Writer) × (write_json_response r w ≡ (ok tt, w')) × Replied r w w'
    unfolding write_json_response
    write_json_response_cases r w encodes = write_data-cases encodes r w (to_json r) refl
