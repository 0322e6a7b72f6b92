-- ===== src/X/Http.antt =====
-- x/x.go: the replies and requests of a web server, over http.ResponseWriter and encoding/json as
-- parameters. The body of a request is not closed here: that changes nothing of a reply.
use gocrud.Prelude.{String, ◌<>◌, Bool, true, false}
use gocrud.Outcome.{Outcome, Fallible, value, error, ok, halt}
use gocrud.Exec.{Exec, ◌>>◌, pure}

pub record Status : Type 0 where
  pub code : String
  pub message : String

-- The methods of http.ResponseWriter: Write, and Set of its headers.
pub record ResponseWriter : Type 1 where
  pub Writer : Type 0
  pub write : String → Writer → Fallible (Unit {0}) × Writer
  pub set_header : String → String → Writer → Writer

module _ (H : ResponseWriter) (marshal_status : Status → Fallible String) where
  -- `fmt.Fprint(w, js)`, whose error is ignored.
  unfoldable pub print_to : String → Exec H.Writer (Unit {0})
  print_to js w = (ok tt, (H.write js w).1)

  unfoldable pub write_encoded : Fallible String → Exec H.Writer (Unit {0})
  unfolding print_to
  write_encoded (value js) w = print_to js w
  write_encoded (error e) w = (halt "Unable to marshal", w)

  unfoldable pub set_status : String → String → Exec H.Writer (Unit {0})
  unfolding write_encoded
  set_status code msg = write_encoded (marshal_status (record { code = code; message = msg }))

  -- `encoded` is what json.Marshal gives for `rep`.
  unfoldable pub reply : Fallible String → Exec H.Writer (Unit {0})
  unfolding set_status print_to
  reply (value js) w = print_to js (H.set_header "Content-Type" "application/json" w)
  reply (error e) w = set_status "E_ERROR" e w

  -- `decode` is json.NewDecoder and Decode, which reads a body into the data.
  module _ {Body D : Type 0} (decode : Body → D → Fallible (Unit {0}) × D) where
    unfoldable pub answer : Fallible (Unit {0}) → Exec H.Writer Bool
    unfolding set_status
    answer (value u) w = (ok true, w)
    answer (error e) w = (set_status "E_ERROR" ("While parsing request: " <> e) >> pure false) w

    -- The result with the writer, and the data.
    unfoldable pub parse_request : Body → D → H.Writer → (Outcome Bool × H.Writer) × D
    unfolding answer
    parse_request body data_ w =
        let (decoded, data') = decode body data_ in (answer decoded w, data')
