-- ===== src/Tests/Replies.antt =====
-- Replies to a writer that keeps what it is sent.
use gocrud.Prelude.{ℕ, false, String, ◌≡◌, refl, List, [], ◌∷◌, pos}
use gocrud.Outcome.{Fallible, value, error, ok}
use gocrud.X.Http.{
  Status, ResponseWriter, print_to, write_encoded, set_status, reply, answer, parse_request,
}
use gocrud.Store.Query.{Result, nil, node}
use gocrud.Store.Query.ToMap.{Data}
use gocrud.Store.Query.Response.{
  to_json, after_write, write_data, write_json_response, Replied, write_json_response_cases,
}
use gocrud.Tests.Data.{numbers}

abbrev paper : ResponseWriter
paper = record { Writer = List String; write = λ js w. (value tt, js ∷ w); set_header = λ k v w. w }

abbrev status_json : Status → Fallible String
status_json s = value s.message

abbrev user_json : Data numbers → Fallible String
user_json m = value "user"

abbrev no_json : Data numbers → Fallible String
no_json m = error "unsupported value"

abbrev user : Result numbers
user = node "u" "User" [] nil

replied :
    write_json_response numbers user_json (pos 1) paper status_json user [] ≡ (ok tt, "user" ∷ [])
unfolding write_json_response write_data to_json after_write
replied = refl

refusal :
    write_json_response numbers no_json (pos 1) paper status_json user []
    ≡ (ok tt, "unsupported value" ∷ [])
unfolding write_json_response write_data to_json set_status write_encoded print_to
refusal = refl

no_request :
    parse_request paper status_json {Body = String} {D = ℕ}
      (λ body d. (error "no json", d))
      "["
      3
      []
    ≡ ((ok false, "While parsing request: no json" ∷ []), 3)
unfolding parse_request answer set_status write_encoded print_to
no_request = refl

a_reply : reply paper status_json (value "yes") [] ≡ (ok tt, "yes" ∷ [])
unfolding reply print_to
a_reply = refl

write_json_response_cases_example :
    (w' : List String) × (write_json_response numbers no_json (pos 1) paper status_json user []
      ≡ (ok tt, w'))
    × Replied numbers no_json (pos 1) paper status_json user [] w'
write_json_response_cases_example =
    write_json_response_cases numbers no_json (pos 1) paper status_json user []
      (λ s. (s.message, refl))
