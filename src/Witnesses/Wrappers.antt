-- ===== src/Witnesses/Wrappers.antt =====
-- The fetch wrappers at concrete responses.
use nixway_core.Prelude.{String, str_eq, if◌then◌else◌, [], ◌∷◌, none, some, ◌≡◌, refl}
use nixway_core.Json.{get_member, text_member}
use nixway_core.Http.Types.{api_error}
use nixway_core.Http.Client
use nixway_core.Http.Server
use nixway_core.Http.Legacy
use nixway_core.Http.Results.{Answers, settle-Answers}
use nixway_core.Http.Messages.{
  error_body, envelope_messages, server_settle-eq-client_settle, bare_failure,
}
use nixway_core.Witnesses.Data.{read_body, response}

settle-Answers_example :
    Answers
      (response 404 "Not Found" "{}")
      (Client.settle read_body (response 404 "Not Found" "{}"))
settle-Answers_example = settle-Answers read_body (response 404 "Not Found" "{}")

envelope_messages_example :
    (Client.settle read_body (response 400 "Bad Request" "refusal")
      ≡ api_error 400 "Bad Request" none)
    × (Server.settle read_body (response 400 "Bad Request" "refusal")
        ≡ api_error 400 "Bad Request" none)
    × (Legacy.settle read_body (λ v. "") (response 400 "Bad Request" "refusal")
        ≡ api_error 400 "name is required" none)
unfolding error_body
envelope_messages_example =
    envelope_messages read_body (λ v. "") (response 400 "Bad Request" "refusal") "Bad Request"
      "name is required" refl refl refl refl refl

server_settle-eq-client_settle_example :
    Server.settle read_body (response 404 "Not Found" "{}")
    ≡ Client.settle read_body (response 404 "Not Found" "{}")
unfolding Client.body_data text_member get_member
server_settle-eq-client_settle_example =
    server_settle-eq-client_settle read_body (response 404 "Not Found" "{}") refl (λ e. cc)
      (λ e. cc)

bare_failure_example :
    (Server.settle read_body (response 502 "" "") ≡ api_error 502 "" none)
    × (Client.settle read_body (response 502 "" "") ≡ api_error 502 "Request failed" none)
bare_failure_example = bare_failure read_body (response 502 "" "") refl refl refl

abbrev signed : Client.Init
signed = record {
  method = none;
  headers = some (("X-Trace", "1") ∷ []);
  body = none;
  credentials = none;
  cache = none;
}

abbrev small : String → String
small s = if str_eq s "Content-Type" then "content-type" else "x-trace"
