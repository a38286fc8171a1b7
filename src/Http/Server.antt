-- ===== src/Http/Server.antt =====
-- apps/web-v2/lib/server-api.ts: the wrapper of server components and route handlers.
use nixway_core.Prelude.{
  String, not, List, [], ◌∷◌, ◌++◌, Option, none, some, ◌==◌, ◌<>◌, truthy, or_else, first_some,
  if◌then◌else◌,
}
use nixway_core.Json.{Json, obj, get_member, as_text}
use nixway_core.Http.Types.{
  Method, FetchCall, Response, Outcome, value, api_error, crash, is_ok, truthy_json, defined,
  json_content,
}
use nixway_core.Http.Client.{body_data}

-- The incoming request's `cookie` header is forwarded as it is; `none` is a missing header. No
-- credentials mode is given, so the default of `fetch` stands.
module _ (api : String) (stringify : Json → String) where
  unfoldable pub fetch_call : Method → String → Option String → Option Json → FetchCall
  fetch_call method path cookie body = record {
    url = (api <> "/api/v1") <> path;
    method = method;
    headers =
        (elim cookie [ none ↦ [] | some c ↦ if truthy c then ("cookie", c) ∷ [] else [] ])
        ++ (if truthy_json body then json_content ∷ [] else []);
    body = elim body [ none ↦ none | some b ↦ some (stringify b) ];
    credentials = "same-origin";
    cache = "no-store";
  }

-- the loop of `pickString` over the keys
unfoldable pub pick_from : List String → Option Json → Option String
unfolding get_member
pick_from [] v = none
pick_from (k ∷ keys) (some (obj ms)) =
    first_some (as_text (get_member k ms)) (pick_from keys (some (obj ms)))
pick_from (k ∷ keys) v = none

module _ (parse : String → Option Json) where
  unfoldable pub error_message : Option Json → String → String
  unfolding pick_from
  error_message body status_text = or_else (pick_from ("error" ∷ "message" ∷ []) body) status_text

  unfoldable pub settle : Response → Outcome (Option Json)
  unfolding error_message body_data
  settle res =
      if res.status == 204
      then value none
      else if not (is_ok res.status)
      then api_error res.status (error_message (body_data parse res.text) res.status_text)
          (pick_from ("code" ∷ []) (body_data parse res.text))
      else value (defined (body_data parse res.text))

  -- `none` is a fetch that rejects
  unfoldable pub request : Option Response → Outcome (Option Json)
  unfolding settle
  request none = crash
  request (some res) = settle res

-- `tryGet` over the awaited call: every exception gives the fallback
unfoldable pub try_get {ℓ} : {A : Type ℓ} → Outcome A → A → A
try_get (value a) fallback = a
try_get (api_error status message code) fallback = fallback
try_get crash fallback = fallback
