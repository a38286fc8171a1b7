-- ===== src/Http/Legacy.antt =====
-- apps/web/src/lib/api.ts: the wrapper of the first web client.
use nixway_core.Prelude.{String, not, [], ◌∷◌, Option, none, some, ◌==◌, ◌<>◌, if◌then◌else◌}
use nixway_core.Json.{Json, null, str, obj, get_member}
use nixway_core.Http.Types.{
  Method, FetchCall, Response, Outcome, value, api_error, crash, is_ok, truthy_json, json_content,
}

module _ (stringify : Json → String) where
  unfoldable pub fetch_call : Method → String → Option Json → FetchCall
  fetch_call method path body = record {
    url = "/api/v1" <> path;
    method = method;
    headers = if truthy_json body then json_content ∷ [] else [];
    body =
        if truthy_json body then elim body [ none ↦ none | some b ↦ some (stringify b) ] else none;
    credentials = "include";
    cache = "default";
  }

-- `String(v)`, which the constructor of `Error` makes of a message that is no string
module _ (parse : String → Option Json) (to_text : Json → String) where
  -- `data.message || res.statusText`, where `data` is never `null`
  unfoldable pub message_of : Option Json → String → String
  message_of (some (str s)) status_text = if truthy_json (some (str s)) then s else status_text
  message_of (some v) status_text = if truthy_json (some v) then to_text v else status_text
  message_of none status_text = status_text

  -- the error branch; `data.message` of a body `null` is a TypeError
  unfoldable pub fail : Response → Option Json → Outcome (Option Json)
  unfolding message_of get_member
  fail res none = api_error res.status res.status_text none
  fail res (some null) = crash
  fail res (some (obj ms)) =
      api_error res.status (message_of (get_member "message" ms) res.status_text) none
  fail res (some v) = api_error res.status res.status_text none

  -- `res.json()` rejects where the body is no JSON
  unfoldable pub settle : Response → Outcome (Option Json)
  unfolding fail
  settle res =
      if not (is_ok res.status)
      then fail res (parse res.text)
      else if res.status == 204
      then value none
      else elim (parse res.text) [ none ↦ crash | some v ↦ value (some v) ]
