-- ===== src/Http/Client.antt =====
-- apps/web-v2/lib/api.ts: `request`, the browser's wrapper.
use nixway_core.Prelude.{
  String, not, [], ◌∷◌, Option, none, some, ◌==◌, ◌<>◌, truthy, or_else, first_some, or_text,
  if◌then◌else◌,
}
use nixway_core.Json.{Json, text_member}
use nixway_core.Http.Types.{
  Method, Headers, FetchCall, Response, Outcome, value, api_error, crash, is_ok, truthy_json,
  defined, spread, json_content,
}

-- `RequestInit`, the fields that a caller can override
pub record Init : Type 0 where
  pub method : Option Method
  pub headers : Option Headers
  pub body : Option String
  pub credentials : Option String
  pub cache : Option String

abbrev pub base : String
base = "/api/v1"

-- `{ ...(body ? { "Content-Type": … } : {}), ...(init?.headers ?? {}) }`
unfoldable pub merged_headers : Option Json → Option Init → Headers
merged_headers body init =
    spread (if truthy_json body then json_content ∷ [] else [])
      (elim init [ none ↦ [] | some i ↦ or_else i.headers [] ])

-- What the call spreads last, `...init`, replaces the fields before it.
abbrev override : FetchCall → Option Init → FetchCall
override call none = call
override call (some i) = record {
  url = call.url;
  method = or_else i.method call.method;
  headers = or_else i.headers call.headers;
  body = first_some i.body call.body;
  credentials = or_else i.credentials call.credentials;
  cache = or_else i.cache call.cache;
}

module _ (stringify : Json → String) where
  unfoldable pub fetch_call : Method → String → Option Json → Option Init → FetchCall
  unfolding merged_headers
  fetch_call method path body init =
      override
        (record {
          url = base <> path;
          method = method;
          headers = merged_headers body init;
          body = elim body [ none ↦ none | some b ↦ some (stringify b) ];
          credentials = "include";
          cache = "no-store";
        })
        init

-- `JSON.parse`, where `none` is its exception, which `safeJson` catches
module _ (parse : String → Option Json) where
  -- `text ? safeJson(text) : undefined`
  unfoldable pub body_data : String → Option Json
  body_data text = if truthy text then parse text else none

  unfoldable pub error_message : Option Json → String → String
  error_message body status_text =
      or_text (text_member "error" body)
        (or_text (text_member "message" body) (or_text (some status_text) "Request failed"))

  -- `request` from the response on
  unfoldable pub settle : Response → Outcome (Option Json)
  unfolding body_data
  settle res =
      if res.status == 204
      then value none
      else if not (is_ok res.status)
      then api_error res.status (error_message (body_data res.text) res.status_text)
          (text_member "code" (body_data res.text))
      else value (defined (body_data res.text))

  -- the whole of `request`; `none` is a fetch that rejects
  unfoldable pub request : Option Response → Outcome (Option Json)
  unfolding settle
  request none = crash
  request (some res) = settle res
