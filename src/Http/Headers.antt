-- ===== src/Http/Headers.antt =====
-- The headers and the body that the browser's wrapper of api.ts hands to `fetch`.
use nixway_core.Prelude.{
  String, Bool, true, Option, none, some, [], ◌∷◌, ◌≡◌, ◌↔◌, arith, str_eq, any,
}
use nixway_core.Json.{Json}
use nixway_core.Http.Types.{Method, Headers, truthy_json, spread, put_header, json_content}
use nixway_core.Http.Client.{fetch_call, merged_headers}

-- `toLowerCase`, by which `fetch` compares the names of headers
module _ (lower : String → String) where
  abbrev pub is_content_type : String × String → Bool
  is_content_type h = str_eq (lower h.0) "content-type"

  abbrev pub has_content_type : Headers → Bool
  has_content_type hs = any is_content_type hs

-- Without options a call carries a JSON content type exactly if its body is truthy, and a body
-- exactly if one is given.
pub plain_call :
    (stringify : Json → String) (method : Method) (path : String) (body : Option Json)
    → (((fetch_call stringify method path body none).headers ≡ json_content ∷ [])
        ↔ (truthy_json body ≡ true))
      × (((fetch_call stringify method path body none).body ≡ none) ↔ (body ≡ none))
unfolding fetch_call merged_headers spread put_header
plain_call stringify method path none = ground arith
plain_call stringify method path (some b) = ground arith
