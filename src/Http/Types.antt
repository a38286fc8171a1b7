-- ===== src/Http/Types.antt =====
-- The data that the three fetch wrappers share.
use nixway_core.Prelude.{
  ℕ, String, Bool, true, false, ◌&&◌, List, [], ◌∷◌, Option, none, some, leb, str_eq, truthy,
  if◌then◌else◌,
}
use nixway_core.Json.{Json}

pub data Method : Type 0 where
  get post put patch delete : Method

abbrev pub Headers : Type 0
Headers = List (String × String)

-- what `fetch` is called with
pub record FetchCall : Type 0 where
  pub url : String
  pub method : Method
  pub headers : Headers
  pub body : Option String
  pub credentials : String
  pub cache : String

-- what the wrappers read of a `Response`
pub record Response : Type 0 where
  pub status : ℕ
  pub status_text : String
  pub text : String

-- `res.ok`
abbrev pub is_ok : ℕ → Bool
is_ok status = leb 200 status && leb status 299

-- How an awaited call ends: a value, a thrown ApiError, which on the server is a ServerApiError with
-- the same fields, or another exception (a rejected fetch, a
-- TypeError, a SyntaxError).
pub data Outcome {ℓ} (A : Type ℓ) : Type ℓ where
  value : A → Outcome A
  api_error : ℕ → String → Option String → Outcome A
  crash : Outcome A

-- A JSON value as a condition. A number's literal is falsy when it denotes zero; the bodies that the
-- program builds and the members that it reads are no other spelling of zero than `0`.
abbrev pub truthy_json : Option Json → Bool
truthy_json none = false
truthy_json (some Json.null) = false
truthy_json (some (Json.bool b)) = b
truthy_json (some (Json.num n)) = if str_eq n "0" then false else true
truthy_json (some (Json.str s)) = truthy s
truthy_json (some (Json.arr xs)) = true
truthy_json (some (Json.obj ms)) = true

-- `data ?? undefined`
abbrev pub defined : Option Json → Option Json
defined (some Json.null) = none
defined other = other

-- `{ ...headers, [name]: value }`
unfoldable pub put_header : Headers → String × String → Headers
put_header [] h = h ∷ []
put_header ((k, v) ∷ hs) (name, w) =
    let rest = put_header hs (name, w) in if str_eq k name then (k, w) ∷ hs else (k, v) ∷ rest

-- `{ ...headers, ...more }`
unfoldable pub spread : Headers → Headers → Headers
spread headers [] = headers
spread headers (h ∷ more) = spread (put_header headers h) more

abbrev pub json_content : String × String
json_content = ("Content-Type", "application/json")
