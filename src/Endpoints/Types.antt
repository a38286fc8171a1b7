-- ===== src/Endpoints/Types.antt =====
-- The requests that the API objects of apps/web-v2/lib/api.ts make. A path such as
-- `/teams/${id}/members` stands as its parts, literal or interpolated, and is rendered as the
-- template literal renders it.
use nixway_core.Prelude.{ℕ, String, List, [], ◌∷◌, Option, none, some, ◌<>◌, truthy, if◌then◌else◌}
use nixway_core.Json.{Json, null, str, arr, Items, nil, cons}
use nixway_core.Http.Types.{Method}

pub data Part : Type 0 where
  lit arg : String → Part

-- `query` is what follows the question mark, if there is one.
pub record Request : Type 0 where
  pub method : Method
  pub parts : List Part
  pub query : Option String
  pub body : Option Json

abbrev pub text_of : Part → String
text_of (lit s) = s
text_of (arg s) = s

unfoldable pub render : List Part → String
render [] = ""
render (part ∷ parts) = "/" <> (text_of part <> render parts)

abbrev pub query_text : Option String → String
query_text none = ""
query_text (some q) = "?" <> q

-- the `path` argument of `request`
unfoldable pub path : Request → String
unfolding render
path r = render r.parts <> query_text r.query

-- `URLSearchParams` as the pairs that were set; every key is set once
abbrev pub Params : Type 0
Params = List (String × String)

-- What the language's runtime gives: `encodeURIComponent(s)`, `new URLSearchParams(…).toString()`
-- and `String(n)`.
pub record Platform : Type 0 where
  pub encode : String → String
  pub search_params : Params → String
  pub show : ℕ → String

-- `qs.toString() ? `?${qs}` : ""`
unfoldable pub query_of : Platform → Params → Option String
query_of p params = if truthy (p.search_params params) then some (p.search_params params) else none

-- `if (v) qs.set(key, v)`
abbrev pub set_text : String → Option String → Params
set_text key none = []
set_text key (some v) = if truthy v then (key, v) ∷ [] else []

-- `if (n) qs.set(key, String(n))`, which skips zero
abbrev pub set_nonzero : Platform → String → Option ℕ → Params
set_nonzero p key none = []
set_nonzero p key (some ℕ.zero) = []
set_nonzero p key (some (ℕ.suc n)) = (key, p.show (ℕ.suc n)) ∷ []

-- `if (n != null) qs.set(key, String(n))`
abbrev pub set_number : Platform → String → Option ℕ → Params
set_number p key none = []
set_number p key (some n) = (key, p.show n) ∷ []

abbrev pub items_of : List String → Items
items_of [] = nil
items_of (s ∷ ss) = cons (str s) (items_of ss)

-- an array of strings
abbrev pub texts : List String → Json
texts ss = arr (items_of ss)

-- a string or `null`
abbrev pub nullable : Option String → Json
nullable none = null
nullable (some s) = str s
