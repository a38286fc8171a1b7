-- ===== src/Session/User.antt =====
-- The current user and the two guards of the pages.
use nixway_core.Prelude.{String, Bool, false, not, Option, none, some, truthy_opt, if◌then◌else◌}
use nixway_core.Json.{Json}
use nixway_core.Http.Types.{Response, is_ok}

-- What the page does next: it goes on with a value, or it is sent to another path.
pub data Next (A : Type 0) : Type 0 where
  proceed : A → Next A
  redirect : String → Next A

-- `if (v)` on a parsed body: an object is truthy
module _ (parse : String → Option Json) (truthy_value : Json → Bool) where
  -- `getCurrentUser`: the request's cookie header, and how the fetch of `/auth/me` ends (`none` where
  -- it rejects). `res.json()` throws on a body that is no JSON, which the function catches.
  unfoldable pub get_current_user : Option String → Option Response → Option Json
  get_current_user cookie none = none
  get_current_user cookie (some res) =
      if not (truthy_opt cookie)
      then none
      else if not (is_ok res.status)
      then none
      else parse res.text

  abbrev pub is_user : Option Json → Bool
  is_user none = false
  is_user (some v) = truthy_value v

  unfoldable pub require_user : Option String → Option Response → Next (Option Json)
  unfolding get_current_user
  require_user cookie res =
      if not (is_user (get_current_user cookie res))
      then redirect "/login"
      else proceed (get_current_user cookie res)

  unfoldable pub require_guest : Option String → Option Response → Next Unit
  unfolding get_current_user
  require_guest cookie res =
      if is_user (get_current_user cookie res) then redirect "/dashboard" else proceed tt
