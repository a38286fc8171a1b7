-- ===== src/Endpoints/Auth.antt =====
-- Calls of authApi, apps/web-v2/lib/api.ts lines 149 to 164. An input object that
-- a caller passes stands as the members of its JSON.
use nixway_core.Prelude.{String, [], ◌∷◌, none, some}
use nixway_core.Json.{str, obj, end, member}
use nixway_core.Http.Types.{get, post}
use nixway_core.Endpoints.Types.{lit, Request, Platform}

pub data AuthCall : Type 0 where
  me : AuthCall
  login : String → String → AuthCall
  signup : String → String → String → AuthCall
  logout : AuthCall
  forgot_password : String → AuthCall
  reset_password : String → String → AuthCall
  verify_email : String → AuthCall
  resend_verification : String → AuthCall

module _ (p : Platform) where
  unfoldable pub auth_request : AuthCall → Request
  auth_request me = record {
    method = get;
    parts = lit "auth" ∷ lit "me" ∷ [];
    query = none;
    body = none;
  }
  auth_request (login email password) = record {
    method = post;
    parts = lit "auth" ∷ lit "login" ∷ [];
    query = none;
    body = some (obj (member "email" (str email) (member "password" (str password) end)));
  }
  auth_request (signup name email password) = record {
    method = post;
    parts = lit "auth" ∷ lit "signup" ∷ [];
    query = none;
    body = some (
        obj (
          member "name" (str name)
            (member "email" (str email) (member "password" (str password) end))));
  }
  auth_request logout = record {
    method = post;
    parts = lit "auth" ∷ lit "logout" ∷ [];
    query = none;
    body = none;
  }
  auth_request (forgot_password email) = record {
    method = post;
    parts = lit "auth" ∷ lit "forgot-password" ∷ [];
    query = none;
    body = some (obj (member "email" (str email) end));
  }
  auth_request (reset_password token password) = record {
    method = post;
    parts = lit "auth" ∷ lit "reset-password" ∷ [];
    query = none;
    body = some (obj (member "token" (str token) (member "password" (str password) end)));
  }
  auth_request (verify_email token) = record {
    method = post;
    parts = lit "auth" ∷ lit "verify-email" ∷ [];
    query = none;
    body = some (obj (member "token" (str token) end));
  }
  auth_request (resend_verification email) = record {
    method = post;
    parts = lit "auth" ∷ lit "resend-verification" ∷ [];
    query = none;
    body = some (obj (member "email" (str email) end));
  }
