-- ===== src/Contract/Auth.antt =====
-- The handler in internal/api/router.go that each call of Endpoints/Auth.antt is meant for, and the
-- verdict of the route tables on it.
use nixway_core.Prelude.{String, [], ◌∷◌, some, ◌≡◌, refl}
use nixway_core.Endpoints.Types.{Platform}
use nixway_core.Endpoints.Auth.{
  AuthCall, auth_request, me, login, signup, logout, forgot_password, reset_password, verify_email,
  resend_verification,
}
use nixway_core.Router.Dispatch.{decided}

abbrev pub auth_handler : AuthCall → String
auth_handler me = "authH.Me"
auth_handler (login _ _) = "authH.Login"
auth_handler (signup _ _ _) = "authH.Signup"
auth_handler logout = "authH.Logout"
auth_handler (forgot_password _) = "authH.ForgotPassword"
auth_handler (reset_password _ _) = "authH.ResetPassword"
auth_handler (verify_email _) = "authH.VerifyEmail"
auth_handler (resend_verification _) = "authH.ResendVerification"

pub auth_verdict :
    (p : Platform) (c : AuthCall)
    → decided (auth_request p c).method (auth_request p c).parts ≡ some (auth_handler c ∷ [])
unfolding decided auth_request
auth_verdict p me = refl
auth_verdict p (login _ _) = refl
auth_verdict p (signup _ _ _) = refl
auth_verdict p logout = refl
auth_verdict p (forgot_password _) = refl
auth_verdict p (reset_password _ _) = refl
auth_verdict p (verify_email _) = refl
auth_verdict p (resend_verification _) = refl
