-- ===== src/Contract/Delivery.antt =====
-- The handler in internal/api/router.go that each call of Endpoints/Delivery.antt is meant for, and the
-- verdict of the route tables on it.
use nixway_core.Prelude.{String, [], ◌∷◌, some, ◌≡◌, refl}
use nixway_core.Endpoints.Types.{Platform}
use nixway_core.Endpoints.Delivery.{
  DeliveryCall, delivery_request, list_builds, get_build, trigger_build, build_logs_url,
  list_deployments, get_deployment, list_targets, deployment_logs_url, list_secrets, get_secret,
  create_secret, update_secret, reveal_secret, remove_secret, list_env_vars, create_env_var,
  update_env_var, reveal_env_var, remove_env_var,
}
use nixway_core.Router.Dispatch.{decided}

abbrev pub delivery_handler : DeliveryCall → String
delivery_handler (list_builds _) = "buildH.List"
delivery_handler (get_build _ _) = "buildH.Get"
delivery_handler (trigger_build _ _) = "buildH.TriggerBuild"
delivery_handler (build_logs_url _ _) = "buildH.StreamLogs"
delivery_handler (list_deployments _) = "deployH.List"
delivery_handler (get_deployment _ _) = "deployH.Get"
delivery_handler (list_targets _ _) = "deployH.ListTargets"
delivery_handler (deployment_logs_url _ _) = "deployH.StreamLogs"
delivery_handler (list_secrets _ _) = "secretH.List"
delivery_handler (get_secret _ _) = "secretH.Get"
delivery_handler (create_secret _ _) = "secretH.Create"
delivery_handler (update_secret _ _ _) = "secretH.Update"
delivery_handler (reveal_secret _ _) = "secretH.Reveal"
delivery_handler (remove_secret _ _) = "secretH.Delete"
delivery_handler (list_env_vars _ _) = "appEnvVarH.List"
delivery_handler (create_env_var _ _) = "appEnvVarH.Create"
delivery_handler (update_env_var _ _ _) = "appEnvVarH.Update"
delivery_handler (reveal_env_var _ _) = "appEnvVarH.Reveal"
delivery_handler (remove_env_var _ _) = "appEnvVarH.Delete"

pub delivery_verdict :
    (p : Platform) (c : DeliveryCall)
    → decided (delivery_request p c).method (delivery_request p c).parts
      ≡ some (delivery_handler c ∷ [])
unfolding decided delivery_request
delivery_verdict p (list_builds _) = refl
delivery_verdict p (get_build _ _) = refl
delivery_verdict p (trigger_build _ _) = refl
delivery_verdict p (build_logs_url _ _) = refl
delivery_verdict p (list_deployments _) = refl
delivery_verdict p (get_deployment _ _) = refl
delivery_verdict p (list_targets _ _) = refl
delivery_verdict p (deployment_logs_url _ _) = refl
delivery_verdict p (list_secrets _ _) = refl
delivery_verdict p (get_secret _ _) = refl
delivery_verdict p (create_secret _ _) = refl
delivery_verdict p (update_secret _ _ _) = refl
delivery_verdict p (reveal_secret _ _) = refl
delivery_verdict p (remove_secret _ _) = refl
delivery_verdict p (list_env_vars _ _) = refl
delivery_verdict p (create_env_var _ _) = refl
delivery_verdict p (update_env_var _ _ _) = refl
delivery_verdict p (reveal_env_var _ _) = refl
delivery_verdict p (remove_env_var _ _) = refl
