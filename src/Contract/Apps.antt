-- ===== src/Contract/Apps.antt =====
-- The handler in internal/api/router.go that each call of Endpoints/Apps.antt is meant for, and the
-- verdict of the route tables on it.
use nixway_core.Prelude.{String, [], ◌∷◌, some, ◌≡◌, refl}
use nixway_core.Endpoints.Types.{Platform}
use nixway_core.Endpoints.Apps.{
  AppsCall, apps_request, list_apps, get_app, create_app, update_app, remove_app,
  set_registry_credential, set_domain, verify_domain, remove_domain, update_resources, rollback,
  list_replicas, logs_url, scale, list_scaling_events, get_traffic, update_traffic, promote_backend,
  list_autoscaling_rules, create_autoscaling_rule, delete_autoscaling_rule, evaluate_autoscaling,
}
use nixway_core.Router.Dispatch.{decided}

abbrev pub apps_handler : AppsCall → String
apps_handler (list_apps _) = "appH.List"
apps_handler (get_app _) = "appH.GetDirect"
apps_handler (create_app _ _) = "appH.Create"
apps_handler (update_app _ _ _) = "appH.Update"
apps_handler (remove_app _ _) = "appH.Delete"
apps_handler (set_registry_credential _ _) = "appH.SetRegistryCredential"
apps_handler (set_domain _ _) = "appH.SetDomain"
apps_handler (verify_domain _) = "appH.VerifyDomain"
apps_handler (remove_domain _) = "appH.Update"
apps_handler (update_resources _ _) = "appH.UpdateResources"
apps_handler (rollback _ _) = "deployH.Rollback"
apps_handler (list_replicas _) = "deployH.ListReplicas"
apps_handler (logs_url _ _) = "deployH.ContainerLogs"
apps_handler (scale _ _) = "deployH.ScaleApp"
apps_handler (list_scaling_events _ _) = "deployH.ListScalingEvents"
apps_handler (get_traffic _) = "deployH.GetTraffic"
apps_handler (update_traffic _ _) = "deployH.UpdateTraffic"
apps_handler (promote_backend _ _) = "deployH.PromoteTrafficBackend"
apps_handler (list_autoscaling_rules _) = "deployH.ListAutoscalingRules"
apps_handler (create_autoscaling_rule _ _) = "deployH.CreateAutoscalingRule"
apps_handler (delete_autoscaling_rule _ _) = "deployH.DeleteAutoscalingRule"
apps_handler (evaluate_autoscaling _) = "deployH.EvaluateAutoscaling"

pub apps_verdict :
    (p : Platform) (c : AppsCall)
    → decided (apps_request p c).method (apps_request p c).parts ≡ some (apps_handler c ∷ [])
unfolding decided apps_request
apps_verdict p (list_apps _) = refl
apps_verdict p (get_app _) = refl
apps_verdict p (create_app _ _) = refl
apps_verdict p (update_app _ _ _) = refl
apps_verdict p (remove_app _ _) = refl
apps_verdict p (set_registry_credential _ _) = refl
apps_verdict p (set_domain _ _) = refl
apps_verdict p (verify_domain _) = refl
apps_verdict p (remove_domain _) = refl
apps_verdict p (update_resources _ _) = refl
apps_verdict p (rollback _ _) = refl
apps_verdict p (list_replicas _) = refl
apps_verdict p (logs_url _ _) = refl
apps_verdict p (scale _ _) = refl
apps_verdict p (list_scaling_events _ _) = refl
apps_verdict p (get_traffic _) = refl
apps_verdict p (update_traffic _ _) = refl
apps_verdict p (promote_backend _ _) = refl
apps_verdict p (list_autoscaling_rules _) = refl
apps_verdict p (create_autoscaling_rule _ _) = refl
apps_verdict p (delete_autoscaling_rule _ _) = refl
apps_verdict p (evaluate_autoscaling _) = refl
