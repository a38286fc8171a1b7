-- ===== src/Contract/Observability.antt =====
-- The handler in internal/api/router.go that each call of Endpoints/Observability.antt is meant for, and the
-- verdict of the route tables on it.
use nixway_core.Prelude.{String, [], ◌∷◌, some, ◌≡◌, refl}
use nixway_core.Endpoints.Types.{Platform}
use nixway_core.Endpoints.Observability.{
  ObservabilityCall, observability_request, list_channels, create_channel, list_alerts,
  create_alert, update_alert, delete_alert, evaluate_alerts, list_events, latest_metrics,
  metric_range,
}
use nixway_core.Router.Dispatch.{decided}

abbrev pub observability_handler : ObservabilityCall → String
observability_handler (list_channels _) = "observabilityH.ListChannels"
observability_handler (create_channel _ _) = "observabilityH.CreateChannel"
observability_handler (list_alerts _ _) = "observabilityH.ListAlerts"
observability_handler (create_alert _ _) = "observabilityH.CreateAlert"
observability_handler (update_alert _ _ _) = "observabilityH.UpdateAlert"
observability_handler (delete_alert _ _) = "observabilityH.DeleteAlert"
observability_handler (evaluate_alerts _) = "observabilityH.EvaluateAlerts"
observability_handler (list_events _ _) = "observabilityH.Events"
observability_handler (latest_metrics _ _ _) = "observabilityH.Metrics"
observability_handler (metric_range _ _ _ _ _ _) = "observabilityH.Metrics"

pub observability_verdict :
    (p : Platform) (c : ObservabilityCall)
    → decided (observability_request p c).method (observability_request p c).parts
      ≡ some (observability_handler c ∷ [])
unfolding decided observability_request
observability_verdict p (list_channels _) = refl
observability_verdict p (create_channel _ _) = refl
observability_verdict p (list_alerts _ _) = refl
observability_verdict p (create_alert _ _) = refl
observability_verdict p (update_alert _ _ _) = refl
observability_verdict p (delete_alert _ _) = refl
observability_verdict p (evaluate_alerts _) = refl
observability_verdict p (list_events _ _) = refl
observability_verdict p (latest_metrics _ _ _) = refl
observability_verdict p (metric_range _ _ _ _ _ _) = refl
