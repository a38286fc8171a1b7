-- ===== src/Alerts/Dialog.antt =====
-- CreateAlertDialog of apps/web-v2/components/notifications/NotificationsClient.tsx.
use nixway_core.Prelude.{
  String, true, not, ◌||◌, List, [], ◌∷◌, ◌++◌, Option, none, some, truthy, str_eq, any, filter,
  if◌then◌else◌,
}
use nixway_core.Json.{bool, str, Members, end, member}
use nixway_core.Endpoints.Types.{texts}
use nixway_core.CreateApp.Dialog.{Runtime, numeric_or}

-- the fields of the dialog
pub record AlertFields : Type 0 where
  pub scope_type : String
  pub scope_id : String
  pub name : String
  pub metric : String
  pub comparison : String
  pub threshold : String
  pub duration : String
  pub severity : String
  pub picked : List String

abbrev pub first_alert : AlertFields
first_alert = record {
  scope_type = "server";
  scope_id = "";
  name = "";
  metric = "cpu_percent";
  comparison = "gt";
  threshold = "80";
  duration = "120";
  severity = "warning";
  picked = [];
}

abbrev pub alert_comparisons : List String
alert_comparisons = "gt" ∷ "gte" ∷ "lt" ∷ "lte" ∷ "eq" ∷ "ne" ∷ []

unfoldable pub toggle_channel : List String → String → List String
toggle_channel prev id =
    if any (λ x. str_eq x id) prev then filter (λ x. not (str_eq x id)) prev else prev ++ id ∷ []

module _ (r : Runtime) where
  unfoldable pub alert_input : AlertFields → Members
  alert_input f = member "scope_type" (str f.scope_type) (
      member "scope_id" (str f.scope_id) (
        member "name" (str (r.trim f.name)) (
          member "metric_name" (str f.metric) (
            member "comparison" (str f.comparison) (
              member "threshold" (numeric_or (r.number f.threshold) "0") (
                member "duration_seconds" (numeric_or (r.number f.duration) "0") (
                  member "severity" (str f.severity) (
                    member "enabled" (bool true)
                      (member "notification_channels" (texts f.picked) end)))))))))

  -- a click on the button, which is disabled without a name, a scope, a threshold or a duration
  unfoldable pub add_alert : AlertFields → Option Members
  unfolding alert_input
  add_alert f =
      if not (truthy (r.trim f.name))
        || not (truthy f.scope_id)
        || not (truthy f.threshold)
        || not (truthy f.duration)
      then none
      else some (alert_input f)
