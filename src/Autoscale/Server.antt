-- ===== src/Autoscale/Server.antt =====
-- DeployHandler.CreateAutoscalingRule of internal/api/handler/deploy.go, with the checks of the table
-- in sql/migrations/00009_autoscaling_health_lb.sql.
use nixway_core.Prelude.{
  String, Bool, true, not, ◌&&◌, List, [], ◌∷◌, Option, none, some, str_eq, any, or_else, or_text,
  if◌then◌else◌,
}
use nixway_core.Prelude.Int.{ℤ, pos}
use nixway_core.Json.{Members, end, member, get_member}
use nixway_core.AppUpdate.Decode.{◌>>=◌, as_string, as_number, Decoder, as_int32}
use nixway_core.CreateApp.Server.{as_bool_pointer, or_number}

-- A row of `autoscaling_rules`. The threshold stands as its literal, and `elapsed` is the time since
-- `last_triggered_at` in nanoseconds.
pub record Rule : Type 0 where
  pub name : String
  pub metric_name : String
  pub comparison : String
  pub threshold : String
  pub duration_seconds : ℤ
  pub action_type : String
  pub action_value : ℤ
  pub min_replicas : ℤ
  pub max_replicas : ℤ
  pub cooldown_up_seconds : ℤ
  pub cooldown_down_seconds : ℤ
  pub enabled : Bool
  pub elapsed : Option ℤ

abbrev rule_fields : List String
rule_fields =
    "name" ∷ "metric_name" ∷ "comparison" ∷ "threshold" ∷ "duration_seconds" ∷ "action_type"
    ∷ "action_value" ∷ "min_replicas" ∷ "max_replicas" ∷ "cooldown_up_seconds"
    ∷ "cooldown_down_seconds" ∷ "enabled" ∷ []

unfoldable pub rule_known : Members → Bool
rule_known end = true
rule_known (member key v ms) = any (λ f. str_eq f key) rule_fields && rule_known ms

-- the checks of the columns `comparison` and `action_type`
abbrev pub is_storable : Rule → Bool
is_storable rule =
    any (λ c. str_eq c rule.comparison) ("gt" ∷ "gte" ∷ "lt" ∷ "lte" ∷ [])
    && any (λ a. str_eq a rule.action_type) ("scale_by" ∷ "scale_to" ∷ [])

module _ (d : Decoder) where
  -- The handler behind the path and the decoder; `none` is status 400.
  unfoldable pub handle_rule : Members → Option Rule
  handle_rule ms = if not (rule_known ms) then none else do
    name ← as_string (get_member "name" ms)
    metric_name ← as_string (get_member "metric_name" ms)
    comparison ← as_string (get_member "comparison" ms)
    threshold ← as_number (get_member "threshold" ms)
    duration ← as_int32 d (get_member "duration_seconds" ms)
    action_type ← as_string (get_member "action_type" ms)
    action_value ← as_int32 d (get_member "action_value" ms)
    min_replicas ← as_int32 d (get_member "min_replicas" ms)
    max_replicas ← as_int32 d (get_member "max_replicas" ms)
    cooldown_up ← as_int32 d (get_member "cooldown_up_seconds" ms)
    cooldown_down ← as_int32 d (get_member "cooldown_down_seconds" ms)
    enabled ← as_bool_pointer (get_member "enabled" ms)
    let rule : Rule = record {
      name = or_text (some name) "CPU autoscale";
      metric_name = or_text (some metric_name) "cpu_percent";
      comparison = or_text (some comparison) "gt";
      threshold = threshold;
      duration_seconds = or_number duration (pos 120);
      action_type = or_text (some action_type) "scale_by";
      action_value = or_number action_value (pos 1);
      min_replicas = or_number min_replicas (pos 1);
      max_replicas = or_number max_replicas (pos 10);
      cooldown_up_seconds = or_number cooldown_up (pos 60);
      cooldown_down_seconds = or_number cooldown_down (pos 300);
      enabled = or_else enabled true;
      elapsed = none;
    } in
        if is_storable rule then some rule else none
