-- ===== src/Autoscale/Dialog.antt =====
-- CreateRuleDialog of apps/web-v2/components/apps/AutoscaleClient.tsx.
use nixway_core.Prelude.{
  String, Bool, true, not, ◌||◌, List, [], ◌∷◌, Option, none, some, truthy, if◌then◌else◌,
}
use nixway_core.Json.{bool, str, Members, end, member}
use nixway_core.CreateApp.Dialog.{Runtime, numeric_or, optional, given}

pub record Choice : Type 0 where
  pub value : String
  pub label : String
  pub unit : String

abbrev choice : String → String → String → Choice
choice value label unit = record { value = value; label = label; unit = unit }

abbrev pub metric_options : List Choice
metric_options =
    choice "cpu_percent" "CPU utilisation" "%"
    ∷ choice "memory_percent" "Memory utilisation" "%"
    ∷ choice "request_rate" "Request rate" "req/s"
    ∷ choice "p95_latency_ms" "P95 latency" "ms"
    ∷ choice "error_rate" "Error rate" "%"
    ∷ []

abbrev pub comparison_options : List Choice
comparison_options =
    choice "gt" ">" ""
    ∷ choice "gte" ">=" ""
    ∷ choice "lt" "<" ""
    ∷ choice "lte" "<=" ""
    ∷ choice "eq" "==" ""
    ∷ choice "ne" "!=" ""
    ∷ []

abbrev pub action_options : List Choice
action_options =
    choice "scale_by" "Scale by" "Add (or subtract) this many replicas."
    ∷ choice "scale_to" "Scale to" "Set replicas to this exact number."
    ∷ []

-- the fields of the dialog
pub record RuleFields : Type 0 where
  pub name : String
  pub metric : String
  pub comparison : String
  pub threshold : String
  pub duration : String
  pub action : String
  pub action_value : String
  pub min_replicas : String
  pub max_replicas : String
  pub cooldown_up : String
  pub cooldown_down : String
  pub enabled : Bool

abbrev pub first_fields : RuleFields
first_fields = record {
  name = "CPU autoscale";
  metric = "cpu_percent";
  comparison = "gt";
  threshold = "70";
  duration = "120";
  action = "scale_by";
  action_value = "1";
  min_replicas = "1";
  max_replicas = "10";
  cooldown_up = "60";
  cooldown_down = "300";
  enabled = true;
}

module _ (r : Runtime) where
  -- the object of the request, for `name.trim() || undefined`
  unfoldable pub named_input : Option String → RuleFields → Members
  named_input name f = optional "name" name (
      member "metric_name" (str f.metric) (
        member "comparison" (str f.comparison) (
          member "threshold" (numeric_or (r.number f.threshold) "0") (
            member "duration_seconds" (numeric_or (r.number f.duration) "0") (
              member "action_type" (str f.action) (
                member "action_value" (numeric_or (r.number f.action_value) "0") (
                  member "min_replicas" (numeric_or (r.number f.min_replicas) "0") (
                    member "max_replicas" (numeric_or (r.number f.max_replicas) "0") (
                      member "cooldown_up_seconds" (numeric_or (r.number f.cooldown_up) "0") (
                        member "cooldown_down_seconds" (numeric_or (r.number f.cooldown_down) "0")
                          (member "enabled" (bool f.enabled) end)))))))))))

  unfoldable pub rule_input : RuleFields → Members
  unfolding named_input
  rule_input f = named_input (given (r.trim f.name)) f

  -- a click on the button, which is disabled without a threshold or a duration
  unfoldable pub add_rule : RuleFields → Option Members
  unfolding rule_input
  add_rule f =
      if not (truthy f.threshold) || not (truthy f.duration) then none else some (rule_input f)
