-- ===== src/Witnesses/Rules.antt =====
-- Autoscaling at concrete rules.
use nixway_core.Prelude.{
  true, false, [], ◌∷◌, List, none, some, ◌≡◌, refl, ◌⊎◌, String, Option, str_eq, filter,
  if◌then◌else◌,
}
use nixway_core.Prelude.Int.{ℤ, pos}
use nixway_core.AppUpdate.Decode.{Decoder}
use nixway_core.CreateApp.Dialog.{Runtime, falsy, literal, given}
use nixway_core.Autoscale.Dialog.{RuleFields, first_fields, rule_input}
use nixway_core.Autoscale.Server.{Rule, handle_rule}
use nixway_core.Autoscale.Evaluate.{Averages, Floats, Storage, evaluate}
use nixway_core.Autoscale.Bounds.{IsRun, evaluate-Between}
use nixway_core.Autoscale.Offered.{
  Numbers, asked_rule, stored, NeverTriggers, rule_input-handle_rule, ineffective-rule_input,
}

abbrev busy : Averages
busy = record { cpu_percent = "90"; memory_percent = "40"; sample_count = 3 }

abbrev floats : Floats
floats = record {
  gt = λ a b. true;
  gte = λ a b. true;
  lt = λ a b. false;
  lte = λ a b. false;
  show = λ n. "n";
}

abbrev storage : Storage
storage = record {
  get_app = none;
  update_scaling = λ n. none;
  deploy = λ n. some "no build server";
  mark = true;
}

abbrev up_rule : Rule
up_rule = record {
  name = "up";
  metric_name = "cpu_percent";
  comparison = "gt";
  threshold = "70";
  duration_seconds = pos 120;
  action_type = "scale_by";
  action_value = pos 2;
  min_replicas = pos 1;
  max_replicas = pos 4;
  cooldown_up_seconds = pos 60;
  cooldown_down_seconds = pos 300;
  enabled = true;
  elapsed = none;
}

abbrev two_rules : List Rule
two_rules = up_rule ∷ record up_rule { name = "off"; enabled = false } ∷ []

evaluate-Between_example :
    IsRun
      (pos 1)
      (pos 4)
      (filter (λ r. Rule.enabled r) two_rules)
      (evaluate floats storage busy (pos 3) two_rules)
evaluate-Between_example =
    evaluate-Between floats storage (pos 1) (pos 4) busy (pos 3) two_rules (refl, refl)
      ((refl, refl, refl), ((refl, refl, refl), tt))

-- a decoder of the literals below
abbrev some_literals : String → Option ℤ
some_literals s =
    if str_eq s "0"
    then some (pos 0)
    else if str_eq s "1"
    then some (pos 1)
    else if str_eq s "10"
    then some (pos 10)
    else if str_eq s "120"
    then some (pos 120)
    else if str_eq s "300"
    then some (pos 300)
    else none

abbrev decoder : Decoder
decoder = record { int32 = some_literals; is_uuid = λ s. false }

abbrev runtime : Runtime
runtime = record { trim = λ s. s; number = λ s. if str_eq s "0" then falsy else literal s }

-- the dialog with no cooldown after an increase
abbrev eager : RuleFields
eager = record first_fields { cooldown_up = "0" }

abbrev numbers : Numbers
numbers = record {
  duration = pos 120;
  action_value = pos 1;
  min_replicas = pos 1;
  max_replicas = pos 10;
  cooldown_up = pos 0;
  cooldown_down = pos 300;
}

rule_input-handle_rule_example :
    handle_rule decoder (rule_input runtime eager)
    ≡ stored decoder runtime (asked_rule decoder runtime (given "CPU autoscale") eager numbers "70")
rule_input-handle_rule_example =
    rule_input-handle_rule decoder runtime eager numbers "70" refl
      (refl, refl, refl, refl, refl, refl)

-- the dialog with a metric that is not reported
abbrev slow : RuleFields
slow = record eager { metric = "p95_latency_ms" }

ineffective-rule_input_example :
    (handle_rule decoder (rule_input runtime slow) ≡ none)
    ⊎ ((rule : Rule) × (handle_rule decoder (rule_input runtime slow) ≡ some rule)
        × NeverTriggers decoder runtime rule)
ineffective-rule_input_example =
    ineffective-rule_input decoder runtime slow numbers "70" refl
      (refl, refl, refl, refl, refl, refl) refl
