-- ===== src/Autoscale/Evaluate.antt =====
-- EvaluateAutoscaling of internal/deploy/service.go.
use nixway_core.Prelude.{
  ℕ, suc, ◌-◌, ◌%◌, ◌*◌, String, Bool, true, false, not, ◌&&◌, ◌||◌, List, [], ◌∷◌, Option, none,
  some, ◌<>◌, ◌==◌, str_eq, filter, ltb, if◌then◌else◌,
}
use nixway_core.Prelude.Int.{ℤ, pos, negsuc, leb_ℤ, ◌+ℤ◌}
use nixway_core.Autoscale.Server.{Rule}

-- `GetAverageMetricsForAppRow`; the numbers stand as their literals
pub record Averages : Type 0 where
  pub cpu_percent : String
  pub memory_percent : String
  pub sample_count : ℕ

-- `AutoscaleEvaluation`, the scaling event apart
pub record Evaluation : Type 0 where
  pub rule_name : String
  pub metric_name : String
  pub metric_value : String
  pub triggered : Bool
  pub message : String

-- the orders of float64, and the decimal text of a number
pub record Floats : Type 0 where
  pub gt : String → String → Bool
  pub gte : String → String → Bool
  pub lt : String → String → Bool
  pub lte : String → String → Bool
  pub show : ℤ → String

-- What the database and the deployment do for a turn; a text is an error. ScaleApp reads the app,
-- stores the number of replicas, and then finds the environment, deploys and writes the event;
-- `mark` tells whether the rule's trigger can be stored.
pub record Storage : Type 0 where
  pub get_app : Option String
  pub update_scaling : ℤ → Option String
  pub deploy : ℤ → Option String
  pub mark : Bool

-- the number and `ok`
unfoldable pub metric_value : String → Averages → String × Bool
metric_value name m =
    if str_eq name "cpu_percent"
    then (m.cpu_percent, true)
    else if str_eq name "memory_percent"
    then (m.memory_percent, true)
    else ("0", false)

-- an int32 sum
abbrev pub unsigned32 : ℤ → ℕ
unsigned32 (pos n) = n % 4294967296
unsigned32 (negsuc n) = 4294967295 - n % 4294967296

abbrev pub signed32 : ℕ → ℤ
signed32 n = if ltb n 2147483648 then pos n else negsuc (4294967295 - n)

unfoldable pub autoscale_target : ℤ → Rule → ℤ
autoscale_target current rule =
    let wanted =
      if str_eq rule.action_type "scale_to"
      then rule.action_value
      else signed32 (unsigned32 (current +ℤ rule.action_value)) in
    let raised = if leb_ℤ rule.min_replicas wanted then wanted else rule.min_replicas in
    if leb_ℤ raised rule.max_replicas then raised else rule.max_replicas

abbrev pub same_ℤ : ℤ → ℤ → Bool
same_ℤ a b = leb_ℤ a b && leb_ℤ b a

-- a number of seconds in nanoseconds
abbrev pub nanoseconds : ℤ → ℤ
nanoseconds (pos n) = pos (n * 1000000000)
nanoseconds (negsuc n) = negsuc (suc n * 1000000000 - 1)

-- the cooldown after a trigger, which is longer or shorter by the direction
unfoldable pub cooldown_active : ℤ → ℤ → Rule → Bool
cooldown_active replicas target rule = elim rule.elapsed [
  | none ↦ false
  | some since ↦ not (
      leb_ℤ
        (nanoseconds
          (if leb_ℤ replicas target then rule.cooldown_up_seconds else rule.cooldown_down_seconds))
        since)
]

-- What one turn of the loop leaves: its result, the rule, `app.Replicas`, and the number of replicas
-- that it stored in the app's row, if any.
pub record Turn : Type 0 where
  pub result : Evaluation
  pub rule : Rule
  pub replicas : ℤ
  pub stored : Option ℤ

-- How ScaleApp ends: an error before or after the row is updated, or no error.
pub data Scaling : Type 0 where
  refused : String → Scaling
  stuck : String → Scaling
  scaled : Scaling

module _ (fl : Floats) (st : Storage) where
  unfoldable pub comparison_matches : String → String → String → Bool
  comparison_matches value comparison threshold =
      if str_eq comparison "gt"
      then fl.gt value threshold
      else if str_eq comparison "gte"
      then fl.gte value threshold
      else if str_eq comparison "lt"
      then fl.lt value threshold
      else if str_eq comparison "lte"
      then fl.lte value threshold
      else false

  abbrev after_update : Option String → Scaling
  after_update none = scaled
  after_update (some e) = stuck e

  abbrev after_get : ℤ → Option String → Option String → Scaling
  after_get target (some e) _ = refused e
  after_get target none (some e) = refused e
  after_get target none none = after_update (st.deploy target)

  -- `ScaleApp`, for the placement strategy of a stored app
  unfoldable pub scale_app : ℤ → Scaling
  scale_app target = after_get target st.get_app (
      if leb_ℤ (pos 1) target
      then st.update_scaling target
      else some "replicas must be greater than zero")

  abbrev pub report : Rule → String → Bool → String → Evaluation
  report rule value triggered message = record {
    rule_name = rule.name;
    metric_name = rule.metric_name;
    metric_value = value;
    triggered = triggered;
    message = message;
  }

  abbrev pub idle : Rule → String → String → ℤ → Turn
  idle rule value message replicas = record {
    result = report rule value false message;
    rule = rule;
    replicas = replicas;
    stored = none;
  }

  -- `MarkAutoscalingRuleTriggered` sets the time of the last trigger; its error is ignored
  abbrev pub marked : Rule → Rule
  marked rule = if st.mark then record rule { elapsed = some (pos 0) } else rule

  abbrev pub triggers : Rule → String → ℤ → ℤ → Turn
  triggers rule value replicas target = record {
    result =
        report rule value true ("scaled from " <> (fl.show replicas <> (" to " <> fl.show target)));
    rule = marked rule;
    replicas = target;
    stored = some target;
  }

  -- the rest of a turn after `ScaleApp`
  abbrev pub after_scaling : Rule → String → ℤ → ℤ → Scaling → Turn
  after_scaling rule value replicas target (refused e) = idle rule value e replicas
  after_scaling rule value replicas target (stuck e) = record (idle rule value e replicas) {
    stored = some target;
  }
  after_scaling rule value replicas target scaled = triggers rule value replicas target

  -- one turn of the loop
  unfoldable pub evaluate_rule : Averages → ℤ → Rule → Turn
  unfolding metric_value comparison_matches autoscale_target cooldown_active scale_app
  evaluate_rule m replicas rule =
      let (value, ok) = metric_value rule.metric_name m in
      let target = autoscale_target replicas rule in
      if not ok || m.sample_count == 0
      then idle rule value "waiting for fresh agent metrics" replicas
      else if not (comparison_matches value rule.comparison rule.threshold)
      then idle rule value "condition not met" replicas
      else if same_ℤ target replicas
      then idle rule value "already at scaling bound" replicas
      else if cooldown_active replicas target rule
      then idle rule value "cooldown active" replicas
      else after_scaling rule value replicas target (scale_app target)

  -- the loop
  unfoldable pub evaluate_all : Averages → ℤ → List Rule → List Turn × ℤ
  unfolding evaluate_rule
  evaluate_all m replicas [] = ([], replicas)
  evaluate_all m replicas (rule ∷ rules) =
      let turn = evaluate_rule m replicas rule in
      let (turns, last) = evaluate_all m turn.replicas rules in (turn ∷ turns, last)

  -- `ListEnabledAutoscalingRulesByApp`, then the loop
  unfoldable pub evaluate : Averages → ℤ → List Rule → List Turn × ℤ
  unfolding evaluate_all
  evaluate m replicas rules = evaluate_all m replicas (filter (λ r. Rule.enabled r) rules)
