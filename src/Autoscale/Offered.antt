-- ===== src/Autoscale/Offered.antt =====
-- What becomes of the rules that the dialog makes.
use nixway_core.Prelude.{
  String, Bool, true, false, ◌||◌, List, [], ◌∷◌, Option, none, some, ◌≡◌, refl, ◌∙◌, arith,
  or_text, among, among-All, ◌⊎◌, inl, inr, Bool-cases, if◌then◌else◌,
}
use nixway_core.Prelude.Int.{ℤ, pos}
use nixway_core.Json.{get_member}
use nixway_core.AppUpdate.Decode.{as_number, Decoder, as_int32}
use nixway_core.CreateApp.Dialog.{Runtime, numeric_or, given}
use nixway_core.CreateApp.Server.{or_number}
use nixway_core.Autoscale.Dialog.{RuleFields, named_input, rule_input}
use nixway_core.Autoscale.Server.{Rule, rule_known, is_storable, handle_rule}
use nixway_core.Autoscale.Evaluate.{Averages, Floats, Storage, metric_value, evaluate_rule}

-- the whole numbers of a rule, in the order of the request
pub record Numbers : Type 0 where
  pub duration : ℤ
  pub action_value : ℤ
  pub min_replicas : ℤ
  pub max_replicas : ℤ
  pub cooldown_up : ℤ
  pub cooldown_down : ℤ

-- what the dialog offers that is not served
abbrev pub unstored_comparisons : List String
unstored_comparisons = "eq" ∷ "ne" ∷ []

abbrev pub unreported_metrics : List String
unreported_metrics = "request_rate" ∷ "p95_latency_ms" ∷ "error_rate" ∷ []

abbrev pub is_ineffective : RuleFields → Bool
is_ineffective f = among unstored_comparisons f.comparison || among unreported_metrics f.metric

other_side : (a b c : Bool) → (a || b) ≡ true → (a ≡ true → c ≡ false) → c ≡ true → b ≡ true
other_side false b c h k e = h
other_side true b true h k e = ground (arith, k refl)
other_side true b false h k e = ground arith

module _ (d : Decoder) (r : Runtime) where
  -- the decoder reads what the dialog sends for a text of digits
  abbrev pub Reads : String → ℤ → Type 0
  Reads text n = as_int32 d (some (numeric_or (r.number text) "0")) ≡ some n

  abbrev pub ReadsAll : RuleFields → Numbers → Type 0
  ReadsAll f n =
      Reads f.duration n.duration
      × Reads f.action_value n.action_value
      × Reads f.min_replicas n.min_replicas
      × Reads f.max_replicas n.max_replicas
      × Reads f.cooldown_up n.cooldown_up
      × Reads f.cooldown_down n.cooldown_down

  -- The rule that a request asks for: a blank name and a zero take the handler's defaults.
  abbrev pub asked_rule : Option String → RuleFields → Numbers → String → Rule
  asked_rule name f n threshold = record {
    name = or_text name "CPU autoscale";
    metric_name = or_text (some f.metric) "cpu_percent";
    comparison = or_text (some f.comparison) "gt";
    threshold = threshold;
    duration_seconds = or_number n.duration (pos 120);
    action_type = or_text (some f.action) "scale_by";
    action_value = or_number n.action_value (pos 1);
    min_replicas = or_number n.min_replicas (pos 1);
    max_replicas = or_number n.max_replicas (pos 10);
    cooldown_up_seconds = or_number n.cooldown_up (pos 60);
    cooldown_down_seconds = or_number n.cooldown_down (pos 300);
    enabled = f.enabled;
    elapsed = none;
  }

  abbrev pub stored : Rule → Option Rule
  stored rule = if is_storable rule then some rule else none

  named_input-handle_rule :
      (name : Option String) (f : RuleFields) (n : Numbers) (threshold : String)
      → as_number (some (numeric_or (r.number f.threshold) "0")) ≡ some threshold
      → ReadsAll f n
      → handle_rule d (named_input r name f) ≡ stored (asked_rule name f n threshold)
  unfolding handle_rule named_input rule_known get_member
  named_input-handle_rule none f n threshold t (a, b, c, e, g, h) = rw (t, a, b, c, e, g, h) refl
  named_input-handle_rule (some s) f n threshold t (a, b, c, e, g, h) =
      rw (t, a, b, c, e, g, h) refl

  -- If the numbers of a rule are read, the handler stores the rule that the dialog asks for, where the
  -- table's checks take its comparison and its action, and refuses it otherwise. A blank name and a
  -- number 0, the threshold apart, become the handler's defaults: 120 seconds, a step of 1, 1 and 10
  -- replicas, and 60 and 300 seconds of cooldown.
  pub rule_input-handle_rule :
      (f : RuleFields) (n : Numbers) (threshold : String)
      → as_number (some (numeric_or (r.number f.threshold) "0")) ≡ some threshold
      → ReadsAll f n
      → handle_rule d (rule_input r f) ≡ stored (asked_rule (given (r.trim f.name)) f n threshold)
  unfolding rule_input
  rule_input-handle_rule f n threshold t h =
      named_input-handle_rule (given (r.trim f.name)) f n threshold t h

  unstored :
      (name : Option String) (f : RuleFields) (n : Numbers) (threshold : String)
      → among unstored_comparisons f.comparison ≡ true
      → is_storable (asked_rule name f n threshold) ≡ false
  unstored name f n threshold h =
      among-All
        (λ c.
          is_storable
            (record (asked_rule name f n threshold) { comparison = or_text (some c) "gt" })
          ≡ false)
        unstored_comparisons f.comparison h (refl, (refl, tt))

  -- no metrics and no database make the rule trigger
  abbrev pub NeverTriggers : Rule → Type 0
  NeverTriggers rule =
      (fl : Floats) (st : Storage) (m : Averages) (replicas : ℤ)
      → (evaluate_rule fl st m replicas rule).result.triggered ≡ false

  unreported :
      (name : Option String) (f : RuleFields) (n : Numbers) (threshold : String)
      → among unreported_metrics f.metric ≡ true
      → NeverTriggers (asked_rule name f n threshold)
  unfolding evaluate_rule metric_value
  unreported name f n threshold h fl st m replicas =
      among-All
        (λ v.
          (evaluate_rule fl st m replicas (record (asked_rule name f n threshold) {
            metric_name = or_text (some v) "cpu_percent";
          })).result.triggered
          ≡ false)
        unreported_metrics f.metric h (refl, (refl, (refl, tt)))

  -- If the numbers of a rule are read, a rule that the dialog makes with one of the comparisons `==`
  -- and `!=`, or with a request rate, a latency or an error rate as its metric, is refused by the
  -- table's checks or never triggers, whatever the metrics, the replicas and the database.
  pub ineffective-rule_input :
      (f : RuleFields) (n : Numbers) (threshold : String)
      → as_number (some (numeric_or (r.number f.threshold) "0")) ≡ some threshold
      → ReadsAll f n
      → is_ineffective f ≡ true
      → (handle_rule d (rule_input r f) ≡ none)
        ⊎ ((rule : Rule) × (handle_rule d (rule_input r f) ≡ some rule) × NeverTriggers rule)
  ineffective-rule_input f n threshold t reads h =
      let rule = asked_rule (given (r.trim f.name)) f n threshold in
      let e = rule_input-handle_rule f n threshold t reads in
      elim (Bool-cases (is_storable rule)) [
        | inr refused ↦ inl (e ∙ rw refused refl)
        | inl taken ↦ inr (
          rule,
          e ∙ rw taken refl,
          unreported (given (r.trim f.name)) f n threshold (
              other_side (among unstored_comparisons f.comparison) _ (is_storable rule) h
                (unstored (given (r.trim f.name)) f n threshold) taken),
        )
      ]
