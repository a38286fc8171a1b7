-- ===== src/Autoscale/Bounds.antt =====
-- What the evaluation does to the number of replicas.
use mathlib.Core.Path.{subst}
use nixway_core.Prelude.{
  String, Bool, true, false, not, ◌||◌, List, [], ◌∷◌, Option, none, some, map, ◌≡◌, refl, sym,
  arith, All, ◌==◌, ◌⊎◌, inl, inr, Bool-cases, filter, if◌then◌else◌,
}
use nixway_core.Prelude.Int.{ℤ, leb_ℤ}
use nixway_core.Autoscale.Server.{Rule}
use nixway_core.Autoscale.Evaluate.{
  Averages, Evaluation, Floats, Storage, Turn, metric_value, autoscale_target, same_ℤ,
  cooldown_active, comparison_matches, Scaling, refused, stuck, scaled, scale_app, idle, marked,
  after_scaling, evaluate_rule, evaluate_all, evaluate,
}

abbrev pub Between : ℤ → ℤ → ℤ → Type 0
Between lo hi n = (leb_ℤ lo n ≡ true) × (leb_ℤ n hi ≡ true)

clamp-Between :
    (lo hi n : ℤ)
    → leb_ℤ lo hi ≡ true
    → Between lo hi
        (let raised = if leb_ℤ lo n then n else lo in if leb_ℤ raised hi then raised else hi)
clamp-Between lo hi n h = ground arith

autoscale_target-Between :
    (current : ℤ) (rule : Rule)
    → leb_ℤ rule.min_replicas rule.max_replicas ≡ true
    → Between rule.min_replicas rule.max_replicas (autoscale_target current rule)
unfolding autoscale_target
autoscale_target-Between current rule h = clamp-Between rule.min_replicas rule.max_replicas _ h

reported : (a b : Bool) → (not a || b) ≡ false → a ≡ true
reported a b h = ground arith

-- a rule whose bounds are in order and within others
abbrev pub IsWithin : ℤ → ℤ → Rule → Type 0
IsWithin lo hi rule =
    (leb_ℤ lo rule.min_replicas ≡ true)
    × (leb_ℤ rule.min_replicas rule.max_replicas ≡ true)
    × (leb_ℤ rule.max_replicas hi ≡ true)

widened :
    (lo hi : ℤ) (rule : Rule) (n : ℤ)
    → IsWithin lo hi rule
    → Between rule.min_replicas rule.max_replicas n
    → Between lo hi n
widened lo hi rule n (l, o, h) (above, below) = ground arith

-- a number that is stored, if there is one
abbrev pub IsStoredBetween : ℤ → ℤ → Option ℤ → Type 0
IsStoredBetween lo hi none = Unit
IsStoredBetween lo hi (some n) = Between lo hi n

abbrev pub AreBetween : ℤ → ℤ → Turn → Type 0
AreBetween lo hi turn = Between lo hi turn.replicas × IsStoredBetween lo hi turn.stored

-- The turns and the last number of replicas: all numbers are within the bounds, also those that are
-- stored, and there is one result for each rule, in their order.
abbrev pub IsRun : ℤ → ℤ → List Rule → List Turn × ℤ → Type 0
IsRun lo hi rules (turns, last) =
    Between lo hi last
    × All (AreBetween lo hi) turns
    × (map (λ t. Evaluation.rule_name (Turn.result t)) turns ≡ map Rule.name rules)

module _ (fl : Floats) (st : Storage) where
  -- a turn after which nothing is stored
  abbrev pub IsIdle : ℤ → Rule → Turn → Type 0
  IsIdle replicas rule turn =
      (turn.result.triggered ≡ false)
      × (turn.replicas ≡ replicas)
      × (turn.rule ≡ rule)
      × (turn.stored ≡ none)

  -- the conditions under which a turn calls ScaleApp
  abbrev pub IsDue : Averages → ℤ → Rule → Type 0
  IsDue m replicas rule =
      ((metric_value rule.metric_name m).1 ≡ true)
      × (comparison_matches fl st (metric_value rule.metric_name m).0 rule.comparison rule.threshold
          ≡ true)
      × (same_ℤ (autoscale_target replicas rule) replicas ≡ false)
      × (cooldown_active replicas (autoscale_target replicas rule) rule ≡ false)

  -- a turn in which ScaleApp fails after it has stored the target
  abbrev pub IsStuck : ℤ → Rule → Turn → Type 0
  IsStuck replicas rule turn =
      (scale_app fl st (autoscale_target replicas rule) ≡ stuck turn.result.message)
      × (turn.result.triggered ≡ false)
      × (turn.replicas ≡ replicas)
      × (turn.rule ≡ rule)
      × (turn.stored ≡ some (autoscale_target replicas rule))

  -- a turn that scales
  abbrev pub IsScaling : ℤ → Rule → Turn → Type 0
  IsScaling replicas rule turn =
      (scale_app fl st (autoscale_target replicas rule) ≡ scaled)
      × (turn.result.triggered ≡ true)
      × (turn.replicas ≡ autoscale_target replicas rule)
      × (turn.rule ≡ marked fl st rule)
      × (turn.stored ≡ some (autoscale_target replicas rule))

  abbrev pub IsTurn : Averages → ℤ → Rule → Turn → Type 0
  IsTurn m replicas rule turn =
      (turn.result.rule_name ≡ rule.name)
      × (IsIdle replicas rule turn
          ⊎ (IsDue m replicas rule × (IsStuck replicas rule turn ⊎ IsScaling replicas rule turn)))

  idle-IsTurn :
      (m : Averages) (replicas : ℤ) (rule : Rule) (value message : String)
      → IsTurn m replicas rule (idle fl st rule value message replicas)
  idle-IsTurn m replicas rule value message = (refl, inl (refl, refl, refl, refl))

  -- the turn by the way ScaleApp ends
  after_scaling-IsTurn :
      (m : Averages) (replicas : ℤ) (rule : Rule) (value : String) (s : Scaling)
      → IsDue m replicas rule
      → scale_app fl st (autoscale_target replicas rule) ≡ s
      → IsTurn m replicas rule
          (after_scaling fl st rule value replicas (autoscale_target replicas rule) s)
  after_scaling-IsTurn m replicas rule value (refused e) due h = idle-IsTurn m replicas rule value e
  after_scaling-IsTurn m replicas rule value (stuck e) due h =
      (refl, inr (due, inl (h, refl, refl, refl, refl)))
  after_scaling-IsTurn m replicas rule value scaled due h =
      (refl, inr (due, inr (h, refl, refl, refl, refl)))

  due_turn :
      (m : Averages) (replicas : ℤ) (rule : Rule)
      → IsDue m replicas rule
      → (not (metric_value rule.metric_name m).1 || m.sample_count == 0) ≡ false
      → evaluate_rule fl st m replicas rule
        ≡ after_scaling fl st rule
            (metric_value rule.metric_name m).0
            replicas
            (autoscale_target replicas rule)
            (scale_app fl st (autoscale_target replicas rule))
  unfolding evaluate_rule
  due_turn m replicas rule (ok, met, free, cooled) fresh = rw (fresh, met, free, cooled) refl

  pub evaluate_rule-IsTurn :
      (m : Averages) (replicas : ℤ) (rule : Rule)
      → IsTurn m replicas rule (evaluate_rule fl st m replicas rule)
  unfolding evaluate_rule
  evaluate_rule-IsTurn m replicas rule =
      let target = autoscale_target replicas rule in
      let value = (metric_value rule.metric_name m).0 in
      elim (Bool-cases (not (metric_value rule.metric_name m).1 || m.sample_count == 0)) [
        | inl stale ↦ rw stale (refl, inl (refl, refl, refl, refl))
        | inr fresh ↦
            elim (Bool-cases (comparison_matches fl st value rule.comparison rule.threshold)) [
              | inr unmet ↦ rw (fresh, unmet) (refl, inl (refl, refl, refl, refl))
              | inl met ↦ elim (Bool-cases (same_ℤ target replicas)) [
                | inl bound ↦ rw (fresh, met, bound) (refl, inl (refl, refl, refl, refl))
                | inr free ↦ elim (Bool-cases (cooldown_active replicas target rule)) [
                  | inl active ↦ rw (fresh, met, free, active) (refl, inl (refl, refl, refl, refl))
                  | inr cooled ↦
                      subst (IsTurn m replicas rule)
                        (sym
                          (due_turn m replicas rule (reported _ _ fresh, met, free, cooled) fresh))
                        (after_scaling-IsTurn m replicas rule value _
                          (reported _ _ fresh, met, free, cooled) refl)
                ]
              ]
            ]
      ]

  -- a turn whose rule is within some bounds stays within them
  turn-Between :
      (lo hi : ℤ) (m : Averages) (replicas : ℤ) (rule : Rule) (turn : Turn)
      → Between lo hi replicas
      → IsWithin lo hi rule
      → IsTurn m replicas rule turn
      → AreBetween lo hi turn
  turn-Between lo hi m replicas rule turn b w (name, inl (t, same, u, none_stored)) =
      (rw same b, rw none_stored tt)
  turn-Between lo hi m replicas rule turn b (l, o, h) (name, inr (due, inl (e, t, same, u, put))) =
      let (above, below) = autoscale_target-Between replicas rule o in
      (
        rw same b,
        rw put (widened lo hi rule (autoscale_target replicas rule) (l, o, h) (above, below)),
      )
  turn-Between lo hi m replicas rule turn b (l, o, h)
        (name, inr (due, inr (e, t, target, u, put))) =
      let (above, below) = autoscale_target-Between replicas rule o in
      let within = widened lo hi rule (autoscale_target replicas rule) (l, o, h) (above, below) in
      (rw target within, rw put within)

  evaluate_all-Between :
      (lo hi : ℤ) (m : Averages) (replicas : ℤ) (rules : List Rule)
      → Between lo hi replicas
      → All (IsWithin lo hi) rules
      → IsRun lo hi rules (evaluate_all fl st m replicas rules)
  unfolding evaluate_all
  evaluate_all-Between lo hi m replicas [] b w = (b, tt, refl)
  evaluate_all-Between lo hi m replicas (rule ∷ rules) b (w, ws) =
      let turn = evaluate_rule fl st m replicas rule in
      let is_turn = evaluate_rule-IsTurn m replicas rule in
      let here = turn-Between lo hi m replicas rule turn b w is_turn in
      let (l, ts, names) = evaluate_all-Between lo hi m turn.replicas rules here.0 ws in
      (l, (here, ts), rw (is_turn.0, names) refl)

  IsWithin-filter :
      (lo hi : ℤ) (rules : List Rule)
      → All (IsWithin lo hi) rules
      → All (IsWithin lo hi) (filter (λ r. Rule.enabled r) rules)
  IsWithin-filter lo hi [] h = tt
  IsWithin-filter lo hi (rule ∷ rules) (w, ws) = elim (Bool-cases rule.enabled) [
    | inl on ↦ rw on (w, IsWithin-filter lo hi rules ws)
    | inr off ↦ rw off (IsWithin-filter lo hi rules ws)
  ]

  -- If the bounds of every rule are in order and within some bounds, and so are the replicas, then
  -- they stay within these through the whole evaluation, whatever the metrics and the database, as does
  -- each number that is stored, and there is one result for each enabled rule, in their order.
  pub evaluate-Between :
      (lo hi : ℤ) (m : Averages) (replicas : ℤ) (rules : List Rule)
      → Between lo hi replicas
      → All (IsWithin lo hi) rules
      → IsRun lo hi (filter (λ r. Rule.enabled r) rules) (evaluate fl st m replicas rules)
  unfolding evaluate
  evaluate-Between lo hi m replicas rules b w =
      evaluate_all-Between lo hi m replicas (filter (λ r. Rule.enabled r) rules) b
        (IsWithin-filter lo hi rules w)
