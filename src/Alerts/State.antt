-- ===== src/Alerts/State.antt =====
-- evaluateRule and nextAlertState of internal/observability/service.go, with the query
-- UpdateAlertRuleState of sql/queries/observability.sql.
use nixway_core.Prelude.{
  ℕ, zero, suc, ◌+◌, ◌-◌, ◌*◌, String, Bool, true, false, not, ◌&&◌, ◌||◌, Option, none, some, leb,
  ltb, if◌then◌else◌,
}
use nixway_core.Prelude.Int.{ℤ, pos, negsuc}

-- the values of `last_state`
pub data AlertState : Type 0 where
  ok pending firing resolved : AlertState

abbrev pub state_name : AlertState → String
state_name ok = "ok"
state_name pending = "pending"
state_name firing = "firing"
state_name resolved = "resolved"

-- The columns of `alert_rules` that an evaluation writes; times are in nanoseconds.
pub record Alert : Type 0 where
  pub last_state : AlertState
  pub changed_at : Option ℕ

-- `duration`: five minutes where no positive number of seconds is given
abbrev pub duration_of : ℤ → ℕ
duration_of (pos zero) = 300000000000
duration_of (pos (suc n)) = suc n * 1000000000
duration_of (negsuc n) = 300000000000

abbrev held_for : Option ℕ → ℕ → ℕ → Bool
held_for none duration now = false
held_for (some t) duration now = leb duration (now - t)

unfoldable pub next_alert_state : AlertState → Option ℕ → Bool → ℕ → ℕ → AlertState
next_alert_state pending changed_at true duration now =
    if held_for changed_at duration now then firing else pending
next_alert_state firing changed_at true duration now = firing
next_alert_state ok changed_at true duration now = pending
next_alert_state resolved changed_at true duration now = pending
next_alert_state pending changed_at false duration now = resolved
next_alert_state firing changed_at false duration now = resolved
next_alert_state ok changed_at false duration now = ok
next_alert_state resolved changed_at false duration now = ok

abbrev pub same_state : AlertState → AlertState → Bool
same_state ok ok = true
same_state pending pending = true
same_state firing firing = true
same_state resolved resolved = true
same_state _ _ = false

-- `CASE WHEN last_state <> $2 THEN now() ELSE state_changed_at END`
abbrev pub update_state : Alert → AlertState → ℕ → Alert
update_state a next now = record {
  last_state = next;
  changed_at = if same_state a.last_state next then a.changed_at else some now;
}

-- `CreateAlertEvent`: the state, and whether the channels are notified
pub record Event : Type 0 where
  pub state : AlertState
  pub is_notified : Bool

abbrev is_final : AlertState → Bool
is_final firing = true
is_final resolved = true
is_final _ = false

abbrev pub event_of : AlertState → AlertState → Bool → Option Event
event_of last next silenced =
    if same_state next last || same_state next ok
    then none
    else some (record { state = next; is_notified = is_final next && not silenced })

-- the latest sample: its time, and whether it meets the rule's comparison
pub record Sample : Type 0 where
  pub sampled_at : ℕ
  pub breaches : Bool

-- `SampledAt.Before(now.Add(-2 * duration))`
abbrev pub is_stale : ℕ → ℕ → Sample → Bool
is_stale duration now s = ltb (s.sampled_at + 2 * duration) now

-- One evaluation of a rule; `none` is a rule without a sample.
unfoldable pub evaluate_alert : ℤ → ℕ → Bool → Option Sample → Alert → Alert × Option Event
unfolding next_alert_state
evaluate_alert seconds now silenced none a = (a, none)
evaluate_alert seconds now silenced (some s) a =
    let next = next_alert_state a.last_state a.changed_at s.breaches (duration_of seconds) now in
    if is_stale (duration_of seconds) now s
    then (a, none)
    else (update_state a next now, event_of a.last_state next silenced)
