-- ===== src/Alerts/Reach.antt =====
-- Every history of an alert rule.
use nixway_core.Prelude.{
  ℕ, ◌+◌, ◌-◌, ◌≤◌, Bool, true, false, not, Option, none, some, ◌≡◌, refl, arith, inl, inr,
  Bool-cases, or_else, leb, if◌then◌else◌,
}
use nixway_core.Prelude.Int.{ℤ}
use nixway_core.Alerts.State.{
  AlertState, ok, pending, firing, resolved, Alert, Sample, duration_of, next_alert_state,
  update_state, is_stale, evaluate_alert,
}

-- An alert with its history as far as it counts: the time of the first of the latest breaches without
-- a pause, and the time of the last evaluation.
pub record Track : Type 0 where
  pub alert : Alert
  pub streak : Option ℕ
  pub clock : ℕ

abbrev pub first_track : Track
first_track = record {
  alert = record { last_state = ok; changed_at = none };
  streak = none;
  clock = 0;
}

-- the streak after a sample that counts
abbrev next_streak : Bool → ℕ → Option ℕ → Option ℕ
next_streak true now streak = some (or_else streak now)
next_streak false now streak = none

abbrev pub observe : ℤ → ℕ → Bool → Sample → Track → Track
observe seconds now silenced s t = record {
  alert = (evaluate_alert seconds now silenced (some s) t.alert).0;
  streak =
      if is_stale (duration_of seconds) now s
      then t.streak
      else next_streak s.breaches now t.streak;
  clock = now;
}

-- The evaluations of a rule, one after the other in time.
pub data Reach (seconds : ℤ) : Track → Type 0 where
  start : Reach seconds first_track
  next :
      {t : Track} (now : ℕ) (silenced : Bool) (s : Sample)
      → Reach seconds t
      → t.clock ≤ now
      → Reach seconds (observe seconds now silenced s t)

-- What a state says of the history.
abbrev pub IsTimed : ℕ → AlertState → Option ℕ → Option ℕ → ℕ → Type 0
IsTimed duration ok changed_at streak clock = streak ≡ none
IsTimed duration resolved changed_at streak clock = streak ≡ none
IsTimed duration pending changed_at streak clock =
    (t : ℕ) × (streak ≡ some t) × (changed_at ≡ some t) × (t ≤ clock)
IsTimed duration firing changed_at streak clock =
    (t : ℕ) × (streak ≡ some t) × (t + duration ≤ clock)

abbrev pub IsTimedTrack : ℤ → Track → Type 0
IsTimedTrack seconds t =
    IsTimed (duration_of seconds) t.alert.last_state t.alert.changed_at t.streak t.clock

later :
    (duration : ℕ) (state : AlertState) (changed_at streak : Option ℕ) (clock now : ℕ)
    → clock ≤ now
    → IsTimed duration state changed_at streak clock
    → IsTimed duration state changed_at streak now
later duration ok changed_at streak clock now l h = h
later duration resolved changed_at streak clock now l h = h
later duration pending changed_at streak clock now l (t, s, c, e) = (t, s, c, omega (arith, l, e))
later duration firing changed_at streak clock now l (t, s, e) = (t, s, omega (arith, l, e))

-- an evaluation with a sample that counts
counts :
    (duration : ℕ) (state : AlertState) (changed_at streak : Option ℕ) (clock now : ℕ) (b : Bool)
    → clock ≤ now
    → 1 ≤ duration
    → IsTimed duration state changed_at streak clock
    → (let after =
          update_state
            (record { last_state = state; changed_at = changed_at })
            (next_alert_state state changed_at b duration now)
            now in
        IsTimed duration after.last_state after.changed_at (next_streak b now streak) now)
unfolding next_alert_state
counts duration ok changed_at streak clock now true l d h = (now, rw h refl, refl, omega arith)
counts duration resolved changed_at streak clock now true l d h =
    (now, rw h refl, refl, omega arith)
counts duration ok changed_at streak clock now false l d h = refl
counts duration resolved changed_at streak clock now false l d h = refl
counts duration pending changed_at streak clock now false l d h = refl
counts duration firing changed_at streak clock now false l d h = refl
counts duration firing changed_at streak clock now true l d (t, s, e) =
    (t, rw s refl, omega (arith, l, e))
counts duration pending changed_at streak clock now true l d (t, s, c, e) =
    elim (Bool-cases (leb duration (now - t))) [
      | inl held ↦ rw (c, held) (t, rw s refl, ground (arith, e, l, held))
      | inr short ↦ rw (c, short) (t, rw s refl, refl, omega (arith, e, l))
    ]

duration_of-positive : (seconds : ℤ) → 1 ≤ duration_of seconds
duration_of-positive seconds = ground arith

observe-IsTimed :
    (seconds : ℤ) (now : ℕ) (silenced : Bool) (s : Sample) (t : Track)
    → t.clock ≤ now
    → IsTimedTrack seconds t
    → IsTimedTrack seconds (observe seconds now silenced s t)
unfolding evaluate_alert
observe-IsTimed seconds now silenced s t l h =
    let d = duration_of seconds in
    elim (Bool-cases (is_stale d now s)) [
      | inl stale ↦
          rw stale (later d t.alert.last_state t.alert.changed_at t.streak t.clock now l h)
      | inr fresh ↦ rw fresh (
          counts d t.alert.last_state t.alert.changed_at t.streak t.clock now s.breaches l
            (duration_of-positive seconds) h)
    ]

-- In every history of a rule, a firing alert has been breached by every sample that counted, over a
-- time of at least the rule's duration; a pending one since its state changed; and an alert that is
-- ok or resolved was not breached by the latest sample that counted.
pub Reach-IsTimed : (seconds : ℤ) {t : Track} → Reach seconds t → IsTimedTrack seconds t
Reach-IsTimed seconds start = refl
Reach-IsTimed seconds (next {t} now silenced s r l) =
    observe-IsTimed seconds now silenced s t l (Reach-IsTimed seconds r)

-- A pending alert, which has not fired, becomes resolved with the first sample that counts and does not
-- breach, and the channels are told so unless it is silenced.
pub pending_resolves :
    (seconds : ℤ) (now : ℕ) (silenced : Bool) (s : Sample) (a : Alert)
    → a.last_state ≡ pending
    → s.breaches ≡ false
    → is_stale (duration_of seconds) now s ≡ false
    → ((evaluate_alert seconds now silenced (some s) a).0.last_state ≡ resolved)
      × ((evaluate_alert seconds now silenced (some s) a).1
          ≡ some (record { state = resolved; is_notified = not silenced }))
unfolding evaluate_alert next_alert_state
pending_resolves seconds now silenced s a p b fresh = (rw (fresh, p, b) refl, rw (fresh, p, b) refl)
