-- ===== src/Witnesses/Alarms.antt =====
-- Alerts at concrete histories and rules.
use nixway_core.Prelude.{
  true, false, [], ◌∷◌, none, some, ◌≡◌, refl, arith, String, Option, str_eq, if◌then◌else◌,
}
use nixway_core.Prelude.Int.{ℤ, pos}
use nixway_core.AppUpdate.Decode.{Decoder}
use nixway_core.CreateApp.Dialog.{Runtime, literal}
use nixway_core.Alerts.State.{Sample}
use nixway_core.Alerts.Reach.{Track, first_track, observe, start, next, IsTimedTrack, Reach-IsTimed}
use nixway_core.Alerts.Dialog.{AlertFields, first_alert, alert_input, add_alert}
use nixway_core.Alerts.Server.{Scopes, fails, handle_alert}
use nixway_core.Alerts.Created.{
  asked_alert, stored_alert, add_alert-handle_alert, add_alert-unstored,
}

abbrev high : Sample
high = record { sampled_at = 5; breaches = true }

abbrev fired : Track
fired = observe (pos 1) 2000000000 false high (observe (pos 1) 5 false high first_track)

Reach-IsTimed_example : IsTimedTrack (pos 1) fired
Reach-IsTimed_example =
    Reach-IsTimed (pos 1)
      (next 2000000000 false high (next 5 false high start (omega arith)) (omega arith))

abbrev small_literals : String → Option ℤ
small_literals s = if str_eq s "120" then some (pos 120) else none

abbrev decoder : Decoder
decoder = record { int32 = small_literals; is_uuid = λ s. true }

abbrev runtime : Runtime
runtime = record { trim = λ s. s; number = λ s. literal s }

abbrev own_scopes : Scopes
own_scopes = record { in_team = λ type id. true }

abbrev hot : AlertFields
hot = record first_alert { scope_id = "s1"; name = "hot"; picked = "c1" ∷ [] }

abbrev exact : AlertFields
exact = record hot { comparison = "eq" }

add_alert-handle_alert_example :
    handle_alert decoder own_scopes (alert_input runtime hot)
    ≡ stored_alert decoder runtime (asked_alert decoder runtime hot 119 "80")
unfolding add_alert
add_alert-handle_alert_example =
    add_alert-handle_alert decoder runtime own_scopes hot (alert_input runtime hot) 119 "80" refl
      (record {
        threshold_read = refl;
        duration_read = refl;
        scope_read = refl;
        channels_read = refl;
      })
      (record {
        scope_chosen = refl;
        type_chosen = refl;
        metric_chosen = refl;
        comparison_chosen = refl;
        severity_chosen = refl;
      })
      refl

add_alert-unstored_example :
    handle_alert decoder own_scopes (alert_input runtime exact)
    ≡ fails 500 "failed to create alert rule"
unfolding add_alert
add_alert-unstored_example =
    add_alert-unstored decoder runtime own_scopes exact (alert_input runtime exact) 119 "80" refl
      (record {
        threshold_read = refl;
        duration_read = refl;
        scope_read = refl;
        channels_read = refl;
      })
      (record {
        scope_chosen = refl;
        type_chosen = refl;
        metric_chosen = refl;
        comparison_chosen = refl;
        severity_chosen = refl;
      })
      refl refl
