-- ===== src/Alerts/Server.antt =====
-- ObservabilityHandler.CreateAlert of internal/api/handler/observability.go, with the checks of the
-- table in sql/migrations/00011_observability.sql.
use nixway_core.Prelude.{
  ℕ, String, Bool, true, false, not, ◌&&◌, ◌||◌, List, [], ◌∷◌, Option, none, some, str_eq, truthy,
  any, or_else, if◌then◌else◌,
}
use nixway_core.Prelude.Int.{ℤ, pos, leb_ℤ}
use nixway_core.Json.{Json, null, str, arr, Members, end, member, get_member}
use nixway_core.AppUpdate.Decode.{◌>>=◌, as_string, as_number, strings_of, Decoder, as_int32}
use nixway_core.CreateApp.Server.{as_bool_pointer}

-- the request, once decoded; channels that are `none` are a nil slice
pub record AlertRequest : Type 0 where
  pub scope_type : String
  pub scope_id : String
  pub name : String
  pub metric_name : String
  pub comparison : String
  pub threshold : String
  pub duration_seconds : ℤ
  pub severity : String
  pub enabled : Bool
  pub notification_channels : Option (List String)

abbrev alert_fields : List String
alert_fields =
    "scope_type" ∷ "scope_id" ∷ "name" ∷ "metric_name" ∷ "comparison" ∷ "threshold"
    ∷ "duration_seconds" ∷ "severity" ∷ "enabled" ∷ "notification_channels" ∷ []

unfoldable pub alert_known : Members → Bool
alert_known end = true
alert_known (member key v ms) = any (λ f. str_eq f key) alert_fields && alert_known ms

-- `uuid.Nil`, which a missing member leaves
abbrev pub nil_id : String
nil_id = "00000000-0000-0000-0000-000000000000"

-- whether the scope belongs to the team
pub record Scopes : Type 0 where
  pub in_team : String → String → Bool

pub data AlertAnswer : Type 0 where
  fails : ℕ → String → AlertAnswer
  created : AlertRequest → AlertAnswer

abbrev pub alert_error : AlertRequest → Option String
alert_error a =
    if not (truthy a.scope_type)
      || str_eq a.scope_id nil_id
      || not (truthy a.name)
      || not (truthy a.metric_name)
    then some "scope_type, scope_id, name, and metric_name are required"
    else if not (truthy a.comparison)
    then some "comparison is required"
    else if leb_ℤ a.duration_seconds (pos 0)
    then some "duration_seconds must be greater than zero"
    else if not (truthy a.severity)
    then some "severity is required"
    else none

abbrev is_given : Option (List String) → Bool
is_given none = false
is_given (some ids) = true

-- the checks of the columns `comparison`, `scope_type` and `severity`, and the channels, which are not
-- null
abbrev pub has_valid_columns : AlertRequest → Bool
has_valid_columns a =
    any (λ c. str_eq c a.comparison) ("gt" ∷ "gte" ∷ "lt" ∷ "lte" ∷ [])
    && any (λ s. str_eq s a.scope_type)
        ("server" ∷ "container" ∷ "project" ∷ "cluster" ∷ "app" ∷ [])
    && any (λ s. str_eq s a.severity) ("info" ∷ "warning" ∷ "critical" ∷ [])
    && is_given a.notification_channels

-- the answer by the error of `validate` and the scope
abbrev pub answer_checked : Option String → Bool → AlertRequest → AlertAnswer
answer_checked (some e) in_team a = fails 400 e
answer_checked none in_team a =
    if not in_team
    then fails 404 "scope not found"
    else if has_valid_columns a
    then created a
    else fails 500 "failed to create alert rule"

abbrev pub answer_alert : Scopes → Option AlertRequest → AlertAnswer
answer_alert scopes none = fails 400 "invalid request body"
answer_alert scopes (some a) =
    answer_checked (alert_error a) (scopes.in_team a.scope_type a.scope_id) a

module _ (d : Decoder) where
  -- a UUID as the decoder reads it
  abbrev pub as_uuid : Option Json → Option String
  as_uuid none = some nil_id
  as_uuid (some null) = some nil_id
  as_uuid (some (str s)) = if d.is_uuid s then some s else none
  as_uuid _ = none

  abbrev pub uuids_only : List String → Option (Option (List String))
  uuids_only ids = if any (λ s. not (d.is_uuid s)) ids then none else some (some ids)

  -- a missing member and `null` leave the slice nil, which is written as NULL
  abbrev pub as_uuids : Option Json → Option (Option (List String))
  as_uuids none = some none
  as_uuids (some null) = some none
  as_uuids (some (arr items)) = strings_of items >>= uuids_only
  as_uuids _ = none

  unfoldable pub decode_alert : Members → Option AlertRequest
  decode_alert ms = if not (alert_known ms) then none else do
    scope_type ← as_string (get_member "scope_type" ms)
    scope_id ← as_uuid (get_member "scope_id" ms)
    name ← as_string (get_member "name" ms)
    metric_name ← as_string (get_member "metric_name" ms)
    comparison ← as_string (get_member "comparison" ms)
    threshold ← as_number (get_member "threshold" ms)
    duration ← as_int32 d (get_member "duration_seconds" ms)
    severity ← as_string (get_member "severity" ms)
    enabled ← as_bool_pointer (get_member "enabled" ms)
    channels ← as_uuids (get_member "notification_channels" ms)
    some (record {
      scope_type = scope_type;
      scope_id = scope_id;
      name = name;
      metric_name = metric_name;
      comparison = comparison;
      threshold = threshold;
      duration_seconds = duration;
      severity = severity;
      enabled = or_else enabled true;
      notification_channels = channels;
    })

  -- the handler behind the team's guard
  unfoldable pub handle_alert : Scopes → Members → AlertAnswer
  unfolding decode_alert
  handle_alert scopes ms = answer_alert scopes (decode_alert ms)
